-- ===== src/Packets/KeyedItems.antt =====
-- Dictionaries with distinct scalar keys, and the pairs that the codec makes of their items.
use freethreaded_dataplane.Common.{ℕ, ◌≡◌, refl, ap, ◌∙◌, Bool, true, false, not, ◌||◌, arith}
use freethreaded_dataplane.Errors
use freethreaded_dataplane.Errors.{Exception, Result, ok, err, exception, type_error, Result-cases}
use freethreaded_dataplane.Exec.{Action, raise_if, ◌>>=◌, bind_ok}
use freethreaded_dataplane.Python.{
  Value, Values, Entries, null, bool, int, float, str, bytes, nil, cons, end, entry,
}
use freethreaded_dataplane.Library.{hashable}
use freethreaded_dataplane.Packets.Torch.{Torch}
use freethreaded_dataplane.Packets.Keys.{same_key, has_key, append, put}
use freethreaded_dataplane.Packets.Encode.{pair, invalid}
use freethreaded_dataplane.Packets.Decode.{decode_items}
use freethreaded_dataplane.Packets.MapTensors.{map_items}

-- A key that the codec keeps as it is.
abbrev pub is_scalar : {X : Type 0} → Value X → Bool
is_scalar null = true
is_scalar (bool b) = true
is_scalar (int z) = true
is_scalar (float x) = true
is_scalar (str s) = true
is_scalar (bytes b) = true
is_scalar _ = false

module _ {X : Type 0} (torch : Torch X) where
  has_key-append :
      (d : Entries X) (k v j : Value X)
      → has_key torch j (append d k v) ≡ has_key torch j d || same_key torch j k
  unfolding has_key append
  has_key-append end k v j = ground arith
  has_key-append (entry i w d) k v j = ground (arith, has_key-append d k v j)

  pub put_new :
      (d : Entries X) (k v : Value X) → has_key torch k d ≡ false → put torch d k v ≡ append d k v
  unfolding put has_key append
  put_new end k v h = refl
  put_new (entry j w d) k v h = ground (arith, put_new d k v)

  pub scalar_hashable : (k : Value X) → is_scalar k ≡ true → hashable torch.is_hashable k ≡ true
  unfolding hashable
  scalar_hashable null h = refl
  scalar_hashable (bool b) h = refl
  scalar_hashable (int z) h = refl
  scalar_hashable (float x) h = refl
  scalar_hashable (str s) h = refl
  scalar_hashable (bytes b) h = refl
  scalar_hashable _ h = cc

  -- Two dictionaries with the same keys.
  abbrev pub SameKeys : Entries X → Entries X → Type 0
  SameKeys d e = (j : Value X) → has_key torch j d ≡ has_key torch j e

  pub append-SameKeys :
      (d e : Entries X) (k v w : Value X) → SameKeys d e → SameKeys (append d k v) (append e k w)
  append-SameKeys d e k v w h j =
      ground (arith, has_key-append d k v j, has_key-append e k w j, h j)

  -- The item that `decode` reads first, and the rest of the items.
  pub pair_decoded :
      (decode : Value X → Action ℕ (Value X)) (key_node value_node : Value X) (rest : Values X)
      (so_far e : Entries X) (k v : Value X) (n n1 n2 n3 : ℕ)
      → decode key_node n ≡ (ok k, n1)
      → decode value_node n1 ≡ (ok v, n2)
      → is_scalar k ≡ true
      → has_key torch k so_far ≡ false
      → decode_items torch decode rest (append so_far k v) n2 ≡ (ok e, n3)
      → decode_items torch decode (cons (pair key_node value_node) rest) so_far n ≡ (ok e, n3)
  unfolding decode_items
  pair_decoded decode key_node value_node rest so_far e k v n n1 n2 n3 one two scalar fresh more =
      let finish : Value X → Value X → Action ℕ (Entries X) = λ key value.
        raise_if (not (hashable torch.is_hashable key)) (invalid "unhashable dict key") >>= λ u.
        raise_if (has_key torch key so_far) (invalid "duplicate dict key") >>= λ u.
        decode_items torch decode rest (append so_far key value) in
      let finished : finish k v n2 ≡ (ok e, n3) = ground (arith, scalar_hashable k scalar, more) in
      bind_ok (decode key_node) (λ key. decode value_node >>= λ value. finish key value) one
      ∙ bind_ok (decode value_node) (finish k) two
      ∙ finished

  -- The first item of a mapped dictionary whose key the function keeps.
  pub pair_mapped :
      (go : Value X → Result (Value X)) (k v : Value X) (d so_far e : Entries X)
      → ((key : Value X) → go k ≡ ok key → key ≡ k)
      → is_scalar k ≡ true
      → has_key torch k so_far ≡ false
      → map_items torch go (entry k v d) so_far ≡ ok e
      → (w : Value X) × (go k ≡ ok k)
        × (go v ≡ ok w)
        × (map_items torch go d (append so_far k w) ≡ ok e)
  unfolding map_items
  pair_mapped go k v d so_far e kept scalar fresh h =
      let (key, same_key, h') = Errors.bind-eq-ok (go k) _ h in
      let (w, mapped, h'') = Errors.bind-eq-ok (go v) _ h' in
      let key_kept : key ≡ k = kept key same_key in
      (
        w,
        same_key ∙ ap ok key_kept,
        mapped,
        ground (arith, scalar_hashable k scalar, put_new so_far k w fresh),
      )

module _ {X : Type 0} (torch : Torch X) (P : Value X → Type 0) where
  -- `P` holds of every value.
  abbrev pub Each : Values X → Type 0
  Each nil = Unit {0}
  Each (cons v vs) = P v × Each vs

  -- The keys are scalars that differ, from those seen before too, and `P` holds of keys and values.
  abbrev pub Keyed : Entries X → Entries X → Type 0
  Keyed seen end = Unit {0}
  Keyed seen (entry k v d) =
      (is_scalar k ≡ true) × (has_key torch k seen ≡ false) × P k × P v × Keyed (append seen k v) d
