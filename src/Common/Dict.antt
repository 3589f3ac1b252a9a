-- ===== src/Common/Dict.antt =====
-- A Python `dict` and `set` keyed by texts: association lists in insertion order.
use freethreaded_dataplane.Common.{
  ◌+◌, ◌≡◌, ◌⊎◌, refl, List, [], ◌∷◌, String, Option, none, some, arith, ite, length,
}
use freethreaded_dataplane.Common.Text.{text_discrete}

abbrev pub Dict {ℓ} : Type ℓ → Type ℓ
Dict V = List (String × V)

module _ {ℓ} {V : Type ℓ} where
  -- `d.get(k)`
  unfoldable pub lookup : String → Dict V → Option V
  unfolding text_discrete
  lookup k [] = none
  lookup k ((j, v) ∷ d) = ite (text_discrete k j) (some v) (lookup k d)

  -- `d[k] = v`
  unfoldable pub insert : String → V → Dict V → Dict V
  unfolding text_discrete
  insert k v [] = (k, v) ∷ []
  insert k v ((j, w) ∷ d) = ite (text_discrete k j) ((k, v) ∷ d) ((j, w) ∷ insert k v d)

  -- `del d[k]`, and `d.pop(k, None)`
  unfoldable pub erase : String → Dict V → Dict V
  unfolding text_discrete
  erase k [] = []
  erase k ((j, w) ∷ d) = ite (text_discrete k j) d ((j, w) ∷ erase k d)

  abbrev pub IsAbsent : String → Dict V → Type ℓ
  IsAbsent k d = lookup k d ≡ none

  pub lookup-insert :
      (j k : String) (v : V) (d : Dict V)
      → lookup j (insert k v d) ≡ ite (text_discrete j k) (some v) (lookup j d)
  unfolding lookup insert
  lookup-insert j k v [] = refl
  lookup-insert j k v (e ∷ d) = ground (arith, lookup-insert j k v d)

  pub lookup_of_insert :
      (j k : String) (v w : V) (d : Dict V)
      → lookup j (insert k v d) ≡ some w
      → ((j ≡ k) × (v ≡ w)) ⊎ (lookup j d ≡ some w)
  unfolding text_discrete
  lookup_of_insert j k v w d h = ground (arith, lookup-insert j k v d)

  pub lookup_inserted : (k : String) (v : V) (d : Dict V) → lookup k (insert k v d) ≡ some v
  lookup_inserted k v d = ground (arith, lookup-insert k k v d)

  pub lookup-insert_new :
      (j k : String) (v w : V) (d : Dict V)
      → lookup k d ≡ none
      → lookup j d ≡ some w
      → lookup j (insert k v d) ≡ some w
  lookup-insert_new j k v w d fresh h = ground (arith, lookup-insert j k v d)

  -- No key stands twice.
  abbrev pub IsDistinct : Dict V → Type ℓ
  IsDistinct [] = Unit {ℓ}
  IsDistinct ((k, v) ∷ d) = IsAbsent k d × IsDistinct d

  pub lookup-erase :
      (j k : String) (d : Dict V)
      → IsDistinct d
      → lookup j (erase k d) ≡ ite (text_discrete j k) none (lookup j d)
  unfolding lookup erase
  lookup-erase j k [] h = ground arith
  lookup-erase j k (e ∷ d) h = ground (arith, lookup-erase j k d h.1)

  pub insert-IsDistinct :
      (k : String) (v : V) (d : Dict V) → IsDistinct d → IsDistinct (insert k v d)
  unfolding insert lookup
  insert-IsDistinct k v [] h = (ground arith, tt)
  insert-IsDistinct k v (e ∷ d) h =
      ground (arith, insert-IsDistinct k v d h.1, lookup-insert e.0 k v d)

  pub erase-IsDistinct : (k : String) (d : Dict V) → IsDistinct d → IsDistinct (erase k d)
  unfolding erase
  erase-IsDistinct k [] h = tt
  erase-IsDistinct k (e ∷ d) h = ground (arith, erase-IsDistinct k d h.1, lookup-erase e.0 k d h.1)

  pub length-insert_new :
      (k : String) (v : V) (d : Dict V) → lookup k d ≡ none → length (insert k v d) ≡ length d + 1
  unfolding lookup insert
  length-insert_new k v [] h = omega arith
  length-insert_new k v (e ∷ d) h = ground (arith, length-insert_new k v d)

  pub length-erase :
      (k : String) (v : V) (d : Dict V) → lookup k d ≡ some v → length (erase k d) + 1 ≡ length d
  unfolding lookup erase
  length-erase k v [] h = cc
  length-erase k v (e ∷ d) h = ground (arith, length-erase k v d)

  pub erase_absent : (k : String) (d : Dict V) → lookup k d ≡ none → erase k d ≡ d
  unfolding lookup erase
  erase_absent k [] h = refl
  erase_absent k (e ∷ d) h = ground (arith, erase_absent k d)

  pub lookup_of_length-zero : (k : String) (d : Dict V) → length d ≡ 0 → lookup k d ≡ none
  unfolding lookup
  lookup_of_length-zero k [] h = refl
  lookup_of_length-zero k (e ∷ d) h = absurd (omega arith)
