-- ===== src/Packets/Taking.antt =====
-- What the loops of `encode` accept, the loops of `map_tensors` map.
use freethreaded_dataplane.Common.{◌≡◌, refl, ap, ◌∙◌, true, not}
use freethreaded_dataplane.Errors
use freethreaded_dataplane.Errors.{
  Exception, Result, ok, err, exception, type_error, attribute_error,
}
use freethreaded_dataplane.Exec.{Action, pure, ◌>>=◌, bind_inv}
use freethreaded_dataplane.Python.{Value, Values, Entries, nil, cons, end, entry}
use freethreaded_dataplane.Library.{hashable}
use freethreaded_dataplane.Packets.Torch.{Torch}
use freethreaded_dataplane.Packets.Keys.{append, put}
use freethreaded_dataplane.Packets.Encode.{Packing, pair, walk_each, walk_items}
use freethreaded_dataplane.Packets.MapTensors.{map_each, map_fields, map_items}
use freethreaded_dataplane.Packets.KeyedItems.{Each, Keyed, is_scalar, scalar_hashable}

module _ {X : Type 0} (torch : Torch X) where
  -- A dictionary whose items are mapped has its fields mapped.
  pub fields_of_items :
      (go : Value X → Result (Value X)) (d so_far e : Entries X)
      → map_items torch go d so_far ≡ ok e
      → (mapped : Entries X) × (map_fields go d ≡ ok mapped)
  unfolding map_items map_fields
  fields_of_items go end so_far e h = (end, refl)
  fields_of_items go (entry k v d) so_far e h =
      let unhashable = λ (key : Value X).
        Errors.raise_if (not (hashable torch.is_hashable key))
          (exception type_error "unhashable type") in
      let rest = λ (key value : Value X).
        Errors.◌>>◌ (unhashable key) (map_items torch go d (put torch so_far key value)) in
      let (key, key_ok, h1) = Errors.bind-eq-ok (go k) (λ key. Errors.◌>>=◌ (go v) (rest key)) h in
      let (value, value_ok, h2) = Errors.bind-eq-ok (go v) (rest key) h1 in
      let (hashed, h3) =
        Errors.guard_inv (not (hashable torch.is_hashable key))
          (exception type_error "unhashable type")
          (map_items torch go d (put torch so_far key value)) h2 in
      let (mapped, more) = fields_of_items go d (put torch so_far key value) e h3 in
      (
        entry k value mapped,
        Errors.bind-ok (go v)
              (λ value. Errors.◌>>=◌ (map_fields go d) λ rest. ok (entry k value rest)) value_ok
            ∙ Errors.bind-ok (map_fields go d) (λ rest. ok (entry k value rest)) more,
      )

  module _ (walk : Value X → Action (Packing X) (Value X)) (go : Value X → Result (Value X))
      (P : Value X → Type 0) where
    -- What the walk accepts, the function maps.
    abbrev pub Taken : Type 0
    Taken =
        (v m : Value X) (s t : Packing X)
        → P v
        → walk v s ≡ (ok m, t)
        → (w : Value X) × (go v ≡ ok w)

    pub Each-taken :
        Taken
        → (vs items : Values X) (s t : Packing X) → Each torch P vs
        → walk_each walk vs s ≡ (ok items, t)
        → (ws : Values X) × (map_each go vs ≡ ok ws)
    unfolding walk_each map_each
    Each-taken c nil items s t e h = (nil, refl)
    Each-taken c (cons v vs) items s t e h =
        let (item, s', first, later) =
          bind_inv (walk v) (λ item. walk_each walk vs >>= λ items. pure (cons item items)) h in
        let (rest, t', others, finish) =
          bind_inv (walk_each walk vs) (λ items. pure (cons item items)) later in
        let (w, one) = c v item s s' e.0 first in
        let (ws, more) = Each-taken c vs rest s' t' e.1 others in
        (
          cons w ws,
          Errors.bind-ok (go v)
                (λ item. Errors.◌>>=◌ (map_each go vs) λ items. ok (cons item items)) one
              ∙ Errors.bind-ok (map_each go vs) (λ items. ok (cons w items)) more,
        )

    pub items_taken :
        Taken
        → ((k w : Value X) → is_scalar k ≡ true → go k ≡ ok w → w ≡ k)
        → (d seen so_far : Entries X) (items : Values X) (s t : Packing X) → Keyed torch P seen d
        → walk_items walk d s ≡ (ok items, t)
        → (e : Entries X) × (map_items torch go d so_far ≡ ok e)
    unfolding walk_items map_items
    items_taken c fix end seen so_far items s t e h = (so_far, refl)
    items_taken c fix (entry k v d) seen so_far items s t e h =
        let write : Value X → Value X → Action (Packing X) (Values X) =
          λ k v. walk_items walk d >>= λ items. pure (cons (pair k v) items) in
        let (key_node, s1, first, later) = bind_inv (walk k) (λ k. walk v >>= write k) h in
        let (value_node, s2, second, last) = bind_inv (walk v) (write key_node) later in
        let (rest, s3, others, finish) =
          bind_inv (walk_items walk d) (λ items. pure (cons (pair key_node value_node) items))
            last in
        let (key, key_ok) = c k key_node s s1 e.2 first in
        let (value, value_ok) = c v value_node s1 s2 e.3 second in
        let (mapped, more) =
          items_taken c fix d (append seen k v) (put torch so_far key value) rest s2 s3 e.4
            others in
        let rest = λ (key value : Value X).
          Errors.◌>>◌
            (Errors.raise_if (not (hashable torch.is_hashable key))
              (exception type_error "unhashable type"))
            (map_items torch go d (put torch so_far key value)) in
        let hashed : hashable torch.is_hashable key ≡ true =
          ap (hashable torch.is_hashable) (fix k key e.0 key_ok) ∙ scalar_hashable torch k e.0 in
        (
          mapped,
          Errors.bind-ok (go k) (λ key. Errors.◌>>=◌ (go v) (rest key)) key_ok
              ∙ Errors.bind-ok (go v) (rest key) value_ok
              ∙ Errors.guard_ok (not (hashable torch.is_hashable key))
                  (exception type_error "unhashable type")
                  (map_items torch go d (put torch so_far key value)) (ap not hashed)
              ∙ more,
        )
