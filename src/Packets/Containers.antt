-- ===== src/Packets/Containers.antt =====
-- The loops over the items of a container, in both directions.
use freethreaded_dataplane.Common.{ℕ, ◌≡◌, refl, ap, subst, ◌∙◌, Bool, true, List, arith}
use freethreaded_dataplane.Errors
use freethreaded_dataplane.Errors.{Exception, Result, ok, err, exception, type_error, Result-cases}
use freethreaded_dataplane.Exec.{Action, pure, ◌>>=◌, bind_ok, bind_inv}
use freethreaded_dataplane.Python.{Value, Values, Entries, nil, cons, end, entry}
use freethreaded_dataplane.Packets.Torch.{Torch}
use freethreaded_dataplane.Packets.Registry.{PacketCodec}
use freethreaded_dataplane.Packets.Keys.{append}
use freethreaded_dataplane.Packets.Encode.{Packing, walk_each, walk_items, pair}
use freethreaded_dataplane.Packets.Decode.{decode_each, decode_items}
use freethreaded_dataplane.Packets.MapTensors.{map_each, map_items}
use freethreaded_dataplane.Packets.Plain.{is_plain, all_plain}
use freethreaded_dataplane.Packets.Table.{Extends, Packed}
use freethreaded_dataplane.Packets.KeyedItems.{
  is_scalar, SameKeys, append-SameKeys, pair_decoded, pair_mapped, Each, Keyed,
}

-- A statement about a result and the state after it, at another result and state that are the same.
pub moved :
    {A S : Type 0} (F : A → S → Type 0) {a b : A} {s t : S}
    → ◌≡◌ {A = Result A × S} (ok a, s) (ok b, t)
    → F a s
    → F b t
moved F {a} {b} {s} {t} h x =
    let same_value : a ≡ b = cc in
    let same_state : s ≡ t = cc in subst (λ v. F v t) same_value (subst (F a) same_state x)

module _ {X : Type 0} (torch : Torch X) (codec : PacketCodec X) where
  -- Over snapshots that `I` counts: after a walk that took the elements `n` and the buffers `bs` to `t`: any table that extends the
  -- buffers now there decodes what was written to what the snapshot is, with the same count.
  pub record Carries {I B : Type 0} (snap : I → Result B) (decode : List (Value X) → I → Action ℕ B)
      (n : ℕ) (bs : List (Value X)) (t : Packing X) (plain : Bool) : Type 0 where
    pub table : List (Value X)
    pub grows : Extends table bs
    pub packed : Packed torch codec t table
    pub decodes :
        (buffers : List (Value X)) (f : I) (b : B)
        → Extends buffers table
        → snap f ≡ ok b
        → decode buffers f n ≡ (ok b, t.elements)
    pub is_plain_json : plain ≡ true

  module _ (walk : Value X → Action (Packing X) (Value X)) (snap : ℕ → Value X → Result (Value X))
      (decode : List (Value X) → Value X → Action ℕ (Value X)) (P : Value X → Type 0) where
    -- The walk of a value that satisfies `P` carries it.
    abbrev pub Carried : Type 0
    Carried =
        (v node : Value X) (s t : Packing X) (bs : List (Value X))
        → P v
        → Packed torch codec s bs
        → walk v s ≡ (ok node, t)
        → Carries {I = ℕ} (λ f. snap f v) (λ buffers f. decode buffers node) s.elements bs t
            (is_plain node)

    pub Each-carried :
        Carried
        → (vs items : Values X) (s t : Packing X) (bs : List (Value X)) → Each torch P vs
        → Packed torch codec s bs
        → walk_each walk vs s ≡ (ok items, t)
        → Carries {I = ℕ}
            (λ f. map_each (snap f) vs)
            (λ buffers f. decode_each (decode buffers) items)
            s.elements
            bs
            t
            (all_plain items)
    unfolding walk_each map_each decode_each is_plain
    Each-carried c nil items s t bs e k h =
        moved
          (λ items t.
            Carries {I = ℕ} (λ f. ok nil) (λ buffers f. decode_each (decode buffers) items)
              s.elements bs t (all_plain items))
          h
          (record {
            table = bs;
            grows = λ i b g. g;
            packed = k;
            decodes = λ buffers f b x g. ground arith;
            is_plain_json = refl;
          })
    Each-carried c (cons v vs) items s t bs e k h =
        let (item, s', first, later) =
          bind_inv (walk v) (λ item. walk_each walk vs >>= λ items. pure (cons item items)) h in
        let (rest, t', others, finish) =
          bind_inv (walk_each walk vs) (λ items. pure (cons item items)) later in
        let one = c v item s s' bs e.0 k first in
        let more = Each-carried c vs rest s' t' one.table e.1 one.packed others in
        moved
          (λ items t.
            Carries {I = ℕ} (λ f. map_each (snap f) (cons v vs))
              (λ buffers f. decode_each (decode buffers) items) s.elements bs t (all_plain items))
          finish
          (record {
            table = more.table;
            grows = λ i b g. more.grows i b (one.grows i b g);
            packed = more.packed;
            decodes = λ buffers f b x g.
                let (v', first_snap, g') =
                  Errors.bind-eq-ok (snap f v)
                    (λ item. Errors.◌>>=◌ (map_each (snap f) vs) λ items. ok (cons item items)) g in
                let (vs', more_snap, g'') =
                  Errors.bind-eq-ok (map_each (snap f) vs) (λ items. ok (cons v' items)) g' in
                let one_decoded =
                  one.decodes buffers f v' (λ i c d. x i c (more.grows i c d)) first_snap in
                let more_decoded = more.decodes buffers f vs' x more_snap in
                bind_ok (decode buffers item)
                  (λ item. decode_each (decode buffers) rest >>= λ items. pure (cons item items))
                  one_decoded
                ∙ bind_ok (decode_each (decode buffers) rest) (λ items. pure (cons v' items))
                    more_decoded
                ∙ ap (λ r. (r, t'.elements)) g'';
            is_plain_json = ground (arith, one.is_plain_json, more.is_plain_json);
          })

    -- A snapshot leaves scalars alone.
    abbrev pub Fixes : Type 0
    Fixes = (f : ℕ) (k key : Value X) → is_scalar k ≡ true → snap f k ≡ ok key → key ≡ k

    -- A depth, and a dictionary so far that has the keys seen.
    abbrev pub SoFar : Entries X → Type 0
    SoFar seen = ℕ × (so_far : Entries X) × SameKeys torch so_far seen

    pub items_carried :
        Carried
        → Fixes
        → (d seen : Entries X) (items : Values X) (s t : Packing X) (bs : List (Value X))
        → Keyed torch P seen d
        → Packed torch codec s bs
        → walk_items walk d s ≡ (ok items, t)
        → Carries {I = SoFar seen}
            (λ i. map_items torch (snap i.0) d i.1)
            (λ buffers i. decode_items torch (decode buffers) items i.1)
            s.elements
            bs
            t
            (all_plain items)
    unfolding walk_items map_items decode_items is_plain
    items_carried c fix end seen items s t bs e k h =
        moved
          (λ items t.
            Carries {I = SoFar seen} (λ i. ok i.1)
              (λ buffers i. decode_items torch (decode buffers) items i.1) s.elements bs t
              (all_plain items))
          h
          (record {
            table = bs;
            grows = λ i b g. g;
            packed = k;
            decodes = λ buffers f b x g. ground arith;
            is_plain_json = refl;
          })
    items_carried c fix (entry key value d) seen items s t bs e k h =
        let write =
          λ (k v : Value X). (walk_items walk d >>= λ items. pure (cons (pair k v) items)) in
        let (key_node, s1, first, later) =
          bind_inv (walk key) (λ k. walk value >>= λ v. write k v) h in
        let (value_node, s2, second, last) = bind_inv (walk value) (λ v. write key_node v) later in
        let (rest, s3, others, finish) =
          bind_inv (walk_items walk d) (λ items. pure (cons (pair key_node value_node) items))
            last in
        let one = c key key_node s s1 bs e.2 k first in
        let two = c value value_node s1 s2 one.table e.3 one.packed second in
        let more =
          items_carried c fix d (append seen key value) rest s2 s3 two.table e.4 two.packed
            others in
        moved
          (λ items t.
            Carries {I = SoFar seen} (λ i. map_items torch (snap i.0) (entry key value d) i.1)
              (λ buffers i. decode_items torch (decode buffers) items i.1) s.elements bs t
              (all_plain items))
          finish
          (record {
            table = more.table;
            grows = λ i b g. more.grows i b (two.grows i b (one.grows i b g));
            packed = more.packed;
            decodes = λ buffers i b x g.
                let unseen = i.2 key ∙ e.1 in
                let (w, key_mapped, mapped, others_mapped) =
                  pair_mapped torch (snap i.0) key value d i.1 b (λ k' m. fix i.0 key k' e.0 m) e.0
                    unseen g in
                let later_table : Extends buffers two.table = λ j c g. x j c (more.grows j c g) in
                let first_table : Extends buffers one.table =
                  λ j c g. later_table j c (two.grows j c g) in
                let read =
                  pair_decoded torch (decode buffers) key_node value_node rest i.1 b key w
                    s.elements s1.elements s2.elements s3.elements
                    (one.decodes buffers i.0 key first_table key_mapped)
                    (two.decodes buffers i.0 w later_table mapped) e.0 unseen
                    (more.decodes buffers
                      (i.0, append i.1 key w, append-SameKeys torch i.1 seen key w value i.2) b x
                      others_mapped) in
                read;
            is_plain_json =
                ground (arith, one.is_plain_json, two.is_plain_json, more.is_plain_json);
          })
