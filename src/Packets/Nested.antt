-- ===== src/Packets/Nested.antt =====
-- The nodes of lists, tuples and dictionaries.
use freethreaded_dataplane.Common.{ℕ, ◌≡◌, refl, ap, ◌∙◌, List, String, arith}
use freethreaded_dataplane.Common.Text.{same}
use freethreaded_dataplane.Errors
use freethreaded_dataplane.Errors.{Exception, Result, ok, err, exception, attribute_error}
use freethreaded_dataplane.Exec.{Action, pure, ◌>>=◌, bind_ok, bind_inv}
use freethreaded_dataplane.Python.{Value, Values, Entries, list, tuple, dict, end}
use freethreaded_dataplane.Packets.Torch.{Torch, JsonText}
use freethreaded_dataplane.Packets.Registry.{PacketCodec}
use freethreaded_dataplane.Packets.Encode.{Packing, node, walk_each, walk_items}
use freethreaded_dataplane.Packets.Decode.{decode_node, decode_each, decode_items}
use freethreaded_dataplane.Packets.MapTensors.{map_each, map_items}
use freethreaded_dataplane.Packets.Plain.{is_plain, all_plain}
use freethreaded_dataplane.Packets.Table.{Packed}
use freethreaded_dataplane.Packets.KeyedItems.{Each, Keyed}
use freethreaded_dataplane.Packets.Containers.{
  Carries, Carried, Fixes, moved, Each-carried, items_carried,
}
use freethreaded_dataplane.Packets.Nodes.{opened, NodeCarried}

module _ {X : Type 0} (torch : Torch X) (json : JsonText X) (codec : PacketCodec X) where
  module _ (decode : List (Value X) → Value X → Action ℕ (Value X)) where
    -- A node that wraps what a loop carried.
    wrapped :
        {I B : Type 0} (at : ℕ → I) (wrap : B → Value X) (snap : I → Result B)
        (loop : List (Value X) → I → Action ℕ B) (kind : String) (items : Values X)
        (s t : Packing X) (bs : List (Value X))
        → Carries torch codec snap loop s.elements bs t (all_plain items)
        → ((buffers : List (Value X)) (f n : ℕ)
            → opened torch json codec buffers (decode buffers) (node kind "items" (list items)) n
              ≡ (loop buffers (at f) >>= λ b. pure (wrap b)) n)
        → NodeCarried torch json codec decode
            (λ f. Errors.◌>>=◌ (snap (at f)) λ b. ok (wrap b))
            s
            bs
            t
            (node kind "items" (list items))
    unfolding is_plain
    wrapped at wrap snap loop kind items s t bs inner reads = record {
      table = inner.table;
      grows = inner.grows;
      packed = inner.packed;
      decodes = λ buffers f b x g.
          let (c, mapped, g') = Errors.bind-eq-ok (snap (at f)) (λ b. ok (wrap b)) g in
          reads buffers f s.elements
          ∙ bind_ok (loop buffers (at f)) (λ b. pure (wrap b))
              (inner.decodes buffers (at f) c x mapped)
          ∙ ap (λ r. (r, t.elements)) g';
      is_plain_json = ground (arith, inner.is_plain_json);
    }

    module _ (walk : Value X → Action (Packing X) (Value X)) (snap : ℕ → Value X → Result (Value X))
        (P : Value X → Type 0) (c : Carried torch codec walk snap decode P) where
      pub list_carried :
          (vs : Values X) (m : Value X) (s t : Packing X) (bs : List (Value X))
          → Each torch P vs
          → Packed torch codec s bs
          → (walk_each walk vs >>= λ items. pure (node "list" "items" (list items))) s ≡ (ok m, t)
          → NodeCarried torch json codec decode
              (λ f. Errors.◌>>=◌ (map_each (snap f) vs) λ items. ok (list items))
              s
              bs
              t
              m
      unfolding decode_node same
      list_carried vs m s t bs e k h =
          let (items, s', walked, finish) =
            bind_inv (walk_each walk vs) (λ items. pure (node "list" "items" (list items))) h in
          moved
            (λ m t.
              NodeCarried torch json codec decode
                (λ f. Errors.◌>>=◌ (map_each (snap f) vs) λ items. ok (list items)) s bs t m)
            finish
            (wrapped (λ f. f) list (λ f. map_each (snap f) vs)
              (λ buffers f. decode_each (decode buffers) items) "list" items s s' bs
              (Each-carried torch codec walk snap decode P c vs items s s' bs e k walked)
              (λ buffers f n. refl))

      pub tuple_carried :
          (vs : Values X) (m : Value X) (s t : Packing X) (bs : List (Value X))
          → Each torch P vs
          → Packed torch codec s bs
          → (walk_each walk vs >>= λ items. pure (node "tuple" "items" (list items))) s ≡ (ok m, t)
          → NodeCarried torch json codec decode
              (λ f. Errors.◌>>=◌ (map_each (snap f) vs) λ items. ok (tuple items))
              s
              bs
              t
              m
      unfolding decode_node same
      tuple_carried vs m s t bs e k h =
          let (items, s', walked, finish) =
            bind_inv (walk_each walk vs) (λ items. pure (node "tuple" "items" (list items))) h in
          moved
            (λ m t.
              NodeCarried torch json codec decode
                (λ f. Errors.◌>>=◌ (map_each (snap f) vs) λ items. ok (tuple items)) s bs t m)
            finish
            (wrapped (λ f. f) tuple (λ f. map_each (snap f) vs)
              (λ buffers f. decode_each (decode buffers) items) "tuple" items s s' bs
              (Each-carried torch codec walk snap decode P c vs items s s' bs e k walked)
              (λ buffers f n. refl))

      pub dict_carried :
          Fixes torch codec walk snap decode P
          → (d : Entries X) (m : Value X) (s t : Packing X) (bs : List (Value X))
          → Keyed torch P end d
          → Packed torch codec s bs
          → (walk_items walk d >>= λ items. pure (node "dict" "items" (list items))) s ≡ (ok m, t)
          → NodeCarried torch json codec decode
              (λ f. Errors.◌>>=◌ (map_items torch (snap f) d end) λ d. ok (dict d))
              s
              bs
              t
              m
      unfolding decode_node same
      dict_carried fix d m s t bs e k h =
          let (items, s', walked, finish) =
            bind_inv (walk_items walk d) (λ items. pure (node "dict" "items" (list items))) h in
          moved
            (λ m t.
              NodeCarried torch json codec decode
                (λ f. Errors.◌>>=◌ (map_items torch (snap f) d end) λ d. ok (dict d)) s bs t m)
            finish
            (wrapped (λ f. (f, end, λ j. refl)) dict (λ i. map_items torch (snap i.0) d i.1)
              (λ buffers i. decode_items torch (decode buffers) items i.1) "dict" items s s' bs
              (items_carried torch codec walk snap decode P c fix d end items s s' bs e k walked)
              (λ buffers f n. refl))
