-- ===== src/Packets/Total.antt =====
-- Snapshots of what `encode` accepts, and the depth that they need.
use freethreaded_dataplane.Common.{
  ℕ, zero, suc, ◌+◌, ltb, ◌≡◌, refl, ◌∙◌, Bool, true, false, some, if◌then◌else◌,
}
use freethreaded_dataplane.Common.Dict.{lookup}
use freethreaded_dataplane.Errors
use freethreaded_dataplane.Errors.{
  Exception, Result, ok, err, exception, type_error, attribute_error,
}
use freethreaded_dataplane.Exec.{pure, bind_inv, guard_inv}
use freethreaded_dataplane.Python.{
  Value, Entries, null, bool, int, float, str, bytes, placeholder, list, tuple, dict, object, end,
}
use freethreaded_dataplane.Facade.Session.{as_dict}
use freethreaded_dataplane.Framing.{Packet, join}
use freethreaded_dataplane.Packets.Torch.{Torch, JsonText, IsTorch}
use freethreaded_dataplane.Packets.Registry.{
  TypeAdapter, PacketCodec, IsRegistry, max_container_elements, max_tree_depth,
}
use freethreaded_dataplane.Packets.Encode.{
  Packing, unpacked, node, walk_each, walk_items, encode_node, encode_walk, encode_tensor,
  encode_custom, encode,
}
use freethreaded_dataplane.Packets.Decode.{decode}
use freethreaded_dataplane.Packets.MapTensors.{
  map_each, map_fields, map_items, map_custom, map_node, snapshot,
}
use freethreaded_dataplane.Packets.Plain.{IsJsonText}
use freethreaded_dataplane.Packets.Custom.{Fields, custom_inv}
use freethreaded_dataplane.Packets.Depth.{fields-Under, deeper-Under}
use freethreaded_dataplane.Packets.Walk.{IsWellKeyed, snapshot_fixes}
use freethreaded_dataplane.Packets.RoundTrip.{encode_inv, decode-encode}
use freethreaded_dataplane.Packets.Taking.{fields_of_items, Each-taken, items_taken, Taken}

module _ {X : Type 0} (torch : Torch X) (json : JsonText X) (codec : PacketCodec X) where
  -- Every registered adapter builds an object of the snapshots of fields that it gave.
  abbrev pub Rebuilds : Type 0
  Rebuilds =
      (x : X) (a : TypeAdapter X) (d e : Entries X) (f : ℕ)
      → lookup (torch.class_of x) codec.by_type ≡ some a
      → a.encode_fields x ≡ ok (dict d)
      → map_fields (snapshot torch codec f) d ≡ ok e
      → (y : Value X) × (a.decode_fields e ≡ ok y)

  -- The walk and the snapshot at one depth.
  abbrev DepthTaken : ℕ → Type 0
  DepthTaken depth =
      Taken torch (encode_walk torch codec depth) (snapshot torch codec depth)
        (IsWellKeyed torch codec depth)

  module _ (rebuilds : Rebuilds) where
    fields_mapped :
        (depth : ℕ) (d : Entries X) (m : Value X) (s t : Packing X)
        → DepthTaken depth
        → IsWellKeyed torch codec depth (dict d)
        → encode_walk torch codec depth (dict d) s ≡ (ok m, t)
        → (mapped : Entries X) × (map_fields (snapshot torch codec depth) d ≡ ok mapped)
    unfolding encode_walk snapshot
    fields_mapped zero d m s t c e h = cc
    fields_mapped (suc depth) d m s t c e h =
        let (w, taken) = c (dict d) m s t e h in
        let (items, mapped, finish) =
          Errors.bind-eq-ok (map_items torch (snapshot torch codec depth) d end)
            (λ items. ok (dict items)) taken in
        let (fields, below) =
          fields_of_items torch (snapshot torch codec depth) d end items mapped in
        (
          fields,
          fields-Under (snapshot torch codec depth) (snapshot torch codec (suc depth))
              (deeper-Under torch codec depth) d fields below,
        )

    custom_taken :
        (depth : ℕ) (x : X) (m : Value X) (s t : Packing X)
        → DepthTaken depth
        → Fields torch codec (IsWellKeyed torch codec depth) x
        → encode_custom torch codec (encode_walk torch codec depth) x s ≡ (ok m, t)
        → (w : Value X) × (map_custom torch codec (snapshot torch codec depth) x ≡ ok w)
    unfolding map_custom
    custom_taken depth x m s t c good h =
        let go = snapshot torch codec depth in
        let (a, d, walked, found, encoded, texts, went, same_node) =
          custom_inv torch codec (encode_walk torch codec depth) x m s t h in
        let (fields, mapped) = fields_mapped depth d walked s t c (good a d found encoded).0 went in
        let (w, built) = rebuilds x a d fields depth found encoded mapped in
        let of_fields : Value X → Result (Value X) = λ v.
          Errors.◌>>=◌
            (Errors.or_raise (as_dict v)
              (exception attribute_error "object has no attribute 'items'"))
            λ d. Errors.◌>>=◌ (map_fields go d) a.decode_fields in
        (
          w,
          Errors.found_ok (lookup (torch.class_of x) codec.by_type) _ _ found
              ∙ Errors.bind-ok (a.encode_fields x) of_fields encoded
              ∙ Errors.bind-ok (map_fields go d) a.decode_fields mapped
              ∙ built,
        )

    object_taken :
        (depth : ℕ) (x : X) (m : Value X) (s t : Packing X) (b : Bool)
        → DepthTaken depth
        → (b ≡ false → Fields torch codec (IsWellKeyed torch codec depth) x)
        → (if b
              then encode_tensor torch codec x
              else encode_custom torch codec (encode_walk torch codec depth) x)
            s
          ≡ (ok m, t)
        → (w : Value X) × ((if b
              then ok (object (torch.snapshot x))
              else map_custom torch codec (snapshot torch codec depth) x)
            ≡ ok w)
    object_taken depth x m s t true c good h = (object (torch.snapshot x), refl)
    object_taken depth x m s t false c good h = custom_taken depth x m s t c (good refl) h

    node_taken :
        (depth : ℕ) (v m : Value X) (s t : Packing X)
        → DepthTaken depth
        → IsWellKeyed torch codec (suc depth) v
        → encode_node torch codec (encode_walk torch codec depth) v s ≡ (ok m, t)
        → (w : Value X) × (map_node torch codec
              (λ x. ok (object (torch.snapshot x)))
              (snapshot torch codec depth)
              v
            ≡ ok w)
    unfolding encode_node map_node IsWellKeyed
    node_taken depth (list vs) m s t c e h =
        let go = snapshot torch codec depth in
        let walk = encode_walk torch codec depth in
        let (items, s', walked, finish) =
          bind_inv (walk_each walk vs) (λ items. pure (node "list" "items" (list items))) h in
        let (ws, mapped) =
          Each-taken torch walk go (IsWellKeyed torch codec depth) c vs items s s' e walked in
        (list ws, Errors.bind-ok (map_each go vs) (λ ws. ok (list ws)) mapped)
    node_taken depth (tuple vs) m s t c e h =
        let go = snapshot torch codec depth in
        let walk = encode_walk torch codec depth in
        let (items, s', walked, finish) =
          bind_inv (walk_each walk vs) (λ items. pure (node "tuple" "items" (list items))) h in
        let (ws, mapped) =
          Each-taken torch walk go (IsWellKeyed torch codec depth) c vs items s s' e walked in
        (tuple ws, Errors.bind-ok (map_each go vs) (λ ws. ok (tuple ws)) mapped)
    node_taken depth (dict d) m s t c e h =
        let go = snapshot torch codec depth in
        let walk = encode_walk torch codec depth in
        let (items, s', walked, finish) =
          bind_inv (walk_items walk d) (λ items. pure (node "dict" "items" (list items))) h in
        let (w, mapped) =
          items_taken torch walk go (IsWellKeyed torch codec depth) c
            (λ k w scalar kept. snapshot_fixes torch json codec depth depth k w scalar kept) d end
            end items s s' e walked in
        (dict w, Errors.bind-ok (map_items torch go d end) (λ w. ok (dict w)) mapped)
    node_taken depth (object x) m s t c e h = object_taken depth x m s t (torch.is_tensor x) c e h
    node_taken depth null m s t c e h = (null, refl)
    node_taken depth (bool b) m s t c e h = (bool b, refl)
    node_taken depth (int z) m s t c e h = (int z, refl)
    node_taken depth (float x) m s t c e h = (float x, refl)
    node_taken depth (str x) m s t c e h = (str x, refl)
    node_taken depth (bytes x) m s t c e h = (bytes x, refl)
    node_taken depth (placeholder x) m s t c e h = (placeholder x, refl)

    walk_taken : (depth : ℕ) → DepthTaken depth
    unfolding encode_walk snapshot
    walk_taken zero v m s t e h = cc
    walk_taken (suc depth) v m s t e h =
        let (room, h') =
          guard_inv (ltb (max_container_elements codec) (s.elements + 1)) _
            (λ u. encode_node torch codec (encode_walk torch codec depth) v) h in
        node_taken depth v m (record s { elements = s.elements + 1 }) t (walk_taken depth) e h'

    -- What `encode` accepts is decoded to a snapshot, and the snapshot needs no more depth than the limit
    -- for the tree. This is for a torch and a JSON that do as they document, a codec whose tables of
    -- adapters agree, adapters that build objects of the snapshots of fields that they gave, and a value
    -- whose dictionaries have distinct scalar keys.
    pub accepted_decodes :
        IsTorch torch
        → IsJsonText json
        → IsRegistry codec
        → (v : Value X) (p : Packet) → IsWellKeyed torch codec (suc (max_tree_depth codec)) v
        → encode torch json codec v ≡ ok p
        → (w : Value X) × (snapshot torch codec (suc (max_tree_depth codec)) v ≡ ok w)
          × (decode torch json codec p.metadata (join p.tensor_bytes) ≡ ok w)
    accepted_decodes law text registry v p keyed h =
        let depth = suc (max_tree_depth codec) in
        let (root, t, walked, small, written, chunked, counted) =
          encode_inv torch json codec v p h in
        let (w, taken) = walk_taken depth v root unpacked t keyed walked in
        (w, taken, decode-encode torch json codec law text registry v w p depth keyed h taken)
