-- ===== src/Packets/Walk.antt =====
-- The two walks together, depth by depth.
use freethreaded_dataplane.Common.{
  ℕ, zero, suc, ◌+◌, ◌≡◌, refl, ◌∙◌, Bool, true, false, not, List, ltb, arith, if◌then◌else◌,
}
use Prim.Native.String.{len}
use freethreaded_dataplane.Errors.{ok}
use freethreaded_dataplane.Exec.{guard_inv, guard_ok}
use freethreaded_dataplane.Python.{
  Value, null, bool, int, float, str, bytes, placeholder, list, tuple, dict, object, end,
}
use freethreaded_dataplane.Packets.Torch.{Torch, JsonText, IsTorch}
use freethreaded_dataplane.Packets.Registry.{
  PacketCodec, IsRegistry, max_string_bytes, max_container_elements,
}
use freethreaded_dataplane.Packets.Encode.{
  Packing, encode_node, encode_walk, encode_tensor, encode_custom, is_int64, is_finite,
}
use freethreaded_dataplane.Packets.Decode.{decode_walk}
use freethreaded_dataplane.Packets.MapTensors.{map_node, map_custom, snapshot}
use freethreaded_dataplane.Packets.Table.{Packed}
use freethreaded_dataplane.Packets.KeyedItems.{Each, Keyed}
use freethreaded_dataplane.Packets.Containers.{Carried, Fixes}
use freethreaded_dataplane.Packets.BufferNodes.{bytes_carried, tensor_carried}
use freethreaded_dataplane.Packets.Nodes.{
  NodeCarried, opened, guarded_carried, Kept-carried, null-Kept, bool-Kept, int-Kept, float-Kept,
  str-Kept, placeholder-Kept,
}
use freethreaded_dataplane.Packets.Nested.{list_carried, tuple_carried, dict_carried}
use freethreaded_dataplane.Packets.Custom.{Fields, custom_carried}

module _ {X : Type 0} (torch : Torch X) (codec : PacketCodec X) where
  -- Down to a depth, the keys of every dictionary are scalars that differ, those of the fields of
  -- adapters too.
  unfoldable pub IsWellKeyed : ℕ → Value X → Type 0
  IsWellKeyed (suc depth) (list vs) = Each torch (IsWellKeyed depth) vs
  IsWellKeyed (suc depth) (tuple vs) = Each torch (IsWellKeyed depth) vs
  IsWellKeyed (suc depth) (dict d) = Keyed torch (IsWellKeyed depth) end d
  IsWellKeyed (suc depth) (object x) =
      torch.is_tensor x ≡ false → Fields torch codec (IsWellKeyed depth) x
  IsWellKeyed _ _ = Unit {0}

  snapshot_inv :
      (f : ℕ) (v b : Value X)
      → snapshot torch codec f v ≡ ok b
      → (below : ℕ) × (map_node torch codec
            (λ x. ok (object (torch.snapshot x)))
            (snapshot torch codec below)
            v
          ≡ ok b)
  unfolding snapshot
  snapshot_inv zero v b h = cc
  snapshot_inv (suc below) v b h = (below, h)

  -- The number of elements says nothing of the buffers.
  recounted :
      (s : Packing X) (bs : List (Value X)) (n : ℕ)
      → Packed torch codec s bs
      → Packed torch codec (record s { elements = n }) bs
  recounted s bs n k = record {
    sized = k.sized;
    counted = k.counted;
    few = k.few;
    small = k.small;
    described = k.described;
    table = k.table;
  }

module _ {X : Type 0} (torch : Torch X) (json : JsonText X) (codec : PacketCodec X) where
  -- The walks at one depth.
  abbrev pub WalkCarried : ℕ → Type 0
  WalkCarried depth =
      Carried torch codec (encode_walk torch codec depth) (snapshot torch codec)
        (λ buffers. decode_walk torch json codec buffers depth) (IsWellKeyed torch codec depth)

  pub snapshot_fixes :
      (depth : ℕ)
      → Fixes torch codec
          (encode_walk torch codec depth)
          (snapshot torch codec)
          (λ buffers. decode_walk torch json codec buffers depth)
          (IsWellKeyed torch codec depth)
  unfolding snapshot
  snapshot_fixes depth zero k key h e = cc
  snapshot_fixes depth (suc f) null key h e = cc
  snapshot_fixes depth (suc f) (bool b) key h e = cc
  snapshot_fixes depth (suc f) (int z) key h e = cc
  snapshot_fixes depth (suc f) (float x) key h e = cc
  snapshot_fixes depth (suc f) (str s) key h e = cc
  snapshot_fixes depth (suc f) (bytes b) key h e = cc
  snapshot_fixes depth (suc f) _ key h e = cc

  module _ (law : IsTorch torch) (registry : IsRegistry codec) (depth : ℕ)
      (c : WalkCarried depth) where
    object_carried :
        (x : X) (m : Value X) (s t : Packing X) (bs : List (Value X)) (b : Bool)
        → torch.is_tensor x ≡ b
        → (b ≡ false → Fields torch codec (IsWellKeyed torch codec depth) x)
        → Packed torch codec s bs
        → (if b
              then encode_tensor torch codec x
              else encode_custom torch codec (encode_walk torch codec depth) x)
            s
          ≡ (ok m, t)
        → NodeCarried torch json codec
            (λ buffers. decode_walk torch json codec buffers depth)
            (λ f.
              if b
              then ok (object (torch.snapshot x))
              else map_custom torch codec (snapshot torch codec f) x)
            s
            bs
            t
            m
    object_carried x m s t bs true is_one e k h =
        tensor_carried torch json codec _ x m s t bs law is_one k h
    object_carried x m s t bs false is_none e k h =
        custom_carried torch json codec _ (IsWellKeyed torch codec depth)
          (encode_walk torch codec depth) c registry x m s t bs (e refl) k h

    node_carried :
        (v m : Value X) (s t : Packing X) (bs : List (Value X))
        → IsWellKeyed torch codec (suc depth) v
        → Packed torch codec s bs
        → encode_node torch codec (encode_walk torch codec depth) v s ≡ (ok m, t)
        → NodeCarried torch json codec
            (λ buffers. decode_walk torch json codec buffers depth)
            (λ f.
              map_node torch codec (λ x. ok (object (torch.snapshot x))) (snapshot torch codec f) v)
            s
            bs
            t
            m
    unfolding encode_node map_node IsWellKeyed
    node_carried null m s t bs e k h =
        Kept-carried torch json codec _ null _ m s t bs k (null-Kept torch json codec _) h
    node_carried (bool b) m s t bs e k h =
        Kept-carried torch json codec _ (bool b) _ m s t bs k (bool-Kept torch json codec _ b) h
    node_carried (int z) m s t bs e k h =
        guarded_carried torch json codec _ (not (is_int64 z)) _ (int z) _ m s t bs k
          (λ fits. int-Kept torch json codec _ z (ground (arith, fits))) h
    node_carried (float x) m s t bs e k h =
        guarded_carried torch json codec _ (not (is_finite x)) _ (float x) _ m s t bs k
          (λ fits. float-Kept torch json codec _ x (ground (arith, fits))) h
    node_carried (str v) m s t bs e k h =
        guarded_carried torch json codec _ (ltb (max_string_bytes codec) (len v)) _ (str v) _ m s t
          bs k (str-Kept torch json codec _ v) h
    node_carried (bytes b) m s t bs e k h = bytes_carried torch json codec _ b m s t bs k h
    node_carried (placeholder v) m s t bs e k h =
        guarded_carried torch json codec _ (ltb (max_string_bytes codec) (len v)) _ (placeholder v)
          _ m s t bs k (placeholder-Kept torch json codec _ v) h
    node_carried (list vs) m s t bs e k h =
        list_carried torch json codec _ (encode_walk torch codec depth) (snapshot torch codec)
          (IsWellKeyed torch codec depth) c vs m s t bs e k h
    node_carried (tuple vs) m s t bs e k h =
        tuple_carried torch json codec _ (encode_walk torch codec depth) (snapshot torch codec)
          (IsWellKeyed torch codec depth) c vs m s t bs e k h
    node_carried (dict d) m s t bs e k h =
        dict_carried torch json codec _ (encode_walk torch codec depth) (snapshot torch codec)
          (IsWellKeyed torch codec depth) c (snapshot_fixes depth) d m s t bs e k h
    node_carried (object x) m s t bs e k h =
        object_carried x m s t bs (torch.is_tensor x) refl e k h

    -- `walk` at the depth above.
    opened_deeper :
        (buffers : List (Value X)) (m : Value X) (n : ℕ)
        → ltb (max_container_elements codec) (n + 1) ≡ false
        → decode_walk torch json codec buffers (suc depth) m n
          ≡ opened torch json codec buffers (decode_walk torch json codec buffers depth) m (n + 1)
    unfolding decode_walk
    opened_deeper buffers m n room =
        guard_ok (ltb (max_container_elements codec) (n + 1)) _
          (λ u. opened torch json codec buffers (decode_walk torch json codec buffers depth) m) room

    deeper : WalkCarried (suc depth)
    unfolding encode_walk snapshot
    deeper v m s t bs e k h =
        let (room, h') =
          guard_inv (ltb (max_container_elements codec) (s.elements + 1)) _
            (λ u. encode_node torch codec (encode_walk torch codec depth) v) h in
        let counted : Packing X = record s { elements = s.elements + 1 } in
        let inner =
          node_carried v m counted t bs e (recounted torch codec s bs (s.elements + 1) k) h' in
        record {
          table = inner.table;
          grows = inner.grows;
          packed = inner.packed;
          decodes = λ buffers f b x g.
              let (below, mapped) = snapshot_inv torch codec f v b g in
              opened_deeper buffers m s.elements room ∙ inner.decodes buffers below b x mapped;
          is_plain_json = inner.is_plain_json;
        }

  pub walk_carried : IsTorch torch → IsRegistry codec → (depth : ℕ) → WalkCarried depth
  unfolding encode_walk
  walk_carried law registry zero v m s t bs e k h = cc
  walk_carried law registry (suc depth) v m s t bs e k h =
      deeper law registry depth (walk_carried law registry depth) v m s t bs e k h
