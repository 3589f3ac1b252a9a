-- ===== src/Packets/Bounds.antt =====
-- The limits of a packet: what every step of `walk` in `encode` keeps.
use freethreaded_dataplane.Common.{
  ℕ, zero, suc, ◌+◌, ◌≤◌, ◌≡◌, refl, sym, ap, subst, ◌∙◌, Bool, true, false, not, List, [], ◌∷◌,
  String, length, arith, if◌then◌else◌, ltb, length-append,
}
use freethreaded_dataplane.Errors.{Exception, ok}
use freethreaded_dataplane.Exec.{Action, pure, raise_if, ◌>>=◌, bind_inv, guard_inv}
use freethreaded_dataplane.Python.{
  Value, Values, Entries, null, bool, int, float, str, bytes, placeholder, list, tuple, dict,
  object, nil, cons, end, entry,
}
use freethreaded_dataplane.Framing.{Packet, join}
use freethreaded_dataplane.Packets.Torch.{Torch, JsonText, IsTorch, product}
use freethreaded_dataplane.Packets.Registry.{
  PacketCodec, max_metadata_bytes, max_tensor_bytes, max_tensor_count, max_container_elements,
  max_tree_depth, max_string_bytes,
}
use freethreaded_dataplane.Packets.Encode.{
  Packing, unpacked, encode, encode_walk, encode_node, encode_bytes, encode_tensor, encode_custom,
  walk_each, walk_items, store, kind_only, is_int64, is_finite, node, pair, count,
  tensor_descriptor, bytes_descriptor,
}
use freethreaded_dataplane.Packets.Table.{stored, store_inv, join-append}
use freethreaded_dataplane.Packets.BufferNodes.{tensor_inv}
use freethreaded_dataplane.Packets.Custom.{custom_inv}
use freethreaded_dataplane.Packets.RoundTrip.{encode_inv}
use Prim.Native.String.{len}

-- An action that keeps a predicate of the state where it does not raise.
abbrev Keeps : {S A : Type 0} → (S → Type 0) → Action S A → Type 0
Keeps {S} {A} I m = (s t : S) (a : A) → I s → m s ≡ (ok a, t) → I t

module _ {S : Type 0} (I : S → Type 0) where
  Keeps-pure : {A : Type 0} (a : A) → Keeps I (pure a)
  Keeps-pure a s t b h e = let same_state : s ≡ t = cc in subst I same_state h

  Keeps-bind :
      {A B : Type 0} (m : Action S A) (f : A → Action S B)
      → Keeps I m
      → ((a : A) → Keeps I (f a))
      → Keeps I (m >>= f)
  Keeps-bind m f h k s t b i e =
      let (a, s', first, later) = bind_inv m f e in k a s' t b (h s s' a i first) later

  Keeps-guard :
      {B : Type 0} (c : Bool) (e : Exception) (f : Unit {0} → Action S B)
      → Keeps I (f tt)
      → Keeps I (raise_if c e >>= f)
  Keeps-guard c e f h s t b i g = h s t b i (guard_inv c e f g).1

  Keeps-checked :
      {A : Type 0} (c : Bool) (e : Exception) (a : A) → Keeps I (raise_if c e >>= λ u. pure a)
  Keeps-checked c e a = Keeps-guard c e (λ u. pure a) (Keeps-pure a)

module _ {X : Type 0} (torch : Torch X) (codec : PacketCodec X) where
  -- The offset counts the bytes of the chunks, each of which has a descriptor, within the limits.
  pub record IsWithin (p : Packing X) : Type 0 where
    pub sized : p.offset ≡ length (join p.chunks)
    pub paired : length p.descriptors ≡ length p.chunks
    pub small : p.offset ≤ max_tensor_bytes codec
    pub few : length p.descriptors ≤ max_tensor_count codec
    pub counted : p.elements ≤ max_container_elements codec

  stored-IsWithin :
      (p : Packing X) (descriptor : ℕ → Value X) (chunk : List ℕ)
      → IsWithin p
      → p.offset + length chunk ≤ max_tensor_bytes codec
      → length p.descriptors + 1 ≤ max_tensor_count codec
      → IsWithin (stored torch codec p descriptor chunk (length chunk))
  unfolding stored
  stored-IsWithin p descriptor chunk i fits room = record {
    sized = omega (
      arith,
      i.sized,
      ap length (join-append p.chunks chunk),
      length-append (join p.chunks) chunk,
    );
    paired = omega (
      arith,
      i.paired,
      length-append p.descriptors (descriptor p.offset ∷ []),
      length-append p.chunks (chunk ∷ []),
    );
    small = fits;
    few = omega (arith, room, length-append p.descriptors (descriptor p.offset ∷ []));
    counted = i.counted;
  }

  Keeps-store :
      (large many : String) (descriptor : ℕ → Value X) (chunk : List ℕ) (kind : String)
      → Keeps IsWithin (
          store torch codec large many descriptor chunk (length chunk) >>= λ index.
          pure (node {X = X} kind "index" (count index)))
  Keeps-store large many descriptor chunk kind =
      Keeps-bind IsWithin (store torch codec large many descriptor chunk (length chunk)) _
        (λ s t index i h.
          let (same_index, same_state, fits, room) =
            store_inv torch codec large many descriptor chunk (length chunk) index s t h in
          subst IsWithin (sym same_state) (stored-IsWithin s descriptor chunk i fits room))
        λ index. Keeps-pure IsWithin (node {X = X} kind "index" (count index))

  module _ (law : IsTorch torch) where
    Keeps-bytes : (obj : List ℕ) → Keeps IsWithin (encode_bytes torch codec obj)
    unfolding encode_bytes
    Keeps-bytes obj =
        Keeps-store "raw region exceeds configured limit" "too many raw buffers"
          (λ offset. bytes_descriptor offset (length obj)) obj "bytes"

    Keeps-tensor : (x : X) → torch.is_tensor x ≡ true → Keeps IsWithin (encode_tensor torch codec x)
    Keeps-tensor x is_one s t m i h =
        let snapshot = torch.snapshot x in
        let chunk = torch.raw_bytes snapshot in
        let storing = (tensor_inv torch codec x m s t law is_one h).3 in
        Keeps-store "tensor region exceeds configured limit" "too many tensors"
          (λ offset.
            tensor_descriptor (torch.dtype snapshot) (torch.shape snapshot) offset (length chunk)
              (product (torch.shape snapshot)))
          chunk "tensor" s t m i storing

    module _ (walk : Value X → Action (Packing X) (Value X))
        (k : (v : Value X) → Keeps IsWithin (walk v)) where
      Keeps-each : (vs : Values X) → Keeps IsWithin (walk_each walk vs)
      unfolding walk_each
      Keeps-each nil = Keeps-pure IsWithin nil
      Keeps-each (cons v vs) =
          Keeps-bind IsWithin (walk v)
            (λ item. walk_each walk vs >>= λ items. pure (cons item items)) (k v)
            λ item.
              Keeps-bind IsWithin (walk_each walk vs) (λ items. pure (cons item items))
                (Keeps-each vs) λ items. Keeps-pure IsWithin (cons item items)

      Keeps-items : (d : Entries X) → Keeps IsWithin (walk_items walk d)
      unfolding walk_items
      Keeps-items end = Keeps-pure IsWithin nil
      Keeps-items (entry key v d) =
          let finish : Value X → Value X → Action (Packing X) (Values X) =
            λ key value. walk_items walk d >>= λ items. pure (cons (pair key value) items) in
          Keeps-bind IsWithin (walk key) (λ key. walk v >>= finish key) (k key)
            λ key. Keeps-bind IsWithin (walk v) (finish key) (k v) λ value.
              Keeps-bind IsWithin (walk_items walk d) (λ items. pure (cons (pair key value) items))
                (Keeps-items d) λ items. Keeps-pure IsWithin (cons (pair key value) items)

      Keeps-custom : (x : X) → Keeps IsWithin (encode_custom torch codec walk x)
      Keeps-custom x s t m i h =
          let (a, d, walked, found, encoded, texts, went, same_node) =
            custom_inv torch codec walk x m s t h in
          k (dict d) s t walked i went

      Keeps-object :
          (x : X) (b : Bool)
          → torch.is_tensor x ≡ b
          → Keeps IsWithin
              (if b then encode_tensor torch codec x else encode_custom torch codec walk x)
      Keeps-object x true is_one = Keeps-tensor x is_one
      Keeps-object x false is_none = Keeps-custom x

      Keeps-node : (v : Value X) → Keeps IsWithin (encode_node torch codec walk v)
      unfolding encode_node
      Keeps-node null = Keeps-pure IsWithin (kind_only "none")
      Keeps-node (bool b) = Keeps-pure IsWithin (node "bool" "value" (bool b))
      Keeps-node (int z) = Keeps-checked IsWithin (not (is_int64 z)) _ (node "int" "value" (int z))
      Keeps-node (float x) =
          Keeps-checked IsWithin (not (is_finite x)) _ (node "float" "value" (float x))
      Keeps-node (str s) =
          Keeps-checked IsWithin (ltb (max_string_bytes codec) (len s)) _
            (node "str" "value" (str s))
      Keeps-node (bytes b) = Keeps-bytes b
      Keeps-node (placeholder s) =
          Keeps-checked IsWithin (ltb (max_string_bytes codec) (len s)) _
            (node "value_error_placeholder" "message" (str s))
      Keeps-node (list vs) =
          Keeps-bind IsWithin (walk_each walk vs) (λ items. pure (node "list" "items" (list items)))
            (Keeps-each vs) λ items. Keeps-pure IsWithin (node "list" "items" (list items))
      Keeps-node (tuple vs) =
          Keeps-bind IsWithin (walk_each walk vs)
            (λ items. pure (node "tuple" "items" (list items))) (Keeps-each vs)
            λ items. Keeps-pure IsWithin (node "tuple" "items" (list items))
      Keeps-node (dict d) =
          Keeps-bind IsWithin (walk_items walk d) (λ items. pure (node "dict" "items" (list items)))
            (Keeps-items d) λ items. Keeps-pure IsWithin (node "dict" "items" (list items))
      Keeps-node (object x) = Keeps-object x (torch.is_tensor x) refl

    Keeps-walk : (depth : ℕ) (v : Value X) → Keeps IsWithin (encode_walk torch codec depth v)
    unfolding encode_walk
    Keeps-walk zero v s t m i h = cc
    Keeps-walk (suc depth) v s t m i h =
        let (room, h') =
          guard_inv (ltb (max_container_elements codec) (s.elements + 1)) _
            (λ u. encode_node torch codec (encode_walk torch codec depth) v) h in
        Keeps-node (encode_walk torch codec depth) (Keeps-walk depth) v
          (record s { elements = s.elements + 1 }) t m
          (record {
            sized = i.sized;
            paired = i.paired;
            small = i.small;
            few = i.few;
            counted = ground (arith, room);
          })
          h'

    unpacked-IsWithin : IsWithin unpacked
    unfolding join
    unpacked-IsWithin = record {
      sized = refl;
      paired = refl;
      small = omega arith;
      few = omega arith;
      counted = omega arith;
    }

    -- A packet that `encode` gives has as many bytes as it says, and it is within the limits of the
    -- metadata, the bytes and the buffers, for a torch whose tensors have as many bytes as their elements
    -- take.
    pub encode_bounds :
        (json : JsonText X) (v : Value X) (p : Packet)
        → encode torch json codec v ≡ ok p
        → (p.total_tensor_bytes ≡ length (join p.tensor_bytes))
          × (p.total_tensor_bytes ≤ max_tensor_bytes codec)
          × (length p.tensor_bytes ≤ max_tensor_count codec)
          × (length p.metadata ≤ max_metadata_bytes codec)
    encode_bounds json v p h =
        let (root, t, walked, small, written, chunked, counted) =
          encode_inv torch json codec v p h in
        let i =
          Keeps-walk (suc (max_tree_depth codec)) v unpacked t root unpacked-IsWithin walked in
        let few : length t.chunks ≤ max_tensor_count codec = omega (arith, i.paired, i.few) in
        (
          counted ∙ i.sized ∙ ap (λ c. length (join c)) (sym chunked),
          subst (λ n. n ≤ max_tensor_bytes codec) (sym counted) i.small,
          subst (λ c. length c ≤ max_tensor_count codec) (sym chunked) few,
          small,
        )
