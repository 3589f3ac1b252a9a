-- ===== src/Packets/Encode.antt =====
-- `DomainPacketCodec.encode`. Its `walk` counts down the depth that is left below the limit, and is
-- past the limit at zero.
use Prim.Native.String.{len}
use freethreaded_dataplane.Common.{
  ℕ, zero, suc, ◌+◌, ◌-◌, ◌*◌, ◌^◌, ◌/◌, ◌%◌, Bool, true, false, not, ◌&&◌, ◌||◌, List, [], ◌∷◌,
  ◌++◌, String, length, ltb, leb, ◌==◌, if◌then◌else◌, map,
}
use freethreaded_dataplane.Common.Int.{ℤ, pos, negsuc, ltb_ℤ, leb_ℤ}
use freethreaded_dataplane.Common.Text.{◌<>◌, same}
use freethreaded_dataplane.Common.Dict.{lookup}
use freethreaded_dataplane.Common.Members.{member}
use freethreaded_dataplane.Errors
use freethreaded_dataplane.Errors.{Exception, Result, ok, err, exception, invalid_object}
use freethreaded_dataplane.Exec.{
  Action, pure, raise, gets, modify, raise_if, of_result, or_raise, ◌>>=◌, ◌>>◌,
}
use freethreaded_dataplane.Python.{
  Value, Values, Entries, null, bool, int, float, str, bytes, placeholder, list, tuple, dict,
  object, nil, cons, end, entry, values, fields,
}
use freethreaded_dataplane.Facade.Session.{as_dict}
use freethreaded_dataplane.Framing.{Packet}
use freethreaded_dataplane.Packets.Torch.{Torch, JsonText, dtype_names, product}
use freethreaded_dataplane.Packets.Registry.{
  TypeAdapter, PacketCodec, max_metadata_bytes, max_tensor_bytes, max_tensor_count, max_tree_depth,
  max_container_elements, max_tensor_rank, max_tensor_elements, max_string_bytes,
}

-- The variables that `walk` shares.
pub record Packing (X : Type 0) : Type 0 where
  pub descriptors : List (Value X)
  pub chunks : List (List ℕ)
  pub offset : ℕ
  pub elements : ℕ

abbrev pub invalid : String → Exception
invalid = exception invalid_object

-- `-(2**63) <= z < 2**63`
abbrev pub is_int64 : ℤ → Bool
is_int64 z = leb_ℤ (negsuc (2 ^ 63 - 1)) z && ltb_ℤ z (pos (2 ^ 63))

-- `math.isfinite(x)` of a float by its bits.
abbrev pub is_finite : ℕ → Bool
is_finite bits = not (bits / 2 ^ 52 % 2048 == 2047)

module _ {X : Type 0} where
  -- `{"kind": kind}` and `{"kind": kind, key: value}`
  abbrev pub kind_only : String → Value X
  kind_only kind = dict (fields (("kind", str kind) ∷ []))

  abbrev pub node : String → String → Value X → Value X
  node kind key value = dict (fields (("kind", str kind) ∷ (key, value) ∷ []))

  abbrev pub pair : Value X → Value X → Value X
  pair k v = list (cons k (cons v nil))

  abbrev pub count : ℕ → Value X
  count n = int (pos n)

  abbrev pub bytes_descriptor : ℕ → ℕ → Value X
  bytes_descriptor offset nbytes =
      dict
        (fields (("kind", str "bytes") ∷ ("offset", count offset) ∷ ("nbytes", count nbytes) ∷ []))

  abbrev pub tensor_descriptor : String → List ℕ → ℕ → ℕ → ℕ → Value X
  tensor_descriptor dtype shape offset nbytes numel = dict (
      fields (
        ("kind", str "tensor")
        ∷ ("dtype", str dtype)
        ∷ ("shape", list (values (map count shape)))
        ∷ ("offset", count offset)
        ∷ ("nbytes", count nbytes)
        ∷ ("numel", count numel)
        ∷ []))

  -- `all(isinstance(k, str) for k in fields)`
  unfoldable pub all_text_keys : Entries X → Bool
  all_text_keys end = true
  all_text_keys (entry (str k) v d) = all_text_keys d
  all_text_keys (entry _ v d) = false

  -- The loops over the items of a container, with `walk` at the depth below.
  unfoldable pub walk_each :
      (Value X → Action (Packing X) (Value X)) → Values X → Action (Packing X) (Values X)
  walk_each walk nil = pure nil
  walk_each walk (cons v vs) = do item ← walk v; items ← walk_each walk vs; pure (cons item items)

  unfoldable pub walk_items :
      (Value X → Action (Packing X) (Value X)) → Entries X → Action (Packing X) (Values X)
  walk_items walk end = pure nil
  walk_items walk (entry k v d) = do
    key ← walk k
    value ← walk v
    items ← walk_items walk d
    pure (cons (pair key value) items)

module _ {X : Type 0} (torch : Torch X) (codec : PacketCodec X) where
  -- A raw buffer with its descriptor, which is told the buffer's offset; its index is the result.
  unfoldable pub store : String → String → (ℕ → Value X) → List ℕ → ℕ → Action (Packing X) ℕ
  store too_large too_many descriptor chunk nbytes = do
    offset ← gets (λ p. p.offset)
    raise_if (ltb (max_tensor_bytes codec) (offset + nbytes)) (invalid too_large)
    index ← gets (λ p. length p.descriptors)
    raise_if (leb (max_tensor_count codec) index) (invalid too_many)
    modify (λ p. record p {
      descriptors = p.descriptors ++ (descriptor offset ∷ []);
      chunks = p.chunks ++ (chunk ∷ []);
      offset = p.offset + nbytes;
    })
    pure index

  unfoldable pub encode_bytes : List ℕ → Action (Packing X) (Value X)
  unfolding store
  encode_bytes obj = do
    index ←
        store "raw region exceeds configured limit" "too many raw buffers"
          (λ offset. bytes_descriptor offset (length obj)) obj (length obj)
    pure (node "bytes" "index" (count index))

  unfoldable pub encode_tensor : X → Action (Packing X) (Value X)
  unfolding store same
  encode_tensor obj = do
    raise_if
        (not (same (torch.layout obj) "torch.strided")
          || not (member (torch.dtype obj) dtype_names))
        (invalid
          ("unsupported tensor layout/dtype: " <> torch.layout obj <> "/torch." <> torch.dtype obj))
    raise_if
        (ltb (max_tensor_rank codec) (length (torch.shape obj))
          || ltb (max_tensor_elements codec) (product (torch.shape obj)))
        (invalid "tensor shape exceeds configured limits")
    let snapshot = torch.snapshot obj
    let numel = product (torch.shape snapshot)
    let nbytes = numel * torch.element_size (torch.dtype snapshot)
    index ←
        store "tensor region exceeds configured limit" "too many tensors"
          (λ offset.
            tensor_descriptor (torch.dtype snapshot) (torch.shape snapshot) offset nbytes numel)
          (torch.raw_bytes snapshot) nbytes
    pure (node "tensor" "index" (count index))

  -- The fields of an object with an adapter.
  unfoldable pub fields_of : TypeAdapter X → X → Result (Value X)
  fields_of adapter obj = Errors.◌>>=◌ (adapter.encode_fields obj) λ value.
      Errors.◌>>=◌
        (Errors.or_raise (as_dict value) (invalid "adapter fields must be a string-keyed dict"))
        λ d.
          Errors.◌>>◌
            (Errors.raise_if (not (all_text_keys d))
              (invalid "adapter fields must be a string-keyed dict"))
            (ok value)

  unfoldable pub encode_custom :
      (Value X → Action (Packing X) (Value X)) → X → Action (Packing X) (Value X)
  unfolding fields_of
  encode_custom walk obj = do
    adapter ←
        or_raise (lookup (torch.class_of obj) codec.by_type)
          (invalid ("unsupported value type: " <> torch.class_of obj))
    field_values ← of_result (fields_of adapter obj)
    walked ← walk field_values
    pure (
        dict (fields (("kind", str "custom") ∷ ("tag", str adapter.tag) ∷ ("fields", walked) ∷ [])))

  -- A text in a node, if it is short enough in UTF-8.
  abbrev pub encode_text : String → String → String → String → Action (Packing X) (Value X)
  encode_text kind key s too_long = do
    raise_if (ltb (max_string_bytes codec) (len s)) (invalid too_long)
    pure (node kind key (str s))

  -- `walk` past its guards, by the type of the object.
  unfoldable pub encode_node :
      (Value X → Action (Packing X) (Value X)) → Value X → Action (Packing X) (Value X)
  unfolding encode_bytes encode_tensor encode_custom walk_each walk_items
  encode_node walk null = pure (kind_only "none")
  encode_node walk (bool b) = pure (node "bool" "value" (bool b))
  encode_node walk (int z) = do
    raise_if (not (is_int64 z)) (invalid "integer is outside signed 64-bit range")
    pure (node "int" "value" (int z))
  encode_node walk (float bits) = do
    raise_if (not (is_finite bits)) (invalid "non-finite floats are unsupported")
    pure (node "float" "value" (float bits))
  encode_node walk (str s) = encode_text "str" "value" s "string exceeds configured limit"
  encode_node walk (bytes obj) = encode_bytes obj
  encode_node walk (placeholder s) =
      encode_text "value_error_placeholder" "message" s
        "placeholder message exceeds configured limit"
  encode_node walk (list vs) = do items ← walk_each walk vs; pure (node "list" "items" (list items))
  encode_node walk (tuple vs) = do
    items ← walk_each walk vs
    pure (node "tuple" "items" (list items))
  encode_node walk (dict d) = do items ← walk_items walk d; pure (node "dict" "items" (list items))
  encode_node walk (object x) = if torch.is_tensor x then encode_tensor x else encode_custom walk x

  unfoldable pub encode_walk : ℕ → Value X → Action (Packing X) (Value X)
  encode_walk zero obj = raise (invalid "object tree is too deep")
  encode_walk (suc depth) obj = do
    modify (λ p. record p { elements = p.elements + 1 })
    elements ← gets (λ p. p.elements)
    raise_if (ltb (max_container_elements codec) elements)
        (invalid "object tree has too many elements")
    encode_node (encode_walk depth) obj

abbrev pub unpacked : {X : Type 0} → Packing X
unpacked = record { descriptors = []; chunks = []; offset = 0; elements = 0 }

-- `{"schema": 1, "root": root, "tensors": descriptors}`
abbrev pub envelope_fields : {X : Type 0} → Value X → List (Value X) → Entries X
envelope_fields root descriptors =
    fields (("schema", count 1) ∷ ("root", root) ∷ ("tensors", list (values descriptors)) ∷ [])

abbrev pub envelope : {X : Type 0} → Value X → List (Value X) → Value X
envelope root descriptors = dict (envelope_fields root descriptors)

module _ {X : Type 0} (torch : Torch X) (json : JsonText X) (codec : PacketCodec X) where
  -- `encode`, after its walk.
  abbrev pub packet_of : Value X → Packing X → Result Packet
  packet_of root p =
      let metadata = json.dumps (envelope root p.descriptors) in
      if ltb (max_metadata_bytes codec) (length metadata)
      then err (invalid "encoded metadata exceeds configured limit")
      else ok
          (record { metadata = metadata; tensor_bytes = p.chunks; total_tensor_bytes = p.offset })

  unfoldable pub encode : Value X → Result Packet
  unfolding encode_walk
  encode value =
      let (root, p) = encode_walk torch codec (suc (max_tree_depth codec)) value unpacked in
      Errors.◌>>=◌ root (λ r. packet_of r p)
