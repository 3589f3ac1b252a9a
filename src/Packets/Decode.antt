-- ===== src/Packets/Decode.antt =====
-- `DomainPacketCodec.decode`: the walk of the object tree, which counts down the depth that is left
-- below the limit, and the whole.
use Prim.Native.String.{len}
use freethreaded_dataplane.Common.{
  ℕ, zero, suc, ◌+◌, Bool, not, ◌&&◌, ◌||◌, Option, none, some, List, [], String, length, get_elem?,
  ltb, ◌==◌, if◌then◌else◌,
}
use freethreaded_dataplane.Common.Int.{ℤ}
use freethreaded_dataplane.Common.Text.{◌<>◌, same}
use freethreaded_dataplane.Common.Dict.{lookup}
use freethreaded_dataplane.Errors
use freethreaded_dataplane.Errors.{Exception, Result, ok, err, exception, type_error, foreign}
use freethreaded_dataplane.Exec.{Action, pure, raise, gets, modify, raise_if, or_raise, ◌>>=◌, ◌>>◌}
use freethreaded_dataplane.Python.{
  Value, Values, Entries, null, bool, int, float, str, bytes, placeholder, list, tuple, dict,
  object, nil, cons, end, get_or_null, equals_nat,
}
use freethreaded_dataplane.Library.{hashable}
use freethreaded_dataplane.Types.Read.{as_bool, as_str}
use freethreaded_dataplane.Actor.Methods.{is_text}
use freethreaded_dataplane.Facade.Session.{as_dict}
use freethreaded_dataplane.Packets.Torch.{Torch, JsonText}
use freethreaded_dataplane.Packets.Registry.{
  PacketCodec, max_metadata_bytes, max_tensor_bytes, max_tensor_count, max_tree_depth,
  max_container_elements, max_string_bytes,
}
use freethreaded_dataplane.Packets.Keys.{has_key, append}
use freethreaded_dataplane.Packets.Encode.{invalid, is_int64, is_finite}
use freethreaded_dataplane.Packets.Descriptors.{as_count, as_list, size, read_table}

-- The walk of the tree; the state is the number of elements.
module _ {X : Type 0} where
  unfoldable pub decode_each : (Value X → Action ℕ (Value X)) → Values X → Action ℕ (Values X)
  decode_each walk nil = pure nil
  decode_each walk (cons v vs) = do
    item ← walk v
    items ← decode_each walk vs
    pure (cons item items)

  -- A list of two.
  abbrev pub as_pair : Value X → Option (Value X × Value X)
  as_pair (list (cons k (cons v nil))) = some (k, v)
  as_pair _ = none

  -- The kinds of a node, in the order in which they are tried. A kind that is no text is none.
  abbrev pub is_kind : String → Entries X → Bool
  is_kind kind d = is_text (get_or_null "kind" d) kind

module _ {X : Type 0} (torch : Torch X) where
  -- The loop over the pairs of a dictionary node, with the dictionary so far.
  unfoldable pub decode_items :
      (Value X → Action ℕ (Value X)) → Values X → Entries X → Action ℕ (Entries X)
  unfolding has_key append hashable
  decode_items walk nil result = pure result
  decode_items walk (cons item items) result = do
    (k, v) ← or_raise (as_pair item) (invalid "malformed dictionary entry")
    key ← walk k
    value ← walk v
    raise_if (not (hashable torch.is_hashable key)) (invalid "unhashable dict key")
    raise_if (has_key torch key result) (invalid "duplicate dict key")
    decode_items walk items (append result key value)

module _ {X : Type 0} (torch : Torch X) (json : JsonText X) (codec : PacketCodec X) where
  abbrev pub bad_kind : {A : Type 0} → Entries X → Action ℕ A
  bad_kind d = raise (invalid ("invalid object node kind: " <> torch.repr (get_or_null "kind" d)))

  -- `math.isfinite(v)` and `float(v)` of an int or float.
  unfoldable pub decode_float : Entries X → Value X → Action ℕ (Value X)
  decode_float d (float bits) = if is_finite bits then pure (float bits) else bad_kind d
  decode_float d (int z) = elim (json.float_of z) [
    | none ↦ raise (exception (foreign "OverflowError") "int too large to convert to float")
    | some bits ↦ pure (float bits)
  ]
  decode_float d _ = bad_kind d

  -- A text that is short enough in UTF-8.
  abbrev pub short_text : Value X → Option String
  short_text (str s) = if ltb (max_string_bytes codec) (len s) then none else some s
  short_text _ = none

  abbrev pub small_int : Value X → Option ℤ
  small_int (int z) = if is_int64 z then some z else none
  small_int _ = none

  -- The buffer of a node, which has to be of the node's kind.
  unfoldable pub buffer_of : List (Value X) → Bool → Entries X → Action ℕ (Value X)
  buffer_of buffers wants_tensor d = do
    let mismatch = invalid "object kind does not match raw-buffer descriptor"
    index ←
        or_raise (as_count (get_or_null "index" d))
          (invalid ("invalid object node kind: " <> torch.repr (get_or_null "kind" d)))
    value ←
        or_raise (get_elem? buffers index)
          (invalid ("invalid object node kind: " <> torch.repr (get_or_null "kind" d)))
    elim value [
      | object x ↦ if wants_tensor && torch.is_tensor x then pure (object x) else raise mismatch
      | bytes b ↦ if wants_tensor then raise mismatch else pure (bytes b)
      | _ ↦ raise mismatch
    ]

  -- `{"kind": "custom", ...}`
  unfoldable pub decode_custom : (Value X → Action ℕ (Value X)) → Entries X → Action ℕ (Value X)
  decode_custom walk d = do
    tag ←
        or_raise (as_str (get_or_null "tag" d))
          (invalid ("invalid object node kind: " <> torch.repr (get_or_null "kind" d)))
    adapter ← or_raise (lookup tag codec.by_tag) (invalid ("unregistered custom tag: " <> tag))
    walked ← walk (get_or_null "fields" d)
    field_values ← or_raise (as_dict walked) (invalid "custom fields are not a dict")
    elim (adapter.decode_fields field_values) [
      | ok value ↦ pure value
      | err exc ↦ raise (invalid ("adapter " <> adapter.tag <> " rejected fields"))
    ]

  -- `walk` past its guards.
  unfoldable pub decode_node :
      List (Value X) → (Value X → Action ℕ (Value X)) → Entries X → Action ℕ (Value X)
  unfolding decode_float buffer_of decode_custom decode_each decode_items same
  decode_node buffers walk d =
      let value = get_or_null "value" d in
      let items = as_list (get_or_null "items" d) in
      let tensor_or_bytes = buffer_of buffers (is_kind "tensor" d) d in
      let on_bool : Action ℕ (Value X) = elim (as_bool value) [
        | none ↦ bad_kind d
        | some b ↦ pure (bool b)
      ] in
      let on_int : Action ℕ (Value X) = elim (small_int value) [
        | none ↦ bad_kind d
        | some z ↦ pure (int z)
      ] in
      let on_str : Action ℕ (Value X) = elim (short_text value) [
        | none ↦ bad_kind d
        | some s ↦ pure (str s)
      ] in
      let on_placeholder : Action ℕ (Value X) = elim (short_text (get_or_null "message" d)) [
        | none ↦ bad_kind d
        | some s ↦ pure (placeholder s)
      ] in
      let on_list : Action ℕ (Value X) = elim items [
        | none ↦ bad_kind d
        | some vs ↦ decode_each walk vs >>= λ decoded. pure (list decoded)
      ] in
      let on_tuple : Action ℕ (Value X) = elim items [
        | none ↦ bad_kind d
        | some vs ↦ decode_each walk vs >>= λ decoded. pure (tuple decoded)
      ] in
      let on_dict : Action ℕ (Value X) = elim items [
        | none ↦ bad_kind d
        | some vs ↦ decode_items torch walk vs end >>= λ decoded. pure (dict decoded)
      ] in
      if is_kind "none" d
      then pure null
      else if is_kind "bool" d
      then on_bool
      else if is_kind "int" d
      then on_int
      else if is_kind "float" d
      then decode_float d value
      else if is_kind "str" d
      then on_str
      else if is_kind "tensor" d || is_kind "bytes" d
      then tensor_or_bytes
      else if is_kind "value_error_placeholder" d
      then on_placeholder
      else if is_kind "list" d
      then on_list
      else if is_kind "tuple" d
      then on_tuple
      else if is_kind "dict" d
      then on_dict
      else if is_kind "custom" d
      then decode_custom walk d
      else bad_kind d

  unfoldable pub decode_walk : List (Value X) → ℕ → Value X → Action ℕ (Value X)
  decode_walk buffers zero node = raise (invalid "object tree is too deep")
  decode_walk buffers (suc depth) node = do
    modify (λ elements. elements + 1)
    elements ← gets (λ n. n)
    raise_if (ltb (max_container_elements codec) elements) (invalid "malformed object tree")
    d ← or_raise (as_dict node) (invalid "malformed object tree")
    decode_node buffers (decode_walk buffers depth) d

  -- `decode`, from the envelope on.
  unfoldable pub decode_envelope : Entries X → List ℕ → Result (Value X)
  unfolding read_table decode_walk size
  decode_envelope envelope tensor_bytes =
      Errors.◌>>=◌
        (Errors.or_raise (as_list (get_or_null "tensors" envelope))
          (invalid "invalid tensor descriptor table"))
        λ descriptors.
          Errors.◌>>◌
            (Errors.raise_if (ltb (max_tensor_count codec) (size descriptors))
              (invalid "invalid tensor descriptor table"))
            (let (done, reading) =
                read_table torch codec tensor_bytes descriptors
                  (record { previous_end = 0; buffers = [] }) in
              Errors.◌>>◌ done (
                Errors.◌>>◌
                  (Errors.raise_if (not (reading.previous_end == length tensor_bytes))
                    (invalid "tensor region contains unreferenced bytes"))
                  (decode_walk reading.buffers (suc (max_tree_depth codec))
                    (get_or_null "root" envelope) 0).0))

  unfoldable pub decode : List ℕ → List ℕ → Result (Value X)
  unfolding decode_envelope equals_nat
  decode metadata tensor_bytes =
      Errors.◌>>◌
        (Errors.raise_if
          (ltb (max_metadata_bytes codec) (length metadata)
            || ltb (max_tensor_bytes codec) (length tensor_bytes))
          (invalid "packet exceeds configured limits"))
        (Errors.◌>>=◌
          (Errors.or_raise (json.loads metadata) (invalid "metadata is not valid UTF-8 JSON"))
          λ loaded.
            Errors.◌>>=◌ (Errors.or_raise (as_dict loaded) (invalid "invalid codec schema"))
              λ envelope.
                Errors.◌>>◌
                  (Errors.raise_if (not (equals_nat (get_or_null "schema" envelope) 1))
                    (invalid "invalid codec schema"))
                  (decode_envelope envelope tensor_bytes))
