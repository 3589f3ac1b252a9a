-- ===== src/Packets/Descriptors.antt =====
-- The table of raw buffers in `DomainPacketCodec.decode`.
use freethreaded_dataplane.Common.{
  ℕ, suc, ◌+◌, ◌*◌, Bool, false, not, ◌||◌, Option, none, some, List, [], ◌∷◌, ◌++◌, String, length,
  take, drop, ltb, ◌==◌, if◌then◌else◌,
}
use freethreaded_dataplane.Common.Int.{pos}
use freethreaded_dataplane.Common.Members.{member}
use freethreaded_dataplane.Errors.{exception, type_error}
use freethreaded_dataplane.Exec.{Action, pure, gets, modify, raise_if, or_raise, ◌>>=◌, ◌>>◌}
use freethreaded_dataplane.Python.{
  Value, Values, Entries, int, str, bytes, list, object, nil, cons, get_field, get_or_null,
}
use freethreaded_dataplane.Library.{hashable}
use freethreaded_dataplane.Actor.Methods.{is_text}
use freethreaded_dataplane.Facade.Session.{as_dict}
use freethreaded_dataplane.Packets.Torch.{Torch, dtype_names, product}
use freethreaded_dataplane.Packets.Registry.{PacketCodec, max_tensor_rank, max_tensor_elements}
use freethreaded_dataplane.Packets.Encode.{invalid}

-- The variables of the loop over the descriptors.
pub record Reading (X : Type 0) : Type 0 where
  pub previous_end : ℕ
  pub buffers : List (Value X)

module _ {X : Type 0} where
  -- `type(v) is int and v >= 0`
  abbrev pub as_count : Value X → Option ℕ
  as_count (int (pos n)) = some n
  as_count _ = none

  abbrev pub as_list : Value X → Option (Values X)
  as_list (list vs) = some vs
  as_list _ = none

  -- `all(type(x) is int and x >= 0 for x in shape)`
  unfoldable pub as_shape : Values X → Option (List ℕ)
  as_shape nil = some []
  as_shape (cons v vs) = elim (as_count v) [
    | none ↦ none
    | some n ↦ elim (as_shape vs) [ none ↦ none | some ns ↦ some (n ∷ ns) ]
  ]

  -- `len(vs)`
  unfoldable pub size : Values X → ℕ
  size nil = 0
  size (cons v vs) = suc (size vs)

  -- `desc.get("kind", "tensor")`
  abbrev pub descriptor_kind : Entries X → Value X
  descriptor_kind desc = elim (get_field "kind" desc) [ none ↦ str "tensor" | some v ↦ v ]

  abbrev pub is_dtype : Value X → Bool
  is_dtype (str s) = member s dtype_names
  is_dtype _ = false

  abbrev pub dtype_of : Value X → String
  dtype_of (str s) = s
  dtype_of _ = ""

  -- A descriptor of raw bytes.
  unfoldable pub read_bytes : List ℕ → Entries X → Action (Reading X) (Unit {0})
  read_bytes tensor_bytes desc = do
    let wrong = invalid "invalid bytes descriptor"
    offset ← or_raise (as_count (get_or_null "offset" desc)) wrong
    nbytes ← or_raise (as_count (get_or_null "nbytes" desc)) wrong
    previous_end ← gets (λ r. r.previous_end)
    raise_if (not (offset == previous_end) || ltb (length tensor_bytes) (offset + nbytes)) wrong
    modify (λ r. record {
      previous_end = offset + nbytes;
      buffers = r.buffers ++ (bytes (take nbytes (drop offset tensor_bytes)) ∷ []);
    })

module _ {X : Type 0} (torch : Torch X) (codec : PacketCodec X) where
  -- A descriptor of a tensor whose dtype is known.
  unfoldable pub read_tensor : List ℕ → String → Entries X → Action (Reading X) (Unit {0})
  unfolding as_shape size
  read_tensor tensor_bytes dtype desc = do
    let wrong = invalid "invalid tensor shape or range"
    dimensions ← or_raise (as_list (get_or_null "shape" desc)) wrong
    raise_if (ltb (max_tensor_rank codec) (size dimensions)) wrong
    shape ← or_raise (as_shape dimensions) wrong
    offset ← or_raise (as_count (get_or_null "offset" desc)) wrong
    nbytes ← or_raise (as_count (get_or_null "nbytes" desc)) wrong
    numel ← or_raise (as_count (get_or_null "numel" desc)) wrong
    let calculated = product shape
    let expected = calculated * torch.element_size dtype
    previous_end ← gets (λ r. r.previous_end)
    raise_if
        (not (calculated == numel)
          || not (expected == nbytes)
          || not (offset == previous_end)
          || ltb (length tensor_bytes) (offset + nbytes)
          || ltb (max_tensor_elements codec) numel)
        (invalid "inconsistent or overlapping tensor descriptor")
    let tensor =
        if numel == 0
        then torch.empty dtype shape
        else torch.from_buffer dtype shape (take nbytes (drop offset tensor_bytes))
    modify (λ r. record {
      previous_end = offset + nbytes;
      buffers = r.buffers ++ (object tensor ∷ []);
    })

  -- One descriptor. A list or dictionary as the dtype cannot be looked up in the table.
  unfoldable pub read_descriptor : List ℕ → Value X → Action (Reading X) (Unit {0})
  unfolding read_bytes read_tensor hashable
  read_descriptor tensor_bytes value = do
    desc ← or_raise (as_dict value) (invalid "invalid raw-buffer descriptor")
    let dtype = get_or_null "dtype" desc
    let tensor = do
      raise_if (not (is_text (descriptor_kind desc) "tensor"))
          (invalid "invalid tensor dtype descriptor")
      raise_if (not (hashable torch.is_hashable dtype)) (exception type_error "unhashable type")
      raise_if (not (is_dtype dtype)) (invalid "invalid tensor dtype descriptor")
      read_tensor tensor_bytes (dtype_of dtype) desc
    if is_text (descriptor_kind desc) "bytes" then read_bytes tensor_bytes desc else tensor

  -- The loop over the descriptors.
  unfoldable pub read_table : List ℕ → Values X → Action (Reading X) (Unit {0})
  unfolding read_descriptor
  read_table tensor_bytes nil = pure tt
  read_table tensor_bytes (cons desc descriptors) = do
    read_descriptor tensor_bytes desc
    read_table tensor_bytes descriptors
