-- ===== src/Packets/MapTensors.antt =====
-- `DomainPacketCodec.map_tensors` and `snapshot`. The number is how deep Python still lets them
-- recurse; past that it raises a `RecursionError`.
use freethreaded_dataplane.Common.{ℕ, zero, suc, not, if◌then◌else◌}
use freethreaded_dataplane.Common.Text.{◌<>◌}
use freethreaded_dataplane.Common.Dict.{lookup}
use freethreaded_dataplane.Errors.{
  Result, ok, err, exception, attribute_error, type_error, foreign, ◌>>=◌, ◌>>◌, raise_if, or_raise,
}
use freethreaded_dataplane.Python.{
  Value, Values, Entries, list, tuple, dict, object, nil, cons, end, entry,
}
use freethreaded_dataplane.Library.{hashable}
use freethreaded_dataplane.Facade.Session.{as_dict}
use freethreaded_dataplane.Packets.Torch.{Torch}
use freethreaded_dataplane.Packets.Registry.{PacketCodec}
use freethreaded_dataplane.Packets.Keys.{put}
use freethreaded_dataplane.Packets.Encode.{invalid}

module _ {X : Type 0} where
  unfoldable pub map_each : (Value X → Result (Value X)) → Values X → Result (Values X)
  map_each go nil = ok nil
  map_each go (cons v vs) = do item ← go v; items ← map_each go vs; ok (cons item items)

  -- `{k: go(v) for k, v in d.items()}`
  unfoldable pub map_fields : (Value X → Result (Value X)) → Entries X → Result (Entries X)
  map_fields go end = ok end
  map_fields go (entry k v d) = do value ← go v; rest ← map_fields go d; ok (entry k value rest)

module _ {X : Type 0} (torch : Torch X) where
  -- `{go(k): go(v) for k, v in d.items()}`, with the dictionary so far.
  unfoldable pub map_items :
      (Value X → Result (Value X)) → Entries X → Entries X → Result (Entries X)
  unfolding put hashable
  map_items go end result = ok result
  map_items go (entry k v d) result = do
    key ← go k
    value ← go v
    raise_if (not (hashable torch.is_hashable key)) (exception type_error "unhashable type")
    map_items go d (put torch result key value)

module _ {X : Type 0} (torch : Torch X) (codec : PacketCodec X) where
  -- An object that is no tensor, by its adapter.
  unfoldable pub map_custom : (Value X → Result (Value X)) → X → Result (Value X)
  unfolding map_fields
  map_custom go x = do
    adapter ←
        or_raise (lookup (torch.class_of x) codec.by_type)
          (invalid ("unsupported value type: " <> torch.class_of x))
    encoded ← adapter.encode_fields x
    d ← or_raise (as_dict encoded) (exception attribute_error "object has no attribute 'items'")
    mapped ← map_fields go d
    adapter.decode_fields mapped

  unfoldable pub map_node :
      (X → Result (Value X)) → (Value X → Result (Value X)) → Value X → Result (Value X)
  unfolding map_each map_items map_custom
  map_node transform go (list vs) = do items ← map_each go vs; ok (list items)
  map_node transform go (tuple vs) = do items ← map_each go vs; ok (tuple items)
  map_node transform go (dict d) = do items ← map_items torch go d end; ok (dict items)
  map_node transform go (object x) = if torch.is_tensor x then transform x else map_custom go x
  map_node transform go v = ok v

  unfoldable pub map_tensors : (X → Result (Value X)) → ℕ → Value X → Result (Value X)
  unfolding map_node
  map_tensors transform zero v =
      err (exception (foreign "RecursionError") "maximum recursion depth exceeded")
  map_tensors transform (suc depth) v = map_node transform (map_tensors transform depth) v

  -- `snapshot`
  unfoldable pub snapshot : ℕ → Value X → Result (Value X)
  unfolding map_tensors
  snapshot depth v = map_tensors (λ x. ok (object (torch.snapshot x))) depth v
