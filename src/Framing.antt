-- ===== src/Framing.antt =====
-- nogil_data_plane/rpc_serializer.py: `DomainRpcSerializer`, which frames the metadata and the raw
-- buffers that the packet codec gives. `Header` has the 13 bytes of the header.
pub mod Header
pub mod Frames
pub mod Serializer
mod Tests
use freethreaded_dataplane.Common.{
  ℕ, ◌+◌, ◌≡◌, Bool, true, false, not, List, [], ◌∷◌, ◌++◌, String, length, take, drop, ltb, ◌==◌,
}
use freethreaded_dataplane.Common.Text.{◌<>◌}
use freethreaded_dataplane.Errors.{
  Exception, ErrorKind, Result, ok, err, exception, serialization_error, ◌>>=◌, ◌>>◌, raise_if,
}
use freethreaded_dataplane.Framing.Header.{
  header_size, schema_version, magic, same_bytes, pack_header, unpack_header, decimal,
}

-- The encoded packet of `DomainPacketCodec`.
pub record Packet : Type 0 where
  pub metadata : List ℕ
  pub tensor_bytes : List (List ℕ)
  pub total_tensor_bytes : ℕ

-- What the serializer calls of its codec.
pub record Codec (V : Type 0) : Type 0 where
  pub encode : V → Result Packet
  pub decode : List ℕ → List ℕ → Result V

abbrev pub failed : String → Exception
failed = exception serialization_error

-- An exception of the given kind, which is passed on or replaced.
abbrev pub renamed : ErrorKind → String → Exception → Exception
renamed serialization_error during exc = exc
renamed _ during exc = failed (during <> exc.message)

-- The `except` clauses of `dumps` and `loads`: a `SerializationError` passes, another exception
-- becomes one.
abbrev pub as_serialization_error : {A : Type 0} → String → Result A → Result A
as_serialization_error during (ok v) = ok v
as_serialization_error during (err exc) = err (renamed exc.kind during exc)

abbrev pub encoding : String
encoding = "failed to encode domain RPC payload: "

abbrev pub decoding : String
decoding = "failed to decode domain RPC payload: "

-- `b"".join(buffers)`
unfoldable pub join : List (List ℕ) → List ℕ
join [] = []
join (buffer ∷ buffers) = buffer ++ join buffers

module _ {V : Type 0} (codec : Codec V) where
  -- The `try` of `dumps`.
  unfoldable pub frame : V → Result (List ℕ)
  unfolding join pack_header
  frame value = do
    packet ← codec.encode value
    let raw = join packet.tensor_bytes
    raise_if (not (length raw == packet.total_tensor_bytes))
        (failed "domain codec reported an invalid raw length")
    header ← pack_header (length packet.metadata)
    ok (header ++ (packet.metadata ++ raw))

  unfoldable pub dumps : V → Result (List ℕ)
  unfolding frame
  dumps value = as_serialization_error encoding (frame value)

  -- The `try` of `loads`.
  unfoldable pub unframe : List ℕ → Result V
  unfolding unpack_header same_bytes
  unframe payload = do
    raise_if (ltb (length payload) header_size) (failed "domain RPC payload is truncated")
    let (start, version, metadata_length) = unpack_header payload
    raise_if (not (same_bytes start magic)) (failed "invalid domain RPC payload magic")
    raise_if (not (version == schema_version))
        (failed ("domain RPC schema version " <> decimal version <> " != 1"))
    let metadata_end = header_size + metadata_length
    raise_if (ltb (length payload) metadata_end)
        (failed "domain RPC metadata length exceeds payload")
    codec.decode (take metadata_length (drop header_size payload)) (drop metadata_end payload)

  unfoldable pub loads : List ℕ → Result V
  unfolding unframe
  loads payload = as_serialization_error decoding (unframe payload)
