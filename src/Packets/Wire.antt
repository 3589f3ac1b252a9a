-- ===== src/Packets/Wire.antt =====
-- nogil_data_plane/rpc_serializer.py with a `DomainPacketCodec` as its codec: a payload from the object
-- to the bytes of its frame and back.
use freethreaded_dataplane.Common.{ℕ, suc, ◌<◌, ◌≡◌, refl, sym, arith}
use freethreaded_dataplane.Errors.{ok}
use freethreaded_dataplane.Python.{Value}
use freethreaded_dataplane.Framing.{Codec, Packet, dumps, loads, join}
use freethreaded_dataplane.Framing.Header.{length_limit}
use freethreaded_dataplane.Framing.Frames.{layout}
use freethreaded_dataplane.Framing.Serializer.{dumps_iff, loads_written}
use freethreaded_dataplane.Packets.Torch.{Torch, JsonText, IsTorch}
use freethreaded_dataplane.Packets.Registry.{
  PacketCodec, IsRegistry, max_metadata_bytes, max_tree_depth,
}
use freethreaded_dataplane.Packets.Encode.{encode}
use freethreaded_dataplane.Packets.Decode.{decode}
use freethreaded_dataplane.Packets.MapTensors.{snapshot}
use freethreaded_dataplane.Packets.Plain.{IsJsonText}
use freethreaded_dataplane.Packets.Walk.{IsWellKeyed}
use freethreaded_dataplane.Packets.RoundTrip.{decode-encode}
use freethreaded_dataplane.Packets.Bounds.{encode_bounds}

module _ {X : Type 0} (torch : Torch X) (json : JsonText X) (codec : PacketCodec X) where
  -- `DomainRpcSerializer(codec)`'s codec.
  abbrev pub payload_codec : Codec (Value X)
  payload_codec = record { encode = encode torch json codec; decode = decode torch json codec }

  -- The serializer writes every packet of the codec: the buffers have the length that the packet says,
  -- and the metadata is within a limit below 2 ^ 64 bytes. What it writes is loaded as a snapshot of the
  -- value, for a torch and a JSON that do as they document, a codec whose tables of adapters agree, and a
  -- value whose dictionaries have distinct scalar keys.
  pub payload_round_trip :
      IsTorch torch
      → IsJsonText json
      → IsRegistry codec
      → max_metadata_bytes codec < length_limit
      → (v v' : Value X) (p : Packet) (f : ℕ)
      → IsWellKeyed torch codec (suc (max_tree_depth codec)) v
      → encode torch json codec v ≡ ok p
      → snapshot torch codec f v ≡ ok v'
      → (dumps payload_codec v ≡ ok (layout p.metadata (join p.tensor_bytes)))
        × (loads payload_codec (layout p.metadata (join p.tensor_bytes)) ≡ ok v')
  payload_round_trip law text registry limited v v' p f keyed h snap =
      let (counted, small, few, short) = encode_bounds torch codec law json v p h in
      let bytes = layout p.metadata (join p.tensor_bytes) in
      let written : dumps payload_codec v ≡ ok bytes =
        (dumps_iff payload_codec v bytes).1
          (p, h, sym counted, omega (arith, short, limited), refl) in
      (
        written,
        loads_written payload_codec v v' bytes
            (λ q e. decode-encode torch json codec law text registry v v' q f keyed e snap) written,
      )
