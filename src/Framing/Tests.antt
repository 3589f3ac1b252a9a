-- ===== src/Framing/Tests.antt =====
-- The serializer with a small codec, whose values are metadata and one buffer.
use freethreaded_dataplane.Common.{ℕ, ◌≡◌, ◌<◌, ◌↔◌, inr, refl, List, [], ◌∷◌, length, arith}
use freethreaded_dataplane.Errors.{ok, err, serialization_error}
use freethreaded_dataplane.Framing.{Codec, Packet, failed, join, dumps, loads, frame, unframe}
use freethreaded_dataplane.Framing.Header.{
  AreBytes, length_limit, same_bytes, pack_header, unpack_header, big_endian,
}
use freethreaded_dataplane.Framing.Frames.{layout}
use freethreaded_dataplane.Framing.Serializer.{loads_iff, dumps_iff, only_serialization_errors}

abbrev packet_of : List ℕ × List ℕ → Packet
packet_of (m, raw) = record {
  metadata = m;
  tensor_bytes = raw ∷ [];
  total_tensor_bytes = length raw;
}

abbrev pairs : Codec (List ℕ × List ℕ)
pairs = record { encode = λ v. ok (packet_of v); decode = λ m raw. ok (m, raw) }

abbrev small : List ℕ × List ℕ
small = (1 ∷ 255 ∷ [], 7 ∷ [])

abbrev framed : List ℕ
framed = 78 ∷ 68 ∷ 82 ∷ 80 ∷ 1 ∷ 0 ∷ 0 ∷ 0 ∷ 0 ∷ 0 ∷ 0 ∷ 0 ∷ 2 ∷ 1 ∷ 255 ∷ 7 ∷ []

framed-AreBytes : AreBytes framed
framed-AreBytes = ground arith

small_written : dumps pairs small ≡ ok framed
unfolding dumps frame join pack_header big_endian
small_written = refl

truncated_refused : loads pairs [] ≡ err (failed "domain RPC payload is truncated")
unfolding loads unframe
truncated_refused = refl

version_refused :
    loads pairs (78 ∷ 68 ∷ 82 ∷ 80 ∷ 20 ∷ 0 ∷ 0 ∷ 0 ∷ 0 ∷ 0 ∷ 0 ∷ 0 ∷ 0 ∷ [])
    ≡ err (failed "domain RPC schema version 20 != 1")
unfolding loads unframe unpack_header same_bytes
version_refused = refl

loads_iff_example : (loads pairs framed ≡ ok small) ↔ (
    (m : List ℕ) × (raw : List ℕ) × (length m < length_limit)
    × (framed ≡ layout m raw)
    × (pairs.decode m raw ≡ ok small))
loads_iff_example = loads_iff pairs framed small framed-AreBytes

dumps_iff_example : (dumps pairs small ≡ ok framed) ↔ (
    (p : Packet) × (pairs.encode small ≡ ok p)
    × (length (join p.tensor_bytes) ≡ p.total_tensor_bytes)
    × (length p.metadata < length_limit)
    × (framed ≡ layout p.metadata (join p.tensor_bytes)))
dumps_iff_example = dumps_iff pairs small framed

only_serialization_errors_example :
    (failed "domain RPC payload is truncated").kind ≡ serialization_error
only_serialization_errors_example =
    only_serialization_errors pairs small [] (failed "domain RPC payload is truncated")
      (inr truncated_refused)
