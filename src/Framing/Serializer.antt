-- ===== src/Framing/Serializer.antt =====
-- What `DomainRpcSerializer` writes and reads, against the description of the frame.
use mathlib.Core.Path.{ap₂}
use freethreaded_dataplane.Common.{
  ℕ, ◌+◌, ◌≡◌, ◌<◌, ◌↔◌, ◌⊎◌, inl, inr, refl, sym, ap, subst, ◌∙◌, true, List, ◌++◌, String, length,
  take, drop, ltb, ◌==◌, arith, drop_add, take-append, drop-append, Bool-cases,
}
use freethreaded_dataplane.Common.Text.{◌<>◌}
use freethreaded_dataplane.Errors.{
  Exception, ErrorKind, Result, ok, err, serialization_error, Result-cases,
}
use freethreaded_dataplane.Framing.{
  Codec, Packet, renamed, as_serialization_error, failed, join, dumps, frame, loads, unframe,
  encoding, decoding,
}
use freethreaded_dataplane.Framing.Header.{
  header_size, schema_version, magic, length_limit, same_bytes, same_bytes_lem, pack_header,
  unpack_header, big_endian, length-big_endian, AreBytes, first, read, decimal,
}
use freethreaded_dataplane.Framing.Frames.{
  layout, HasHeader, header_parts, layout-HasHeader, count_bounded, length-metadata, is_layout,
}

ok_injective : {A : Type 0} {a b : A} → ok a ≡ ok b → a ≡ b
ok_injective h = cc

renamed_kind :
    (k : ErrorKind) (during : String) (exc : Exception)
    → k ≡ exc.kind
    → (renamed k during exc).kind ≡ serialization_error
renamed_kind serialization_error during exc h = sym h
renamed_kind _ during exc h = refl

raised_kind :
    {A : Type 0} (during : String) (r : Result A) (e : Exception)
    → as_serialization_error during r ≡ err e
    → e.kind ≡ serialization_error
raised_kind during (ok a) e h = cc
raised_kind during (err exc) e h =
    let same : renamed exc.kind during exc ≡ e = cc in
    ap (λ x. x.kind) (sym same) ∙ renamed_kind exc.kind during exc refl

passes :
    {A : Type 0} (during : String) (r : Result A) (a : A)
    → as_serialization_error during r ≡ ok a
    → r ≡ ok a
passes during (ok b) a h = h
passes during (err e) a h = cc

module _ {V : Type 0} (codec : Codec V) where
  unframe_accepts :
      (payload : List ℕ) (n : ℕ)
      → HasHeader payload n
      → unframe codec payload
        ≡ codec.decode (take n (drop header_size payload)) (drop (header_size + n) payload)
  unfolding unframe unpack_header same_bytes
  unframe_accepts payload n h =
      let ours : same_bytes (take 4 payload) magic ≡ true =
        ap (λ start. same_bytes start magic) h.start in
      ground (arith, h.long, h.version, h.count, h.complete)

  unframe_cases :
      (payload : List ℕ)
      → ((n : ℕ) × HasHeader payload n) ⊎ ((m : String) × (unframe codec payload ≡ err (failed m)))
  unfolding unframe unpack_header
  unframe_cases payload =
      let n = read 0 (take 8 (drop 5 payload)) in
      elim (Bool-cases (ltb (length payload) header_size)) [
        | inl short ↦ inr ("domain RPC payload is truncated", ground arith)
        | inr long ↦ elim (Bool-cases (same_bytes (take 4 payload) magic)) [
          | inr foreign ↦ inr ("invalid domain RPC payload magic", ground arith)
          | inl ours ↦ elim (Bool-cases (first (drop 4 payload) == schema_version)) [
            | inr other ↦
                let version = first (drop 4 payload) in
                inr ("domain RPC schema version " <> decimal version <> " != 1", ground arith)
            | inl current ↦ elim (Bool-cases (ltb (length payload) (header_size + n))) [
              | inl cut ↦ inr ("domain RPC metadata length exceeds payload", ground arith)
              | inr complete ↦ inl (
                n,
                record {
                  long = ground arith;
                  start = same_bytes_lem (take 4 payload) magic ours;
                  version = ground arith;
                  count = refl;
                  complete = ground arith;
                },
              )
            ]
          ]
        ]
      ]

  unframe-layout :
      (m raw : List ℕ) → length m < length_limit → unframe codec (layout m raw) ≡ codec.decode m raw
  unframe-layout m raw h =
      let width = length-big_endian 8 (length m) in
      let rest = (header_parts (big_endian 8 (length m)) (m ++ raw) width).1 in
      let metadata : take (length m) (drop header_size (layout m raw)) ≡ m =
        ap (take (length m)) rest ∙ take-append m raw in
      let buffers : drop (header_size + length m) (layout m raw) ≡ raw =
        drop_add header_size (length m) (layout m raw)
        ∙ ap (drop (length m)) rest
        ∙ drop-append m raw in
      unframe_accepts (layout m raw) (length m) (layout-HasHeader m raw h)
      ∙ ap₂ codec.decode metadata buffers

  -- A payload of bytes is read as a value exactly if it is a frame, with less than 2 ^ 64 bytes of
  -- metadata, whose metadata and raw bytes the codec decodes to that value.
  pub loads_iff :
      (payload : List ℕ) (v : V)
      → AreBytes payload
      → (loads codec payload ≡ ok v) ↔ (
          (m : List ℕ) × (raw : List ℕ) × (length m < length_limit)
          × (payload ≡ layout m raw)
          × (codec.decode m raw ≡ ok v))
  unfolding loads
  loads_iff payload v b = (
    λ e. elim (unframe_cases payload) [
      | inl (n, h) ↦ (
        take n (drop header_size payload),
        drop (header_size + n) payload,
        subst (λ k. k < length_limit) (sym (length-metadata payload n b h))
            (count_bounded payload n b h),
        is_layout payload n b h,
        sym (unframe_accepts payload n h) ∙ passes decoding (unframe codec payload) v e,
      )
      | inr (m, h) ↦ cc
    ],
    λ (m, raw, short, framed, decoded).
        ap (as_serialization_error decoding)
          (ap (unframe codec) framed ∙ unframe-layout m raw short ∙ decoded),
  )

  frame_packet :
      (v : V) (p : Packet)
      → codec.encode v ≡ ok p
      → length (join p.tensor_bytes) ≡ p.total_tensor_bytes
      → length p.metadata < length_limit
      → frame codec v ≡ ok (layout p.metadata (join p.tensor_bytes))
  unfolding frame pack_header
  frame_packet v p e size short = ground arith

  frame_cases :
      (v : V) (bytes : List ℕ)
      → frame codec v ≡ ok bytes
      → (p : Packet) × (codec.encode v ≡ ok p)
        × (length (join p.tensor_bytes) ≡ p.total_tensor_bytes)
        × (length p.metadata < length_limit)
  unfolding frame pack_header
  frame_cases v bytes h = elim (Result-cases (codec.encode v)) [
    | inr (exc, e) ↦ ground arith
    | inl (p, e) ↦ elim (Bool-cases (length (join p.tensor_bytes) == p.total_tensor_bytes)) [
      | inr wrong ↦ ground arith
      | inl right ↦ elim (Bool-cases (ltb (length p.metadata) length_limit)) [
        | inl short ↦ (p, e, ground arith, ground arith)
        | inr long ↦ ground arith
      ]
    ]
  ]

  -- A value is written exactly if the codec encodes it to a packet whose buffers have the length
  -- that it reports and whose metadata is shorter than 2 ^ 64 bytes, and what is written is the
  -- frame of the two.
  pub dumps_iff :
      (v : V) (bytes : List ℕ)
      → (dumps codec v ≡ ok bytes) ↔ (
          (p : Packet) × (codec.encode v ≡ ok p)
          × (length (join p.tensor_bytes) ≡ p.total_tensor_bytes)
          × (length p.metadata < length_limit)
          × (bytes ≡ layout p.metadata (join p.tensor_bytes)))
  unfolding dumps
  dumps_iff v bytes = (
    λ h.
        let written = passes encoding (frame codec v) bytes h in
        let (p, e, size, short) = frame_cases v bytes written in
        let same_frame = frame_packet v p e size short in
        (p, e, size, short, ok_injective (sym written ∙ same_frame)),
    λ (p, e, size, short, framed).
        ap (as_serialization_error encoding) (frame_packet v p e size short ∙ ap ok (sym framed)),
  )

  -- What was written is read as what the codec decodes its packet to.
  pub loads_written :
      (v w : V) (bytes : List ℕ)
      → ((p : Packet)
          → codec.encode v ≡ ok p
          → codec.decode p.metadata (join p.tensor_bytes) ≡ ok w)
      → dumps codec v ≡ ok bytes
      → loads codec bytes ≡ ok w
  unfolding loads
  loads_written v w bytes decodes h =
      let (p, e, size, short, framed) = (dumps_iff v bytes).0 h in
      ap (λ r. as_serialization_error decoding (unframe codec r)) framed
      ∙ ap (as_serialization_error decoding)
          (unframe-layout p.metadata (join p.tensor_bytes) short ∙ decodes p e)

  -- Whatever the codec raises, only a `SerializationError` leaves `dumps` and `loads`.
  pub only_serialization_errors :
      (v : V) (bytes : List ℕ) (e : Exception)
      → ((dumps codec v ≡ err e) ⊎ (loads codec bytes ≡ err e))
      → e.kind ≡ serialization_error
  unfolding dumps loads
  only_serialization_errors v bytes e (inl h) = raised_kind encoding (frame codec v) e h
  only_serialization_errors v bytes e (inr h) = raised_kind decoding (unframe codec bytes) e h
