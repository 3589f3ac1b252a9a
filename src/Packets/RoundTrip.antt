-- ===== src/Packets/RoundTrip.antt =====
-- `DomainPacketCodec` as a whole: `decode` of what `encode` gave.
use mathlib.Core.Path.{ap₂}
use mathlib.Core.List.{append-nil}
use freethreaded_dataplane.Common.{
  ℕ, suc, ◌≤◌, ◌≡◌, refl, ap, subst, ◌∙◌, true, not, ◌||◌, List, [], length, ltb, ◌==◌, arith,
  Bool-cases, inl, inr,
}
use freethreaded_dataplane.Errors
use freethreaded_dataplane.Errors.{Exception, Result, ok, err}
use freethreaded_dataplane.Python.{Value, values, get_or_null, equals_nat}
use freethreaded_dataplane.Facade.Session.{as_dict}
use freethreaded_dataplane.Framing.{Packet, join}
use freethreaded_dataplane.Packets.Torch.{Torch, JsonText, IsTorch}
use freethreaded_dataplane.Packets.Registry.{
  PacketCodec, IsRegistry, max_metadata_bytes, max_tensor_bytes, max_tensor_count, max_tree_depth,
}
use freethreaded_dataplane.Packets.Encode.{
  Packing, invalid, unpacked, envelope, envelope_fields, packet_of, encode, encode_walk,
}
use freethreaded_dataplane.Packets.Descriptors.{Reading, read_table, size}
use freethreaded_dataplane.Packets.Decode.{decode_walk, decode_envelope, decode}
use freethreaded_dataplane.Packets.MapTensors.{snapshot}
use freethreaded_dataplane.Packets.Plain.{IsJsonText, is_plain, all_plain}
use freethreaded_dataplane.Packets.Table.{start, unpacked-Packed}
use freethreaded_dataplane.Packets.Buffers.{size-values}
use freethreaded_dataplane.Packets.Walk.{IsWellKeyed, walk_carried}

module _ {X : Type 0} (torch : Torch X) (json : JsonText X) (codec : PacketCodec X) where
  packet_inv :
      (root : Value X) (t : Packing X) (p : Packet)
      → packet_of torch json codec root t ≡ ok p
      → (length p.metadata ≤ max_metadata_bytes codec)
        × (p.metadata ≡ json.dumps (envelope root t.descriptors))
        × (p.tensor_bytes ≡ t.chunks)
        × (p.total_tensor_bytes ≡ t.offset)
  packet_inv root t p h =
      let written = json.dumps (envelope root t.descriptors) in
      elim (Bool-cases (ltb (max_metadata_bytes codec) (length written))) [
        | inl over ↦ ground arith
        | inr fits ↦
            let made : Packet = record {
              metadata = written;
              tensor_bytes = t.chunks;
              total_tensor_bytes = t.offset;
            } in
            let same_packet : made ≡ p = ground arith in
            let small : length written ≤ max_metadata_bytes codec = ground arith in
            subst
              (λ p.
                (length p.metadata ≤ max_metadata_bytes codec)
                × (p.metadata ≡ written)
                × (p.tensor_bytes ≡ t.chunks)
                × (p.total_tensor_bytes ≡ t.offset))
              same_packet (small, refl, refl, refl)
      ]

  -- What `encode` did when it did not raise.
  pub encode_inv :
      (v : Value X) (p : Packet)
      → encode torch json codec v ≡ ok p
      → (root : Value X) × (t : Packing X) × (encode_walk torch codec
            (suc (max_tree_depth codec))
            v
            unpacked
          ≡ (ok root, t))
        × (length p.metadata ≤ max_metadata_bytes codec)
        × (p.metadata ≡ json.dumps (envelope root t.descriptors))
        × (p.tensor_bytes ≡ t.chunks)
        × (p.total_tensor_bytes ≡ t.offset)
  unfolding encode
  encode_inv v p h =
      let walked = encode_walk torch codec (suc (max_tree_depth codec)) v unpacked in
      let (root, walk_ok, h') =
        Errors.bind-eq-ok walked.0 (λ r. packet_of torch json codec r walked.1) h in
      let (small, written, chunked, counted) = packet_inv root walked.1 p h' in
      (root, walked.1, ap (λ r. (r, walked.1)) walk_ok, small, written, chunked, counted)

  envelope_plain :
      (root : Value X) (ds : List (Value X))
      → is_plain root ≡ true
      → all_plain (values ds) ≡ true
      → is_plain (envelope root ds) ≡ true
  unfolding is_plain
  envelope_plain root ds h e = ground (arith, h, e)

  -- A table that is read to the end, and a root that is read with its buffers.
  envelope_decoded :
      (root v : Value X) (ds : List (Value X)) (raw : List ℕ) (buffers : List (Value X)) (n end : ℕ)
      → length ds ≤ max_tensor_count codec
      → end ≡ length raw
      → read_table torch codec raw (values ds) start
        ≡ (ok tt, record { previous_end = end; buffers = buffers })
      → decode_walk torch json codec buffers (suc (max_tree_depth codec)) root 0 ≡ (ok v, n)
      → decode_envelope torch json codec (envelope_fields root ds) raw ≡ ok v
  unfolding decode_envelope
  envelope_decoded root v ds raw buffers n end few whole table walked =
      let finish : Result (Unit {0}) × Reading X → Result (Value X) = λ r. Errors.◌>>◌ r.0 (
        Errors.◌>>◌
          (Errors.raise_if (not (r.1.previous_end == length raw))
            (invalid "tensor region contains unreferenced bytes"))
          (decode_walk torch json codec r.1.buffers (suc (max_tree_depth codec)) root 0).0) in
      Errors.guard_ok (ltb (max_tensor_count codec) (size (values ds)))
        (invalid "invalid tensor descriptor table")
        (finish (read_table torch codec raw (values ds) start))
        (ground (arith, few, size-values ds))
      ∙ ap finish table
      ∙ Errors.guard_ok (not (end == length raw))
          (invalid "tensor region contains unreferenced bytes")
          ((decode_walk torch json codec buffers (suc (max_tree_depth codec)) root 0).0)
          (ground (arith, whole))
      ∙ ap (λ r. r.0) walked

  decoded :
      (root v : Value X) (ds : List (Value X)) (raw : List ℕ)
      → IsJsonText json
      → is_plain root ≡ true
      → all_plain (values ds) ≡ true
      → length (json.dumps (envelope root ds)) ≤ max_metadata_bytes codec
      → length raw ≤ max_tensor_bytes codec
      → decode_envelope torch json codec (envelope_fields root ds) raw ≡ ok v
      → decode torch json codec (json.dumps (envelope root ds)) raw ≡ ok v
  unfolding decode
  decoded root v ds raw text plain all small few h =
      let metadata = json.dumps (envelope root ds) in
      let schema : Value X → Result (Value X) = λ loaded.
        Errors.◌>>=◌ (Errors.or_raise (as_dict loaded) (invalid "invalid codec schema")) λ e.
          Errors.◌>>◌
            (Errors.raise_if (not (equals_nat (get_or_null "schema" e) 1))
              (invalid "invalid codec schema"))
            (decode_envelope torch json codec e raw) in
      Errors.guard_ok
        (ltb (max_metadata_bytes codec) (length metadata)
          || ltb (max_tensor_bytes codec) (length raw))
        (invalid "packet exceeds configured limits")
        (Errors.◌>>=◌
          (Errors.or_raise (json.loads metadata) (invalid "metadata is not valid UTF-8 JSON"))
          schema)
        (ground (arith, small, few))
      ∙ Errors.found_ok (json.loads metadata) (invalid "metadata is not valid UTF-8 JSON") schema
          (text.reads_back (envelope root ds) (envelope_plain root ds plain all))
      ∙ h

  pub decode-encode :
      IsTorch torch
      → IsJsonText json
      → IsRegistry codec
      → (v v' : Value X) (p : Packet) (f : ℕ)
      → IsWellKeyed torch codec (suc (max_tree_depth codec)) v
      → encode torch json codec v ≡ ok p
      → snapshot torch codec f v ≡ ok v'
      → decode torch json codec p.metadata (join p.tensor_bytes) ≡ ok v'
  decode-encode law text registry v v' p f keyed h snap =
      let (root, t, walked, small, written, chunked, counted) = encode_inv v p h in
      let c =
        walk_carried torch json codec law registry (suc (max_tree_depth codec)) v root unpacked t []
          keyed (unpacked-Packed torch codec) walked in
      let raw = join t.chunks in
      let table : read_table torch codec raw (values t.descriptors) start
          ≡ (ok tt, record { previous_end = t.offset; buffers = c.table }) =
        subst
          (λ r.
            read_table torch codec r (values t.descriptors) start
            ≡ (ok tt, record { previous_end = t.offset; buffers = c.table }))
          (append-nil raw) (c.packed.table []) in
      let whole =
        envelope_decoded root v' t.descriptors raw c.table t.elements t.offset c.packed.few
          c.packed.sized table (c.decodes c.table f v' (λ i b g. g) snap) in
      let fits : length (json.dumps (envelope root t.descriptors)) ≤ max_metadata_bytes codec =
        subst (λ m. length m ≤ max_metadata_bytes codec) written small in
      let bounded : length raw ≤ max_tensor_bytes codec =
        subst (λ n. n ≤ max_tensor_bytes codec) c.packed.sized c.packed.small in
      ap₂ (λ m b. decode torch json codec m (join b)) written chunked
      ∙ decoded root v' t.descriptors raw text c.is_plain_json c.packed.described fits bounded whole
