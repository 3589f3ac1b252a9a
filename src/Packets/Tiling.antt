-- ===== src/Packets/Tiling.antt =====
-- How the raw buffers that `decode` accepts lie in their region.
use freethreaded_dataplane.Common.{
  ℕ, suc, ◌+◌, ◌≤◌, ◌≡◌, ap, subst, ◌∙◌, not, ◌||◌, some, List, length, ltb, ◌==◌, arith,
}
use freethreaded_dataplane.Errors
use freethreaded_dataplane.Errors.{Exception, Result, ok, err, exception, type_error}
use freethreaded_dataplane.Exec.{bind_inv}
use freethreaded_dataplane.Python.{
  Value, Values, Entries, list, dict, nil, cons, get_or_null, equals_nat,
}
use freethreaded_dataplane.Facade.Session.{as_dict}
use freethreaded_dataplane.Packets.Torch.{Torch, JsonText}
use freethreaded_dataplane.Packets.Registry.{
  PacketCodec, max_tensor_bytes, max_tensor_count, max_metadata_bytes, max_tree_depth,
}
use freethreaded_dataplane.Packets.Encode.{invalid}
use freethreaded_dataplane.Packets.Descriptors.{Reading, as_list, size, read_descriptor, read_table}
use freethreaded_dataplane.Packets.Decode.{decode_envelope, decode_walk, decode}
use freethreaded_dataplane.Packets.Table.{start}
use freethreaded_dataplane.Packets.Spans.{ran, as_dict_inv, as_list_inv, descriptor_inv, Spans}

module _ {X : Type 0} where
  -- Descriptors of spans that follow each other, from an offset to an end.
  abbrev pub Tiles : Values X → ℕ → ℕ → Type 0
  Tiles nil offset end = offset ≡ end
  Tiles (cons desc descriptors) offset end =
      (n : ℕ) × Spans desc offset n × Tiles descriptors (offset + n) end

module _ {X : Type 0} (torch : Torch X) (codec : PacketCodec X) where
  table-Tiles :
      (raw : List ℕ) (ds : Values X) (s r : Reading X)
      → read_table torch codec raw ds s ≡ (ok tt, r)
      → Tiles ds s.previous_end r.previous_end
  unfolding read_table
  table-Tiles raw nil s r h = let same_state : s ≡ r = cc in ap (λ r. r.previous_end) same_state
  table-Tiles raw (cons desc ds) s r h =
      let (u, s', first, later) =
        bind_inv (read_descriptor torch codec raw desc) (λ u. read_table torch codec raw ds) h in
      let (n, span, moved) = descriptor_inv torch codec raw desc s s' first in
      (n, span, subst (λ m. Tiles ds m r.previous_end) moved (table-Tiles raw ds s' r later))

module _ {X : Type 0} (torch : Torch X) (json : JsonText X) (codec : PacketCodec X) where
  -- Only bytes that its table accounts for are decoded: the table is a list of at most
  -- `max_tensor_count` descriptors, whose spans start at the first byte, follow each other without a
  -- gap or an overlap, and end at the last byte of a region of at most `max_tensor_bytes`.
  pub decoded-Tiles :
      (metadata raw : List ℕ) (v : Value X)
      → decode torch json codec metadata raw ≡ ok v
      → (e : Entries X) × (ds : Values X) × (json.loads metadata ≡ some (dict e))
        × (get_or_null "tensors" e ≡ list ds)
        × (size ds ≤ max_tensor_count codec)
        × (length raw ≤ max_tensor_bytes codec)
        × Tiles ds 0 (length raw)
  unfolding decode decode_envelope
  decoded-Tiles metadata raw v h =
      let no_json = invalid "metadata is not valid UTF-8 JSON" in
      let bad_schema = invalid "invalid codec schema" in
      let bad_table = invalid "invalid tensor descriptor table" in
      let unreferenced = invalid "tensor region contains unreferenced bytes" in
      let read : Entries X → Result (Value X) = λ e. decode_envelope torch json codec e raw in
      let checked : Entries X → Result (Value X) = λ e.
        Errors.◌>>◌ (Errors.raise_if (not (equals_nat (get_or_null "schema" e) 1)) bad_schema)
          (read e) in
      let schema : Value X → Result (Value X) =
        λ loaded. Errors.◌>>=◌ (Errors.or_raise (as_dict loaded) bad_schema) checked in
      let root : Entries X → Reading X → Result (Value X) = λ e r.
        (decode_walk torch json codec r.buffers (suc (max_tree_depth codec)) (get_or_null "root" e)
          0).0 in
      let whole : Entries X → Reading X → Result (Value X) = λ e r.
        Errors.◌>>◌ (Errors.raise_if (not (r.previous_end == length raw)) unreferenced)
          (root e r) in
      let table = λ (ds : Values X). read_table torch codec raw ds start in
      let (fits, h1) =
        Errors.guard_inv
          (ltb (max_metadata_bytes codec) (length metadata)
            || ltb (max_tensor_bytes codec) (length raw))
          (invalid "packet exceeds configured limits")
          (Errors.◌>>=◌ (Errors.or_raise (json.loads metadata) no_json) schema) h in
      let (loaded, is_json, h2) = Errors.found_inv (json.loads metadata) no_json schema h1 in
      let (e, is_dict, h3) = Errors.found_inv (as_dict loaded) bad_schema checked h2 in
      let (first, h4) =
        Errors.guard_inv (not (equals_nat (get_or_null "schema" e) 1)) bad_schema (read e) h3 in
      let (ds, listed, h5) =
        Errors.found_inv (as_list (get_or_null "tensors" e)) bad_table
          (λ ds.
            Errors.◌>>◌ (Errors.raise_if (ltb (max_tensor_count codec) (size ds)) bad_table)
              (Errors.◌>>◌ (table ds).0 (whole e (table ds).1)))
          h4 in
      let (few, h6) =
        Errors.guard_inv (ltb (max_tensor_count codec) (size ds)) bad_table
          (Errors.◌>>◌ (table ds).0 (whole e (table ds).1)) h5 in
      let (u, read_ok, h7) = ran (table ds).0 (whole e (table ds).1) h6 in
      let (ended, h8) =
        Errors.guard_inv (not ((table ds).1.previous_end == length raw)) unreferenced
          (root e (table ds).1) h7 in
      (
        e,
        ds,
        is_json ∙ ap some (as_dict_inv loaded e is_dict),
        as_list_inv (get_or_null "tensors" e) ds listed,
        ground (arith, few),
        ground (arith, fits),
        subst (Tiles ds 0) (ground (arith, ended)) (
            table-Tiles torch codec raw ds start (table ds).1
              (ap (λ r. (r, (table ds).1)) read_ok)),
      )
