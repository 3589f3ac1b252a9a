-- ===== src/Packets/Tests.antt =====
-- Runs of the packet codec, and its theorems at concrete values.
use freethreaded_dataplane.Common.{
  Bool, true, false, ℕ, zero, suc, ◌≤◌, arith, ◌≡◌, refl, false, some, [], ◌∷◌, length, ap, subst,
  ◌∙◌,
}
use freethreaded_dataplane.Common.Dict.{lookup, insert}
use freethreaded_dataplane.Common.Members.{member}
use freethreaded_dataplane.Common.Int.{pos}
use freethreaded_dataplane.Errors.{Result, ok, err}
use freethreaded_dataplane.Python.{
  Value, Values, Entries, null, list, get_or_null, object, dict, end, int, fields,
}
use freethreaded_dataplane.Framing.{Packet, join}
use freethreaded_dataplane.Packets.Dataclasses.{Dataclasses, register_alpha_beta_crown_adapters}
use freethreaded_dataplane.Packets.Encode.{encode, encode_node, all_text_keys}
use freethreaded_dataplane.Packets.Descriptors.{size}
use freethreaded_dataplane.Packets.Decode.{decode, decode_node}
use freethreaded_dataplane.Packets.MapTensors.{snapshot, map_fields}
use freethreaded_dataplane.Packets.Samples.{
  Thing, tensor, interval, fit, is_tensor, things, things-IsTorch, thing_codec, thing_codec-init,
  weights, bounds_value, detached, interval_adapter,
}
use freethreaded_dataplane.Packets.SampleText.{sample_text, sample_text-IsJsonText, write, run}
use freethreaded_dataplane.Types.Limits.{default_limits}
use freethreaded_dataplane.Packets.Registry.{
  TypeAdapter, PacketCodec, register_adapter, IsRegistry, max_tree_depth, max_tensor_bytes,
  max_tensor_count, max_metadata_bytes,
}
use freethreaded_dataplane.Packets.Keys.{has_key, append}
use freethreaded_dataplane.Packets.KeyedItems.{Keyed}
use freethreaded_dataplane.Packets.Custom.{Fields}
use freethreaded_dataplane.Packets.Walk.{IsWellKeyed}
use freethreaded_dataplane.Packets.Adapters.{init_lem, HasAll}
use freethreaded_dataplane.Packets.Wire.{payload_codec, payload_round_trip}
use freethreaded_dataplane.Packets.Total.{Rebuilds, accepted_decodes}
use freethreaded_dataplane.Packets.Bounds.{encode_bounds}
use freethreaded_dataplane.Packets.Tiling.{Tiles, decoded-Tiles}
use freethreaded_dataplane.Framing.{dumps, loads}
use freethreaded_dataplane.Framing.Frames.{layout}

abbrev outcome : Result Packet → Packet
outcome (ok p) = p
outcome (err e) = record { metadata = []; tensor_bytes = []; total_tensor_bytes = 0 }

abbrev packet : Packet
unfolding encode write
packet = outcome (encode things sample_text thing_codec (bounds_value weights))

-- The encoded bounds are decoded with their tensor detached.
decode_test :
    decode things sample_text thing_codec packet.metadata (join packet.tensor_bytes)
    ≡ ok (bounds_value (detached weights))
unfolding encode write decode run encode_node member lookup all_text_keys join fit decode_node
decode_test = refl

encoded : encode things sample_text thing_codec (bounds_value weights) ≡ ok packet
unfolding encode write encode_node member lookup all_text_keys
encoded = refl

weights_keyed :
    (P : Value Thing → Type 0) → is_tensor weights ≡ false → Fields things thing_codec P weights
weights_keyed P h = cc

abbrev interval_fields : ℕ → ℕ → Entries Thing
interval_fields lo hi = fields (("lo", int (pos lo)) ∷ ("hi", int (pos hi)) ∷ [])

interval_inv :
    (lo hi : ℕ) (a : TypeAdapter Thing) (d : Entries Thing)
    → lookup (things.class_of (interval lo hi)) thing_codec.by_type ≡ some a
    → a.encode_fields (interval lo hi) ≡ ok (dict d)
    → (interval_adapter ≡ a) × (interval_fields lo hi ≡ d)
unfolding lookup
interval_inv lo hi a d found given =
    let same_adapter : ◌≡◌ {A = TypeAdapter Thing} interval_adapter a = cc in
    let same_result : interval_adapter.encode_fields (interval lo hi) ≡ ok (dict d) =
      ap (λ a. a.encode_fields (interval lo hi)) same_adapter ∙ given in
    (same_adapter, cc)

interval_keyed :
    (depth lo hi : ℕ)
    → is_tensor (interval lo hi) ≡ false
    → Fields things thing_codec (IsWellKeyed things thing_codec (suc (suc depth))) (interval lo hi)
unfolding IsWellKeyed lookup has_key append
interval_keyed depth lo hi no_tensor a d found given =
    let (same_adapter, same_fields) = interval_inv lo hi a d found given in
    subst
      (λ d.
        IsWellKeyed things thing_codec (suc (suc depth)) (dict d)
        × Keyed things (λ v. Unit {0}) end d)
      same_fields
      (
        (refl, refl, tt, tt, (refl, refl, tt, tt, tt)),
        (refl, refl, tt, tt, (refl, refl, tt, tt, tt)),
      )

keyed : IsWellKeyed things thing_codec (suc (max_tree_depth thing_codec)) (bounds_value weights)
unfolding IsWellKeyed has_key append
keyed = (
  refl,
  refl,
  tt,
  weights_keyed (IsWellKeyed things thing_codec 127),
  (
    refl,
    refl,
    tt,
    (interval_keyed 124 1 2, (tt, (tt, tt))),
    (refl, refl, tt, (tt, (tt, (tt, tt))), tt),
  ),
)

snapshot_taken :
    snapshot things thing_codec 5 (bounds_value weights) ≡ ok (bounds_value (detached weights))
unfolding snapshot lookup fit
snapshot_taken = refl

registry : IsRegistry thing_codec
registry = (init_lem (λ s. s) default_limits (interval_adapter ∷ []) thing_codec thing_codec-init).0

payload_round_trip_example :
    (dumps (payload_codec things sample_text thing_codec) (bounds_value weights)
      ≡ ok (layout packet.metadata (join packet.tensor_bytes)))
    × (loads
          (payload_codec things sample_text thing_codec)
          (layout packet.metadata (join packet.tensor_bytes))
        ≡ ok (bounds_value (detached weights)))
payload_round_trip_example =
    payload_round_trip things sample_text thing_codec things-IsTorch sample_text-IsJsonText registry
      (omega arith) (bounds_value weights) (bounds_value (detached weights)) packet 5 keyed encoded
      snapshot_taken

interval_mapped :
    (f lo hi : ℕ) (e : Entries Thing)
    → map_fields (snapshot things thing_codec f) (interval_fields lo hi) ≡ ok e
    → interval_fields lo hi ≡ e
unfolding map_fields snapshot
interval_mapped zero lo hi e h = cc
interval_mapped (suc f) lo hi e h = cc

rebuilds : Rebuilds things sample_text thing_codec
unfolding lookup
rebuilds (tensor d s b attached) a fields e f found given mapped = cc
rebuilds (interval lo hi) a d e f found given mapped =
    let (same_adapter, same_fields) = interval_inv lo hi a d found given in
    let at_fields : map_fields (snapshot things thing_codec f) (interval_fields lo hi) ≡ ok e =
      ap (map_fields (snapshot things thing_codec f)) same_fields ∙ mapped in
    subst (λ a. (y : Value Thing) × (a.decode_fields e ≡ ok y)) same_adapter
      (subst (λ e. (y : Value Thing) × (interval_adapter.decode_fields e ≡ ok y))
        (interval_mapped f lo hi e at_fields) (object (interval lo hi), refl))

accepted_decodes_example :
    (w : Value Thing) × (snapshot things thing_codec
        (suc (max_tree_depth thing_codec))
        (bounds_value weights)
      ≡ ok w)
    × (decode things sample_text thing_codec packet.metadata (join packet.tensor_bytes) ≡ ok w)
accepted_decodes_example =
    accepted_decodes things sample_text thing_codec rebuilds things-IsTorch sample_text-IsJsonText
      registry (bounds_value weights) packet keyed encoded

encode_bounds_example :
    (packet.total_tensor_bytes ≡ length (join packet.tensor_bytes))
    × (packet.total_tensor_bytes ≤ max_tensor_bytes thing_codec)
    × (length packet.tensor_bytes ≤ max_tensor_count thing_codec)
    × (length packet.metadata ≤ max_metadata_bytes thing_codec)
encode_bounds_example =
    encode_bounds things thing_codec things-IsTorch sample_text (bounds_value weights) packet
      encoded

decoded-Tiles_example :
    (e : Entries Thing) × (ds : Values Thing) × (sample_text.loads packet.metadata ≡ some (dict e))
    × (get_or_null "tensors" e ≡ list ds)
    × (size ds ≤ max_tensor_count thing_codec)
    × (length (join packet.tensor_bytes) ≤ max_tensor_bytes thing_codec)
    × Tiles ds 0 (length (join packet.tensor_bytes))
decoded-Tiles_example =
    decoded-Tiles things sample_text thing_codec packet.metadata (join packet.tensor_bytes)
      (bounds_value (detached weights)) decode_test

init_lem_example :
    IsRegistry thing_codec
    × HasAll (interval_adapter ∷ []) thing_codec
    × (thing_codec.limits ≡ default_limits)
init_lem_example =
    init_lem (λ s. s) default_limits (interval_adapter ∷ []) thing_codec thing_codec-init

abbrev python : Dataclasses Thing
python = record {
  is_dataclass = λ c. true;
  field_names = λ c. "lo" ∷ "hi" ∷ [];
  attribute = λ x name. ok null;
  construct = λ c d. ok null;
  repr = λ c. c;
}

abbrev tag_count : Result (Unit {0}) × PacketCodec Thing → Bool × ℕ
tag_count (ok u, codec) = (true, length codec.by_tag)
tag_count (err e, codec) = (false, length codec.by_tag)

-- The nine classes of alpha-beta-CROWN are registered once.
crown_test :
    (tag_count (register_alpha_beta_crown_adapters python thing_codec) ≡ (true, 10))
    × (tag_count (
          register_alpha_beta_crown_adapters python
            (register_alpha_beta_crown_adapters python thing_codec).1)
        ≡ (false, 10))
unfolding register_alpha_beta_crown_adapters register_adapter lookup insert
crown_test = (refl, refl)
