-- ===== src/Packets/Dataclasses.antt =====
-- `dataclass_adapter` of nogil_data_plane/domain_packet_codec.py, and nogil_data_plane/adapters.py, which
-- registers the classes of alpha-beta-CROWN with it.
use freethreaded_dataplane.Common.{Bool, not, List, [], ◌∷◌, String}
use freethreaded_dataplane.Common.Text.{◌<>◌}
use freethreaded_dataplane.Errors
use freethreaded_dataplane.Errors.{Result, ok, err, exception, type_error}
use freethreaded_dataplane.Exec.{Action, pure, of_result, ◌>>=◌, ◌>>◌}
use freethreaded_dataplane.Python.{Value, Entries, str, dict, end, entry}
use freethreaded_dataplane.Packets.Registry.{TypeAdapter, PacketCodec, register_adapter}

-- Python's dataclasses, each known by its name.
pub record Dataclasses (X : Type 0) : Type 0 where
  -- `dataclasses.is_dataclass(c)`
  pub is_dataclass : String → Bool
  -- `tuple(field.name for field in dataclasses.fields(c))`
  pub field_names : String → List String
  -- `getattr(obj, name)`
  pub attribute : X → String → Result (Value X)
  -- `c(**fields)`
  pub construct : String → Entries X → Result (Value X)
  -- `repr(c)`
  pub repr : String → String

-- The classes and tags of `register_alpha_beta_crown_adapters`.
abbrev pub crown_classes : List (String × String)
crown_classes =
    ("BatchFirstBranchingDecisions", "abcrown.batch_first_branching_decisions")
    ∷ ("AlphaValueData", "abcrown.alpha_value_data")
    ∷ ("AlphaFullInfoData", "abcrown.alpha_full_info_data")
    ∷ ("BetaFullData", "abcrown.beta_full_data")
    ∷ ("NumsEffectiveBetasPerDomain", "abcrown.nums_effective_betas")
    ∷ ("BetaValues", "abcrown.beta_values")
    ∷ ("BatchedlA", "abcrown.batched_la")
    ∷ ("ClipDecisions", "abcrown.clip_decisions")
    ∷ ("SubDomainClipDecisions", "abcrown.sub_domain_clip_decisions")
    ∷ []

module _ {X : Type 0} (python : Dataclasses X) where
  -- `{name: getattr(obj, name) for name in names}`
  unfoldable pub attributes : List String → X → Result (Entries X)
  attributes [] obj = ok end
  attributes (name ∷ names) obj =
      Errors.◌>>=◌ (python.attribute obj name)
        λ value. Errors.◌>>=◌ (attributes names obj) λ rest. ok (entry (str name) value rest)

  unfoldable pub dataclass_adapter : String → String → Result (TypeAdapter X)
  unfolding attributes
  dataclass_adapter python_type tag =
      Errors.◌>>◌
        (Errors.raise_if (not (python.is_dataclass python_type))
          (exception type_error (python.repr python_type <> " is not a dataclass type")))
        (ok (record {
          tag = tag;
          python_type = python_type;
          encode_fields = λ obj.
              Errors.◌>>=◌ (attributes (python.field_names python_type) obj) λ d. ok (dict d);
          decode_fields = python.construct python_type;
        }))

  -- `codec.register_adapter(adapter)`, which leaves the codec as it is when it raises.
  unfoldable pub register : TypeAdapter X → Action (PacketCodec X) (Unit {0})
  register adapter codec = elim (register_adapter python.repr adapter codec) [
    | ok more ↦ (ok tt, more)
    | err exc ↦ (err exc, codec)
  ]

  -- The loop over the classes.
  unfoldable pub register_classes : List (String × String) → Action (PacketCodec X) (Unit {0})
  unfolding dataclass_adapter register
  register_classes [] = pure tt
  register_classes ((python_type, tag) ∷ classes) = do
    adapter ← of_result (dataclass_adapter python_type tag)
    register adapter
    register_classes classes

  unfoldable pub register_alpha_beta_crown_adapters : Action (PacketCodec X) (Unit {0})
  unfolding register_classes
  register_alpha_beta_crown_adapters = register_classes crown_classes
