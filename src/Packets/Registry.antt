-- ===== src/Packets/Registry.antt =====
-- The adapters of a `DomainPacketCodec`, and `register_adapter`.
use freethreaded_dataplane.Common.{ℕ, ◌≡◌, false, ◌||◌, not, some, List, [], ◌∷◌, String, is_none}
use freethreaded_dataplane.Common.Int.{pos_part}
use freethreaded_dataplane.Common.Text.{◌<>◌, is_empty}
use freethreaded_dataplane.Common.Dict.{Dict, lookup, insert}
use freethreaded_dataplane.Errors.{Result, ok, exception, value_error, ◌>>=◌, ◌>>◌, raise_if}
use freethreaded_dataplane.Python.{Value, Entries}
use freethreaded_dataplane.Types.Limits.{Limits}

-- `TypeAdapter`; a class is known by its name.
pub record TypeAdapter (X : Type 0) : Type 0 where
  pub tag : String
  pub python_type : String
  pub encode_fields : X → Result (Value X)
  pub decode_fields : Entries X → Result (Value X)

pub record PacketCodec (X : Type 0) : Type 0 where
  pub limits : Limits
  pub by_tag : Dict (TypeAdapter X)
  pub by_type : Dict (TypeAdapter X)

-- The two tables hold the same adapters, each under its own tag and class.
pub record IsRegistry {X : Type 0} (codec : PacketCodec X) : Type 0 where
  pub class_found :
      (c : String) (a : TypeAdapter X)
      → lookup c codec.by_type ≡ some a
      → (a.python_type ≡ c) × (lookup a.tag codec.by_tag ≡ some a)
  pub tag_found :
      (t : String) (a : TypeAdapter X)
      → lookup t codec.by_tag ≡ some a
      → (a.tag ≡ t) × (is_empty t ≡ false) × (lookup a.python_type codec.by_type ≡ some a)

module _ {X : Type 0} where
  -- `register_adapter`, with `repr` of a text for the messages.
  unfoldable pub register_adapter :
      (String → String) → TypeAdapter X → PacketCodec X → Result (PacketCodec X)
  register_adapter repr adapter codec = do
    raise_if (is_empty adapter.tag || not (is_none (lookup adapter.tag codec.by_tag)))
        (exception value_error ("duplicate or empty adapter tag: " <> repr adapter.tag))
    raise_if (not (is_none (lookup adapter.python_type codec.by_type)))
        (exception value_error ("duplicate adapter type: " <> repr adapter.python_type))
    ok (record codec {
      by_tag = insert adapter.tag adapter codec.by_tag;
      by_type = insert adapter.python_type adapter codec.by_type;
    })

  -- The loop of `__init__`, and that of `register_alpha_beta_crown_adapters`.
  unfoldable pub register_all :
      (String → String) → List (TypeAdapter X) → PacketCodec X → Result (PacketCodec X)
  register_all repr [] codec = ok codec
  register_all repr (a ∷ adapters) codec = do
    more ← register_adapter repr a codec
    register_all repr adapters more

  -- `DomainPacketCodec(limits=limits, adapters=adapters)`
  unfoldable pub init : (String → String) → Limits → List (TypeAdapter X) → Result (PacketCodec X)
  init repr limits adapters =
      register_all repr adapters (record { limits = limits; by_tag = []; by_type = [] })

  -- The limits, which `ProtocolLimits` makes positive.
  abbrev pub max_metadata_bytes : PacketCodec X → ℕ
  max_metadata_bytes c = pos_part c.limits.max_metadata_bytes

  abbrev pub max_tensor_bytes : PacketCodec X → ℕ
  max_tensor_bytes c = pos_part c.limits.max_tensor_bytes

  abbrev pub max_tensor_count : PacketCodec X → ℕ
  max_tensor_count c = pos_part c.limits.max_tensor_count

  abbrev pub max_tree_depth : PacketCodec X → ℕ
  max_tree_depth c = pos_part c.limits.max_tree_depth

  abbrev pub max_container_elements : PacketCodec X → ℕ
  max_container_elements c = pos_part c.limits.max_container_elements

  abbrev pub max_tensor_rank : PacketCodec X → ℕ
  max_tensor_rank c = pos_part c.limits.max_tensor_rank

  abbrev pub max_tensor_elements : PacketCodec X → ℕ
  max_tensor_elements c = pos_part c.limits.max_tensor_elements

  abbrev pub max_string_bytes : PacketCodec X → ℕ
  max_string_bytes c = pos_part c.limits.max_string_bytes
