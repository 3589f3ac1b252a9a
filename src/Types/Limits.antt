-- ===== src/Types/Limits.antt =====
-- `ProtocolLimits` of nogil_data_plane/types.py.
use freethreaded_dataplane.Common.{◌*◌, ◌^◌, Bool, ◌||◌}
use freethreaded_dataplane.Common.Int.{ℤ, pos, leb_ℤ}
use freethreaded_dataplane.Errors.{Result, ok, ◌>>◌, raise_if}
use freethreaded_dataplane.Types.Read.{invalid}

pub record Limits : Type 0 where
  pub max_metadata_bytes : ℤ
  pub max_tensor_bytes : ℤ
  pub max_tensor_count : ℤ
  pub max_tree_depth : ℤ
  pub max_container_elements : ℤ
  pub max_tensor_rank : ℤ
  pub max_tensor_elements : ℤ
  pub max_string_bytes : ℤ

abbrev pub default_limits : Limits
default_limits = record {
  max_metadata_bytes = pos (16 * 1024 * 1024);
  max_tensor_bytes = pos (8 * 1024 * 1024 * 1024);
  max_tensor_count = pos 100_000;
  max_tree_depth = pos 128;
  max_container_elements = pos 2_000_000;
  max_tensor_rank = pos 32;
  max_tensor_elements = pos (2 ^ 40);
  max_string_bytes = pos (4 * 1024 * 1024);
}

-- `any(value <= 0 for value in self.__dict__.values())`
abbrev pub some_not_positive : Limits → Bool
some_not_positive l =
    leb_ℤ l.max_metadata_bytes (pos 0)
    || leb_ℤ l.max_tensor_bytes (pos 0)
    || leb_ℤ l.max_tensor_count (pos 0)
    || leb_ℤ l.max_tree_depth (pos 0)
    || leb_ℤ l.max_container_elements (pos 0)
    || leb_ℤ l.max_tensor_rank (pos 0)
    || leb_ℤ l.max_tensor_elements (pos 0)
    || leb_ℤ l.max_string_bytes (pos 0)

unfoldable pub post_init : Limits → Result Limits
post_init l = do
  raise_if (some_not_positive l) (invalid "all protocol limits must be positive")
  ok l
