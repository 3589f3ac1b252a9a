-- ===== src/Types/Endpoint.antt =====
-- `SharedDomainListEndpoint` of nogil_data_plane/types.py.
use freethreaded_dataplane.Common.{not, ◌&&◌, ◌||◌, String}
use freethreaded_dataplane.Common.Int.{ℤ, pos, leb_ℤ}
use freethreaded_dataplane.Common.Text.{is_empty}
use freethreaded_dataplane.Errors.{Result, ok, ◌>>◌, raise_if}
use freethreaded_dataplane.Types.Read.{invalid}

pub record Endpoint : Type 0 where
  pub host : String
  pub port : ℤ
  pub actor_id : String
  pub job_id : String
  pub max_frame_size : ℤ

-- `__post_init__`, on fields of the declared types.
unfoldable pub post_init : Endpoint → Result Endpoint
post_init e = do
  raise_if (is_empty e.host || is_empty e.actor_id || is_empty e.job_id)
      (invalid "host, actor_id, and job_id must not be empty")
  raise_if (not (leb_ℤ (pos 1) e.port && leb_ℤ e.port (pos 65535)))
      (invalid "port must be between 1 and 65535")
  raise_if (leb_ℤ e.max_frame_size (pos 0)) (invalid "max_frame_size must be a positive integer")
  ok e
