-- ===== src/Types/InputSnapshot.antt =====
-- `InputDomainListSnapshot` of nogil_data_plane/types.py.
use freethreaded_dataplane.Errors.{Result, ok, ◌>>=◌}
use freethreaded_dataplane.Python.{Value, Entries, get_or_null}
use freethreaded_dataplane.Types.Snapshot
use freethreaded_dataplane.Types.Snapshot.{Snapshot}

pub record InputSnapshot (X : Type 0) : Type 0 where
  pub shared : Snapshot
  pub output_device : Value X
  pub storage_depth : Value X
  pub use_alpha : Value X
  pub sort_index : Value X
  pub sort_descending : Value X
  pub use_split_idx : Value X
  pub spec_size : Value X
  pub volume : Value X
  pub all_volume : Value X

-- The nine storage fields are taken as they come, `None` where they are missing.
unfoldable pub from_dict : {X : Type 0} → Entries X → Result (InputSnapshot X)
from_dict value = do
  shared ← Snapshot.from_dict value
  ok (record {
    shared = shared;
    output_device = get_or_null "output_device" value;
    storage_depth = get_or_null "storage_depth" value;
    use_alpha = get_or_null "use_alpha" value;
    sort_index = get_or_null "sort_index" value;
    sort_descending = get_or_null "sort_descending" value;
    use_split_idx = get_or_null "use_split_idx" value;
    spec_size = get_or_null "spec_size" value;
    volume = get_or_null "volume" value;
    all_volume = get_or_null "all_volume" value;
  })
