-- ===== src/Types/Snapshot.antt =====
-- `SharedDomainListSnapshot` of nogil_data_plane/types.py.
use freethreaded_dataplane.Common.{◌∷◌, String}
use freethreaded_dataplane.Common.Int.{ℤ, pos, ltb_ℤ}
use freethreaded_dataplane.Common.Text.{is_empty}
use freethreaded_dataplane.Errors.{Result, ok, ◌>>=◌, ◌>>◌, raise_if, or_raise}
use freethreaded_dataplane.Python.{Entries, int, str, fields, get_or_null}
use freethreaded_dataplane.Types.Read.{invalid, as_int, as_str}
use freethreaded_dataplane.Types.State
use freethreaded_dataplane.Types.State.{State, state_fields}

pub record Snapshot : Type 0 where
  pub job_id : String
  pub version : ℤ
  pub state : State
  pub open state use *

module _ {X : Type 0} where
  -- The items of a snapshot's fields in their order in the class.
  unfoldable pub to_dict : Snapshot → Entries X
  to_dict s = fields (("job_id", str s.job_id) ∷ ("version", int s.version) ∷ state_fields s.state)

  unfoldable pub from_dict : Entries X → Result Snapshot
  from_dict value = do
    state ← State.from_dict value
    let malformed = invalid "invalid shared-domain-list snapshot identity"
    job_id ← or_raise (as_str (get_or_null "job_id" value)) malformed
    raise_if (is_empty job_id) malformed
    version ← or_raise (as_int (get_or_null "version" value)) malformed
    raise_if (ltb_ℤ version (pos 0)) malformed
    ok (record { job_id = job_id; version = version; state = state })
