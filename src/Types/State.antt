-- ===== src/Types/State.antt =====
-- `SharedDomainListState` of nogil_data_plane/types.py.
use freethreaded_dataplane.Common.{Bool, not, ◌&&◌, ◌||◌, Option, List, [], ◌∷◌, String, differ}
use freethreaded_dataplane.Common.Int.{ℤ, pos, ltb_ℤ, eq_ℤ}
use freethreaded_dataplane.Errors.{Result, ok, ◌>>=◌, ◌>>◌, raise_if, or_raise}
use freethreaded_dataplane.Python.{
  Value, Entries, int, bool, fields, get_field, get_or_null, optional_text,
}
use freethreaded_dataplane.Types.Read.{invalid, as_bool, as_int, as_optional_text, required}

pub record State : Type 0 where
  pub pending_shared_domains : ℤ
  pub checked_out_shared_batches : ℤ
  pub shared_idle : Bool
  pub failed : Bool
  pub failure_reason : Option String

abbrev pub expected_idle : ℤ → ℤ → Bool → Bool
expected_idle pending checked failed = eq_ℤ pending (pos 0) && eq_ℤ checked (pos 0) && not failed

module _ {X : Type 0} where
  abbrev pub state_fields : State → List (String × Value X)
  state_fields s =
      ("pending_shared_domains", int s.pending_shared_domains)
      ∷ ("checked_out_shared_batches", int s.checked_out_shared_batches)
      ∷ ("shared_idle", bool s.shared_idle)
      ∷ ("failed", bool s.failed)
      ∷ ("failure_reason", optional_text s.failure_reason)
      ∷ []

  unfoldable pub to_dict : State → Entries X
  to_dict s = fields (state_fields s)

  unfoldable pub from_dict : Entries X → Result State
  from_dict value = do
    let malformed = invalid "invalid shared-domain-list state"
    idle ← required as_bool (get_field "shared_idle" value) malformed
    failed ← required as_bool (get_field "failed" value) malformed
    pending ← required as_int (get_field "pending_shared_domains" value) malformed
    checked ← required as_int (get_field "checked_out_shared_batches" value) malformed
    raise_if (ltb_ℤ pending (pos 0) || ltb_ℤ checked (pos 0))
        (invalid "domain counts cannot be negative")
    reason ←
        or_raise (as_optional_text (get_or_null "failure_reason" value))
          (invalid "failure_reason must be a string or null")
    raise_if (differ idle (expected_idle pending checked failed))
        (invalid "shared_idle is inconsistent with counts/failure")
    ok (record {
      pending_shared_domains = pending;
      checked_out_shared_batches = checked;
      shared_idle = idle;
      failed = failed;
      failure_reason = reason;
    })
