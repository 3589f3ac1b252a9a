-- ===== src/Actor/State.antt =====
-- The fields of `BatchedDomainListActor` and its private helpers.
use freethreaded_dataplane.Common.{
  ℕ, ◌+◌, Bool, false, not, ◌&&◌, Option, none, some, List, [], ◌∷◌, String, length, is_none,
  if◌then◌else◌, ◌==◌,
}
use freethreaded_dataplane.Common.Int.{pos}
use freethreaded_dataplane.Common.Text.{◌<>◌, prefix, same}
use freethreaded_dataplane.Common.Dict.{Dict, lookup}
use freethreaded_dataplane.Common.Members.{member}
use freethreaded_dataplane.Errors.{
  Exception, Result, ok, err, exception, type_name, invalid_state, actor_failed,
}
use freethreaded_dataplane.Exec.{Action, raise, gets, modify, raise_if, or_raise, pure, ◌>>=◌, ◌>>◌}
use freethreaded_dataplane.Python.{Value, Entries, str, int, fields, fields_then}
use freethreaded_dataplane.Library.{Library}
use freethreaded_dataplane.Validation.{validate_mapping_add, validate_alpha_beta_crown_add}
use freethreaded_dataplane.Types.Read.{as_str}
use freethreaded_dataplane.Types.State
use freethreaded_dataplane.Types.State.{State, state_fields}

-- The function that `_validate_add` holds.
pub data Profile : Type 0 where
  mapping alpha_beta_crown : Profile

pub record Actor (D : Type 0) : Type 0 where
  pub job_id : String
  pub domains : D
  pub validate_add : Profile
  pub registered_workers : List String
  pub checkouts : Dict String
  pub failure_reason : Option String
  pub version : ℕ

abbrev pub invalid : String → Exception
invalid = exception invalid_state

-- `self._validate_add(bounds, domain_data)`
unfoldable pub run_validate : {X : Type 0} → Profile → Value X → Value X → Result (Unit {0})
unfolding validate_mapping_add validate_alpha_beta_crown_add
run_validate mapping bounds domain_data = validate_mapping_add bounds domain_data
run_validate alpha_beta_crown bounds domain_data = validate_alpha_beta_crown_add bounds domain_data

-- A token that is a text, and the one checked out.
abbrev pub holds : {X : Type 0} → Option String → Value X → Bool
holds (some active) (str token) = same active token
holds _ _ = false

-- What `_record_failure` writes down of an exception.
abbrev pub failure_text : Exception → String
failure_text exc = type_name exc.kind <> ": " <> prefix 800 exc.message

abbrev pub unregistered : Exception
unregistered = invalid "worker is not registered with this domain actor"

module _ {D : Type 0} where
  unfoldable pub record_failure : Exception → Action (Actor D) (Unit {0})
  record_failure exc = modify λ a.
      if is_none a.failure_reason then record a { failure_reason = some (failure_text exc) } else a

  -- `self._record_failure(exc); raise exc`
  abbrev pub fail_with : {A : Type 0} → Exception → Action (Actor D) A
  fail_with exc = do record_failure exc; raise exc

  unfoldable pub changed : Action (Actor D) (Unit {0})
  changed = modify λ a. record a { version = a.version + 1 }

  unfoldable pub require_available : Action (Actor D) (Unit {0})
  require_available a = elim a.failure_reason [
    | none ↦ (ok tt, a)
    | some reason ↦ (err (exception actor_failed reason), a)
  ]

  -- The registered worker's id, as the text that it is.
  unfoldable pub require_worker : {X : Type 0} → Value X → Action (Actor D) String
  require_worker worker_id = do
    worker ← or_raise (as_str worker_id) unregistered
    raise_if (not (← gets (λ a. member worker a.registered_workers))) unregistered
    pure worker

  -- The worker and its token.
  unfoldable pub require_checkout : {X : Type 0} → Value X → Value X → Action (Actor D) String
  unfolding require_worker
  require_checkout worker_id checkout = do
    worker ← require_worker worker_id
    raise_if (not (holds (← gets (λ a. lookup worker a.checkouts)) checkout))
        (invalid "checkout is stale or does not belong to worker")
    pure worker

  -- A call of the domain list: its result, and the list that it leaves.
  abbrev pub on_domains : {A : Type 0} → (D → Result A × D) → Action (Actor D) A
  on_domains call a = let (r, d) = call a.domains in (r, record a { domains = d })

module _ {X D : Type 0} (lib : Library X D) where
  -- `_state`
  unfoldable pub state : Actor D → State
  state a =
      let pending = lib.size a.domains in
      let checked_out = length a.checkouts in
      let failed = not (is_none a.failure_reason) in
      record {
        pending_shared_domains = pos pending;
        checked_out_shared_batches = pos checked_out;
        shared_idle = pending == 0 && checked_out == 0 && not failed;
        failed = failed;
        failure_reason = a.failure_reason;
      }

  -- `_state_dict`
  unfoldable pub state_dict : Actor D → Entries X
  unfolding state State.to_dict
  state_dict a = State.to_dict (state a)

  -- `_snapshot_dict`
  unfoldable pub snapshot_dict : Actor D → Entries X
  unfolding state
  snapshot_dict a =
      fields_then (state_fields (state a))
        (fields (("job_id", str a.job_id) ∷ ("version", int (pos a.version)) ∷ []))
