-- ===== src/Actor/Methods.antt =====
-- The remote methods of `BatchedDomainListActor` that change its state. A method takes the values
-- that came over the wire, and answers with a dictionary or an exception.
use freethreaded_dataplane.Common.{
  ℕ, suc, Bool, false, not, Option, none, some, [], ◌∷◌, String, min, is_none, if◌then◌else◌, ◌==◌,
}
use freethreaded_dataplane.Common.Int.{pos}
use freethreaded_dataplane.Common.Text.{◌<>◌, prefix, same}
use freethreaded_dataplane.Common.Dict.{lookup, insert, erase}
use freethreaded_dataplane.Common.Members.{member, include, discard}
use freethreaded_dataplane.Errors.{exception, domain_operation, type_error}
use freethreaded_dataplane.Exec.{
  Action, pure, raise, gets, modify, raise_if, or_raise, of_result, when, catch, ◌>>=◌, ◌>>◌,
}
use freethreaded_dataplane.Python.{Value, null, str, int, dict, fields}
use freethreaded_dataplane.Library.{Library, hashable}
use freethreaded_dataplane.Types.Read.{as_bool}
use freethreaded_dataplane.Actor.Init.{nonempty_text}
use freethreaded_dataplane.Actor.State.{
  Actor, invalid, run_validate, record_failure, fail_with, changed, require_available,
  require_worker, holds, require_checkout, on_domains, state_dict,
}

module _ {X : Type 0} where
  -- An `int` above zero, which a `bool` is not.
  abbrev pub positive : Value X → Option ℕ
  positive (int (pos (suc n))) = some (suc n)
  positive _ = none

  -- `v == s` for a text `s`.
  abbrev pub is_text : Value X → String → Bool
  is_text (str t) s = same t s
  is_text _ s = false

  -- `checkout is not None and checkout != active`
  abbrev pub is_other : Value X → String → Bool
  is_other null active = false
  is_other checkout active = not (holds (some active) checkout)

module _ {X D : Type 0} (lib : Library X D) where
  -- `{"status": "ok", "state": self._state_dict()}`
  abbrev pub answer_ok : Action (Actor D) (Value X)
  answer_ok =
      gets λ a. dict (fields (("status", str "ok") ∷ ("state", dict (state_dict lib a)) ∷ []))

  -- The same with the bound that the list gave.
  abbrev pub answer_bound : Value X → Action (Actor D) (Value X)
  answer_bound global_lb = gets λ a. dict (
      fields
        (("status", str "ok") ∷ ("global_lb", global_lb) ∷ ("state", dict (state_dict lib a)) ∷ []))

  unfoldable pub register_worker : Value X → Value X → Action (Actor D) (Value X)
  unfolding require_available changed state_dict
  register_worker worker_id job_id = do
    require_available
    worker ← or_raise (nonempty_text worker_id) (invalid "worker_id must not be empty")
    raise_if (not (is_text job_id (← gets (λ a. a.job_id))))
        (invalid "worker job_id does not match domain actor")
    known ← gets (λ a. member worker a.registered_workers)
    when (not known) do
      modify (λ a. record a { registered_workers = include worker a.registered_workers })
      changed
    answer_ok

  -- The body of `pick_out` behind its guards, with the token that `uuid4()` gives.
  unfoldable pub pick_pending : String → String → ℕ → Action (Actor D) (Value X)
  unfolding record_failure changed state_dict
  pick_pending token worker batch = do
    pending ← gets (λ a. lib.size a.domains)
    let nothing = gets λ a. dict (
        fields
          (("status", str "empty") ∷ ("domains", null) ∷ ("state", dict (state_dict lib a)) ∷ []))
    let some_domains = do
      domains ←
          catch (on_domains (lib.pick_out (min batch pending)))
            (λ exc. fail_with (exception domain_operation "BatchedDomainList.pick_out failed"))
      modify (λ a. record a { checkouts = insert worker token a.checkouts })
      changed
      gets (λ a. dict (
          fields (
            ("status", str "data")
            ∷ ("domains", domains)
            ∷ ("checkout", str token)
            ∷ ("state", dict (state_dict lib a))
            ∷ [])))
    if pending == 0 then nothing else some_domains

  unfoldable pub pick_out : String → Value X → Value X → Action (Actor D) (Value X)
  unfolding require_available require_worker record_failure
  pick_out token worker_id batch_size = do
    require_available
    worker ← require_worker worker_id
    batch ←
        catch (or_raise (positive batch_size) (invalid "batch_size must be a positive integer"))
          fail_with
    active ← gets (λ a. lookup worker a.checkouts)
    when (not (is_none active))
        (fail_with (invalid "complete the active shared checkout before another pick_out"))
    pick_pending token worker batch

  -- The `try` of `add` and `publish_children`.
  unfoldable pub validated_add : Value X → Value X → Bool → Action (Actor D) (Value X)
  unfolding run_validate
  validated_add bounds domain_data check_infeasibility = do
    of_result (run_validate (← gets (λ a. a.validate_add)) bounds domain_data)
    on_domains (lib.add bounds domain_data check_infeasibility)

  unfoldable pub add : Value X → Value X → Value X → Value X → Action (Actor D) (Value X)
  unfolding require_available require_worker record_failure changed state_dict
  add worker_id bounds domain_data check_infeasibility = do
    require_available
    worker ← require_worker worker_id
    check ←
        catch
          (or_raise (as_bool check_infeasibility) (invalid "check_infeasibility must be a boolean"))
          fail_with
    global_lb ←
        catch (validated_add bounds domain_data check)
          (λ exc. fail_with (exception domain_operation "BatchedDomainList.add failed"))
    modify (λ a. record a { checkouts = erase worker a.checkouts })
    changed
    answer_bound global_lb

  unfoldable pub publish_children :
      Value X → Value X → Value X → Value X → Value X → Action (Actor D) (Value X)
  unfolding require_available require_checkout record_failure changed state_dict
  publish_children worker_id checkout bounds domain_data check_infeasibility = do
    require_available
    worker ← require_checkout worker_id checkout
    check ← or_raise (as_bool check_infeasibility) (invalid "check_infeasibility must be a boolean")
    let wrapped = exception domain_operation "BatchedDomainList.add failed"
    global_lb ←
        catch (validated_add bounds domain_data check)
          (λ exc. do record_failure wrapped; changed; raise wrapped)
    modify (λ a. record a { checkouts = erase worker a.checkouts })
    changed
    answer_bound global_lb

  unfoldable pub donate : Value X → Value X → Value X → Value X → Action (Actor D) (Value X)
  unfolding require_available require_worker
  donate worker_id bounds domain_data check_infeasibility = do
    require_available
    worker ← require_worker worker_id
    active ← gets (λ a. lookup worker a.checkouts)
    raise_if (not (is_none active)) (invalid "donation is forbidden during a shared checkout")
    add worker_id bounds domain_data check_infeasibility

  unfoldable pub complete_pick_to_local : Value X → Value X → Action (Actor D) (Value X)
  unfolding require_available require_worker record_failure changed state_dict
  complete_pick_to_local worker_id checkout = do
    require_available
    worker ← require_worker worker_id
    active ←
        catch
          (or_raise (← gets (λ a. lookup worker a.checkouts))
            (invalid "no shared pick_out is active"))
          fail_with
    raise_if (is_other checkout active) (invalid "checkout is stale or does not belong to worker")
    modify (λ a. record a { checkouts = erase worker a.checkouts })
    changed
    answer_ok

  unfoldable pub complete_pruned : Value X → Value X → Action (Actor D) (Value X)
  complete_pruned worker_id checkout = complete_pick_to_local worker_id checkout

  unfoldable pub close_worker : Value X → Action (Actor D) (Value X)
  unfolding require_worker record_failure changed state_dict
  close_worker worker_id = do
    worker ← require_worker worker_id
    active ← gets (λ a. lookup worker a.checkouts)
    when (not (is_none active))
        (record_failure (invalid "worker closed with checked-out shared work"))
    modify (λ a. record a { registered_workers = discard worker a.registered_workers })
    changed
    answer_ok

  -- What `worker_failed` does before it counts the change. A worker id that is no text is in
  -- neither the dictionary nor the set.
  unfoldable pub drop_worker : Value X → String → Action (Actor D) (Unit {0})
  unfolding record_failure
  drop_worker (str worker) reason = do
    active ← gets (λ a. lookup worker a.checkouts)
    when (not (is_none active)) (
        record_failure (
          invalid (
            "worker "
            <> lib.repr worker
            <> " failed with checked-out work: "
            <> prefix 500 reason)))
    modify (λ a. record a { registered_workers = discard worker a.registered_workers })
  drop_worker _ reason = pure tt

  -- A value without a hash cannot be looked up.
  unfoldable pub worker_failed : Value X → String → Action (Actor D) (Value X)
  unfolding drop_worker hashable changed state_dict
  worker_failed worker_id reason = do
    raise_if (not (hashable lib.is_hashable worker_id)) (exception type_error "unhashable type")
    drop_worker worker_id reason
    changed
    answer_ok

  unfoldable pub fail : String → Action (Actor D) (Value X)
  unfolding changed state_dict
  fail reason = do
    running ← gets (λ a. is_none a.failure_reason)
    when running do modify (λ a. record a { failure_reason = some (prefix 1000 reason) }); changed
    gets (λ a. dict (state_dict lib a))
