-- ===== src/Actor/Queries.antt =====
-- The remote methods of `BatchedDomainListActor` that only read its state, and `sort`.
use freethreaded_dataplane.Common.{
  ℕ, Bool, false, not, ◌||◌, Option, none, some, List, [], ◌∷◌, if◌then◌else◌,
}
use freethreaded_dataplane.Common.Int.{pos, pos_part, ◌+ℤ◌, ltb_ℤ, leb_ℤ}
use freethreaded_dataplane.Errors
use freethreaded_dataplane.Errors.{Result, ok, err, exception, domain_operation, index_error}
use freethreaded_dataplane.Exec.{
  Action, raise, gets, raise_if, or_raise, of_result, catch, ◌>>=◌, ◌>>◌,
}
use freethreaded_dataplane.Python.{
  Value, Values, nil, cons, null, str, int, list, dict, fields, equals_nat,
}
use freethreaded_dataplane.Library.{Library}
use freethreaded_dataplane.Types.Read.{as_bool, as_int}
use freethreaded_dataplane.Types.Domain
use freethreaded_dataplane.Actor.State.{
  Actor, invalid, record_failure, changed, require_available, on_domains, state_dict, snapshot_dict,
}

module _ {X : Type 0} where
  -- A number and a flag of the right types, the number from zero up.
  abbrev pub count_and_flag : Value X → Value X → Option (ℕ × Bool)
  count_and_flag (int (pos n)) flag = elim (as_bool flag) [ none ↦ none | some b ↦ some (n, b) ]
  count_and_flag _ flag = none

  -- `version is not None and version != self._version`
  abbrev pub is_stale : Value X → ℕ → Bool
  is_stale null current = false
  is_stale version current = not (equals_nat version current)

module _ {X D : Type 0} (lib : Library X D) where
  -- `state`
  unfoldable pub get_state : Action (Actor D) (Value X)
  unfolding state_dict
  get_state = gets λ a. dict (state_dict lib a)

  unfoldable pub snapshot : Action (Actor D) (Value X)
  unfolding snapshot_dict
  snapshot = gets λ a. dict (snapshot_dict lib a)

  unfoldable pub sort : Action (Actor D) (Value X)
  unfolding require_available record_failure changed snapshot_dict
  sort = do
    require_available
    catch (on_domains lib.sort) (λ exc. do
      record_failure exc
      changed
      raise (exception domain_operation "domain-list sort failed"))
    changed
    gets (λ a. dict (fields (("status", str "ok") ∷ ("snapshot", dict (snapshot_dict lib a)) ∷ [])))

  -- `_record`
  unfoldable pub to_record : Value X → Result (Value X)
  unfolding Domain.from_value Domain.to_dict
  to_record value =
      Errors.◌>>=◌ (Domain.from_value lib.attribute value) (λ r. ok (dict (Domain.to_dict r)))

  unfoldable pub to_records : List (Value X) → Result (Values X)
  to_records [] = ok nil
  to_records (x ∷ xs) =
      Errors.◌>>=◌ (to_record x) (λ r. Errors.◌>>=◌ (to_records xs) (λ rs. ok (cons r rs)))

  unfoldable pub get_min_domain : Value X → Value X → Action (Actor D) (Value X)
  unfolding require_available to_records
  get_min_domain num rev_order = do
    require_available
    (n, reversed) ←
        or_raise (count_and_flag num rev_order)
          (invalid "num must be non-negative and rev_order boolean")
    raise_if reversed (invalid "rev_order=True is unsupported by BatchedDomainList")
    found ← of_result (← gets (λ a. lib.get_min_domain n a.domains))
    records ← of_result (to_records found)
    gets (λ a. dict (fields (("records", list records) ∷ ("version", int (pos a.version)) ∷ [])))

  unfoldable pub get_item : Value X → Value X → Action (Actor D) (Value X)
  unfolding require_available to_record equals_nat
  get_item index version = do
    require_available
    given ← or_raise (as_int index) (invalid "index must be an integer")
    raise_if (is_stale version (← gets (λ a. a.version))) (invalid "snapshot version is stale")
    pending ← gets (λ a. lib.size a.domains)
    let i = if ltb_ℤ given (pos 0) then given +ℤ pos pending else given
    raise_if (ltb_ℤ i (pos 0) || leb_ℤ (pos pending) i)
        (exception index_error "domain index out of range")
    found ← of_result (← gets (λ a. lib.get_item (pos_part i) a.domains))
    answer ← of_result (to_record found)
    gets (λ a. dict (fields (("record", answer) ∷ ("version", int (pos a.version)) ∷ [])))
