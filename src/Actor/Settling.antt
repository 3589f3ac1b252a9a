-- ===== src/Actor/Settling.antt =====
-- How `BatchedDomainListActor` takes a checkout back: every outcome of a publication and of a
-- completion, and what a repeated completion does.
use freethreaded_dataplane.Common.{
  ◌+◌, ◌≡◌, refl, ap, ◌⊎◌, inl, inr, Bool, true, false, Option, none, some, [], ◌∷◌, String, arith,
  Option-cases, Bool-cases,
}
use freethreaded_dataplane.Common.Text.{same_iff}
use freethreaded_dataplane.Common.Dict.{lookup, lookup-erase}
use freethreaded_dataplane.Errors.{
  Exception, Result, ok, err, exception, domain_operation, actor_failed, Result-cases,
}
use freethreaded_dataplane.Python.{Value, null, str, dict, fields}
use freethreaded_dataplane.Library.{Library}
use freethreaded_dataplane.Types.Read.{as_bool}
use freethreaded_dataplane.Actor.State.{
  Actor, invalid, holds, failure_text, unregistered, state_dict, run_validate, require_worker,
}
use freethreaded_dataplane.Actor.Methods
use freethreaded_dataplane.Actor.Methods.{is_other}
use freethreaded_dataplane.Actor.Invariant.{IsValid}
use freethreaded_dataplane.Actor.Checkout.{IsServing, settled}
use freethreaded_dataplane.Actor.Protocol.Guards.{worker_cases}

-- The token is the one that the registered worker has checked out from the running actor.
pub record Owns {X D : Type 0} (w t : Value X) (worker tok : String) (a : Actor D) : Type 0 where
  pub serving : IsServing worker a
  pub names_worker : w ≡ str worker
  pub names_token : t ≡ str tok
  pub active : lookup worker a.checkouts ≡ some tok

holds-true :
    {X : Type 0} (active : Option String) (t : Value X)
    → holds active t ≡ true
    → (tok : String) × (t ≡ str tok) × (active ≡ some tok)
holds-true (some c) (str s) h = (s, refl, ap some ((same_iff c s).0 h))
holds-true (some c) _ h = cc
holds-true none t h = cc

-- Nobody else has a token: not a worker that is refused, nor one whose token is another.
stranger_owns_nothing :
    {X D : Type 0} (w t : Value X) (worker tok : String) (a : Actor D) {P : Type 0}
    → require_worker w a ≡ (err unregistered, a)
    → Owns w t worker tok a
    → P
unfolding require_worker
stranger_owns_nothing w t worker tok a stranger o =
    ground (arith, stranger, o.names_worker, o.serving.known)

stale_is_not_owned :
    {X D : Type 0} (w t : Value X) (named worker tok : String) (a : Actor D) {P : Type 0}
    → w ≡ str named
    → holds (lookup named a.checkouts) t ≡ false
    → Owns w t worker tok a
    → P
stale_is_not_owned w t named worker tok a names stale o =
    let token : t ≡ str tok = o.names_token in
    ground (arith, stale, names, o.names_worker, token, o.active, (same_iff tok tok).1 refl)

abbrev pub add_failed : Exception
add_failed = exception domain_operation "BatchedDomainList.add failed"

module _ {X D : Type 0} (lib : Library X D) where
  -- `{"status": "ok", "global_lb": lb, "state": …}`, and the same with no bound.
  abbrev pub bound_answer : Value X → Actor D → Value X
  bound_answer lb b =
      dict (
        fields (("status", str "ok") ∷ ("global_lb", lb) ∷ ("state", dict (state_dict lib b)) ∷ []))

  abbrev pub plain_answer : Actor D → Value X
  plain_answer b = dict (fields (("status", str "ok") ∷ ("state", dict (state_dict lib b)) ∷ []))

  -- What the `try` of a publication comes to: the check raised, or the list raised.
  pub data Raises (b d : Value X) (check : Bool) (a : Actor D) (left : D) : Type 0 where
    check_raised :
        (e : Exception)
        → run_validate a.validate_add b d ≡ err e
        → left ≡ a.domains
        → Raises b d check a left
    list_raised :
        (e : Exception)
        → run_validate a.validate_add b d ≡ ok tt
        → lib.add b d check a.domains ≡ (err e, left)
        → Raises b d check a left

  -- What a publication comes to.
  pub data Published (w t b d c : Value X) (a : Actor D) (r : Result (Value X) × Actor D)
      : Type 0 where
    refused :
        (e : Exception)
        → ((worker tok : String) → Owns w t worker tok a → as_bool c ≡ none)
        → r ≡ (err e, a)
        → Published w t b d c a r
    taken :
        (worker tok : String) (check : Bool) (lb : Value X) (grown : D)
        → Owns w t worker tok a
        → as_bool c ≡ some check
        → run_validate a.validate_add b d ≡ ok tt
        → lib.add b d check a.domains ≡ (ok lb, grown)
        → r ≡ (ok (bound_answer lb (settled worker grown a)), settled worker grown a)
        → Published w t b d c a r
    broken :
        (worker tok : String) (check : Bool) (left : D)
        → Owns w t worker tok a
        → as_bool c ≡ some check
        → Raises b d check a left
        → r ≡ (
          err add_failed,
          record a {
            domains = left;
            failure_reason = some (failure_text add_failed);
            version = a.version + 1;
          },
        )
        → Published w t b d c a r

  -- The end of a publication whose guards have passed.
  publish_checked :
      (w t b d c : Value X) (worker tok : String) (a : Actor D)
      → Owns w t worker tok a
      → Published w t b d c a (Methods.publish_children lib w t b d c a)
  unfolding Methods.publish_children Methods.validated_add
  publish_checked w t b d c worker tok a o = elim (Option-cases (as_bool c)) [
    | inl bad ↦
        refused (invalid "check_infeasibility must be a boolean") (λ u v p. bad)
          (ground (arith, o.serving.live, o.serving.known, (same_iff tok tok).1 refl))
    | inr (check, good) ↦ elim (Result-cases (run_validate a.validate_add b d)) [
      | inr (e, unfit) ↦
          broken worker tok check a.domains o good (check_raised e unfit refl)
            (ground (arith, o.serving.live, o.serving.known, (same_iff tok tok).1 refl))
      | inl (u, fit) ↦
          let grown = (lib.add b d check a.domains).1 in
          elim (Result-cases (lib.add b d check a.domains).0) [
            | inl (lb, accepted) ↦
                taken worker tok check lb grown o good fit (ap (λ x. (x, grown)) accepted)
                  (ground (arith, o.serving.live, o.serving.known, (same_iff tok tok).1 refl))
            | inr (e, raised) ↦
                broken worker tok check grown o good
                  (list_raised e fit (ap (λ x. (x, grown)) raised))
                  (ground (arith, o.serving.live, o.serving.known, (same_iff tok tok).1 refl))
          ]
    ]
  ]

  -- A publication ends in one of three ways. It is refused and nothing has changed, which happens
  -- only if the actor has failed, the worker is not registered, the token is not the one that it
  -- has checked out, or `check_infeasibility` is not a boolean. Or the worker presented the token
  -- that it has checked out, the profile accepts the arguments, the list's `add` of them succeeds,
  -- its bound is answered, its list is kept and this checkout alone is closed. Or it presented
  -- that token, the profile or the list's `add` raised, and the actor has failed with the list as
  -- it was left and the checkout still open.
  pub publish_outcomes :
      (w t b d c : Value X) (a : Actor D)
      → Published w t b d c a (Methods.publish_children lib w t b d c a)
  unfolding Methods.publish_children
  publish_outcomes w t b d c a = elim (Option-cases a.failure_reason) [
    | inr (reason, failed) ↦
        refused (exception actor_failed reason) (λ u v o. let live = o.serving.live in cc)
          (ground arith)
    | inl live ↦ elim (worker_cases w a) [
      | inr stranger ↦
          refused unregistered (λ u v o. stranger_owns_nothing w t u v a stranger o) (ground arith)
      | inl (worker, named, known) ↦ elim (Bool-cases (holds (lookup worker a.checkouts) t)) [
        | inr stale ↦
            refused (invalid "checkout is stale or does not belong to worker")
              (λ u v o. stale_is_not_owned w t worker u v a named stale o) (ground arith)
        | inl held ↦
            let (tok, presents, active) = holds-true (lookup worker a.checkouts) t held in
            publish_checked w t b d c worker tok a (record {
              serving = record { live = live; known = known };
              names_worker = named;
              names_token = presents;
              active = active;
            })
      ]
    ]
  ]

  -- What a completion comes to.
  pub data Completed (w t : Value X) (a : Actor D) (r : Result (Value X) × Actor D) : Type 0 where
    refused : (e : Exception) → r ≡ (err e, a) → Completed w t a r
    closed :
        (worker tok : String)
        → IsServing worker a
        → w ≡ str worker
        → lookup worker a.checkouts ≡ some tok
        → (t ≡ null) ⊎ (t ≡ str tok)
        → r ≡ (ok (plain_answer (settled worker a.domains a)), settled worker a.domains a)
        → Completed w t a r
    poisoned :
        (worker : String)
        → IsServing worker a
        → w ≡ str worker
        → lookup worker a.checkouts ≡ none
        → r ≡ (
          err (invalid "no shared pick_out is active"),
          record a {
            failure_reason = some (failure_text (invalid "no shared pick_out is active"));
          },
        )
        → Completed w t a r

  presents_active :
      (t : Value X) (active : String) → is_other t active ≡ false → (t ≡ null) ⊎ (t ≡ str active)
  presents_active null active h = inl refl
  presents_active (str s) active h = inr (ground (arith, same_iff active s))
  presents_active _ active h = cc

  -- A completion, with a token or with none, ends in one of three ways. It is refused and nothing
  -- has changed; or the registered worker had a checkout, presented its token or no token, and this
  -- checkout alone is closed; or the registered worker had no checkout, and the actor has failed.
  pub complete_outcomes :
      (w t : Value X) (a : Actor D) → Completed w t a (Methods.complete_pick_to_local lib w t a)
  unfolding Methods.complete_pick_to_local
  complete_outcomes w t a = elim (Option-cases a.failure_reason) [
    | inr (reason, failed) ↦ refused (exception actor_failed reason) (ground arith)
    | inl live ↦ elim (worker_cases w a) [
      | inr stranger ↦ refused unregistered (ground arith)
      | inl (worker, named, known) ↦
          let serving : IsServing worker a = record { live = live; known = known } in
          elim (Option-cases (lookup worker a.checkouts)) [
            | inl free ↦ poisoned worker serving named free (ground arith)
            | inr (tok, active) ↦ elim (Bool-cases (is_other t tok)) [
              | inl stale ↦
                  refused (invalid "checkout is stale or does not belong to worker") (ground arith)
              | inr current ↦
                  closed worker tok serving named active (presents_active t tok current)
                    (ground arith)
            ]
          ]
    ]
  ]

  -- A worker that completes its checkout with its token, and then completes it once more with the
  -- same token, fails the whole actor: the second call changes the state, it is not merely refused.
  pub complete_twice_poisons :
      (worker tok : String) (a : Actor D)
      → IsValid a
      → IsServing worker a
      → lookup worker a.checkouts ≡ some tok
      → let complete = Methods.complete_pruned lib (str worker) (str tok) in
        ((complete a).0 ≡ ok (plain_answer (settled worker a.domains a)))
        × ((complete (complete a).1).0 ≡ err (invalid "no shared pick_out is active"))
        × ((complete (complete a).1).1.failure_reason
            ≡ some (failure_text (invalid "no shared pick_out is active")))
  unfolding Methods.complete_pruned Methods.complete_pick_to_local
  complete_twice_poisons worker tok a v s active =
      let gone = lookup-erase worker worker a.checkouts v.distinct in
      let mine = (same_iff tok tok).1 refl in
      (
        ground (arith, s.live, s.known),
        ground (arith, s.live, s.known),
        ground (arith, s.live, s.known),
      )
