-- ===== src/Actor/Protocol/Moves.antt =====
-- The methods of `BatchedDomainListActor` that hand shared work out or take it back make a move of
-- the protocol, whatever values they are called with and whatever the domain list answers.
use freethreaded_dataplane.Common.{
  ℕ, ◌+◌, ◌≡◌, refl, sym, ap, subst, ◌⊎◌, inl, inr, true, none, some, String, min, ◌==◌, arith,
  Option-cases, Bool-cases,
}
use freethreaded_dataplane.Common.Dict.{lookup}
use freethreaded_dataplane.Common.Members.{member}
use freethreaded_dataplane.Errors.{
  Exception, err, exception, domain_operation, actor_failed, Result-cases,
}
use freethreaded_dataplane.Python.{Value, str}
use freethreaded_dataplane.Library.{Library}
use freethreaded_dataplane.Types.Read.{as_bool}
use freethreaded_dataplane.Actor.Init.{nonempty_text}
use freethreaded_dataplane.Actor.State.{Actor, invalid, holds, failure_text, unregistered}
use freethreaded_dataplane.Actor.Methods
use freethreaded_dataplane.Actor.Methods.{positive, is_text, is_other}
use freethreaded_dataplane.Actor.Protocol.{Move, stay, join, lend, settle, break}
use freethreaded_dataplane.Actor.Protocol.Guards.{worker_cases, validated_add_cases}

module _ {X D : Type 0} (lib : Library X D) where
  pub register_worker-Move :
      (w j : Value X) (a : Actor D) → Move none a (Methods.register_worker lib w j a).1
  unfolding Methods.register_worker
  register_worker-Move w j a = elim (Option-cases a.failure_reason) [
    | inr (reason, failed) ↦ stay (ground arith)
    | inl live ↦ elim (Option-cases (nonempty_text w)) [
      | inl e ↦ stay (ground arith)
      | inr (worker, e) ↦ elim (Bool-cases (is_text j a.job_id)) [
        | inl same_job ↦ elim (Bool-cases (member worker a.registered_workers)) [
          | inl known ↦ stay (ground arith)
          | inr new ↦ join worker live new (ground arith)
        ]
        | inr other_job ↦ stay (ground arith)
      ]
    ]
  ]

  pick_pending-Move :
      (t worker : String) (n : ℕ) (a : Actor D)
      → a.failure_reason ≡ none
      → member worker a.registered_workers ≡ true
      → lookup worker a.checkouts ≡ none
      → Move (some t) a (Methods.pick_pending lib t worker n a).1
  unfolding Methods.pick_pending
  pick_pending-Move t worker n a live known free =
      let picked = lib.pick_out (min n (lib.size a.domains)) a.domains in
      elim (Bool-cases (lib.size a.domains == 0)) [
        | inl nothing ↦ stay (ground arith)
        | inr pending ↦ elim (Result-cases picked.0) [
          | inl (v, e) ↦ lend worker t picked.1 refl live known free (ground arith)
          | inr (exc, e) ↦
              break (failure_text (exception domain_operation "BatchedDomainList.pick_out failed"))
                picked.1 a.version live (inl refl) (ground arith)
        ]
      ]

  pub pick_out-Move :
      (t : String) (w n : Value X) (a : Actor D) → Move (some t) a (Methods.pick_out lib t w n a).1
  unfolding Methods.pick_out
  pick_out-Move t w n a = elim (Option-cases a.failure_reason) [
    | inr (reason, failed) ↦ stay (ground arith)
    | inl live ↦ elim (worker_cases w a) [
      | inr refused ↦ stay (ground arith)
      | inl (worker, e, known) ↦ elim (Option-cases (positive n)) [
        | inl bad ↦
            break (failure_text (invalid "batch_size must be a positive integer")) a.domains
              a.version live (inl refl) (ground arith)
        | inr (batch, good) ↦ elim (Option-cases (lookup worker a.checkouts)) [
          | inl free ↦
              let same_call : Methods.pick_out lib t w n a
                  ≡ Methods.pick_pending lib t worker batch a =
                ground arith in
              subst (λ r. Move (some t) a r.1) (sym same_call)
                (pick_pending-Move t worker batch a live known free)
          | inr (active, held) ↦
              break
                (failure_text
                  (invalid "complete the active shared checkout before another pick_out"))
                a.domains a.version live (inl refl) (ground arith)
        ]
      ]
    ]
  ]

  pub add-Move : (w b d c : Value X) (a : Actor D) → Move none a (Methods.add lib w b d c a).1
  unfolding Methods.add
  add-Move w b d c a = elim (Option-cases a.failure_reason) [
    | inr (reason, failed) ↦ stay (ground arith)
    | inl live ↦ elim (worker_cases w a) [
      | inr refused ↦ stay (ground arith)
      | inl (worker, e, known) ↦ elim (Option-cases (as_bool c)) [
        | inl bad ↦
            break (failure_text (invalid "check_infeasibility must be a boolean")) a.domains
              a.version live (inl refl) (ground arith)
        | inr (check, good) ↦
            let (r, left, added) = validated_add_cases lib b d check a in
            elim (Result-cases r) [
              | inl (lb, accepted) ↦ settle worker left live known (ground arith)
              | inr (exc, refused) ↦
                  break (failure_text (exception domain_operation "BatchedDomainList.add failed"))
                    left a.version live (inl refl) (ground arith)
            ]
      ]
    ]
  ]

  pub publish_children-Move :
      (w t b d c : Value X) (a : Actor D) → Move none a (Methods.publish_children lib w t b d c a).1
  unfolding Methods.publish_children
  publish_children-Move w t b d c a = elim (Option-cases a.failure_reason) [
    | inr (reason, failed) ↦ stay (ground arith)
    | inl live ↦ elim (worker_cases w a) [
      | inr refused ↦ stay (ground arith)
      | inl (worker, e, known) ↦ elim (Bool-cases (holds (lookup worker a.checkouts) t)) [
        | inr stale ↦ stay (ground arith)
        | inl held ↦ elim (Option-cases (as_bool c)) [
          | inl bad ↦ stay (ground arith)
          | inr (check, good) ↦
              let (r, left, added) = validated_add_cases lib b d check a in
              elim (Result-cases r) [
                | inl (lb, accepted) ↦ settle worker left live known (ground arith)
                | inr (exc, refused) ↦
                    break (failure_text (exception domain_operation "BatchedDomainList.add failed"))
                      left (a.version + 1) live (inr refl) (ground arith)
              ]
        ]
      ]
    ]
  ]

  -- A donation is refused with nothing changed, or it is an ADD.
  pub donate_cases :
      (w b d c : Value X) (a : Actor D)
      → ((e : Exception) × (Methods.donate lib w b d c a ≡ (err e, a)))
        ⊎ ((worker : String) × (w ≡ str worker)
            × (a.failure_reason ≡ none)
            × (member worker a.registered_workers ≡ true)
            × (lookup worker a.checkouts ≡ none)
            × (Methods.donate lib w b d c a ≡ Methods.add lib w b d c a))
  unfolding Methods.donate
  donate_cases w b d c a = elim (Option-cases a.failure_reason) [
    | inr (reason, failed) ↦ inl (exception actor_failed reason, ground arith)
    | inl live ↦ elim (worker_cases w a) [
      | inr refused ↦ inl (unregistered, ground arith)
      | inl (worker, e, known) ↦ elim (Option-cases (lookup worker a.checkouts)) [
        | inl free ↦ inr (worker, e, live, known, free, ground arith)
        | inr (active, held) ↦
            inl (invalid "donation is forbidden during a shared checkout", ground arith)
      ]
    ]
  ]

  pub donate-Move : (w b d c : Value X) (a : Actor D) → Move none a (Methods.donate lib w b d c a).1
  donate-Move w b d c a = elim (donate_cases w b d c a) [
    | inl (e, refused) ↦ stay (ap (λ r. r.1) refused)
    | inr (worker, e, live, known, free, same_call) ↦
        subst (λ r. Move none a r.1) (sym same_call) (add-Move w b d c a)
  ]

  pub complete_pick_to_local-Move :
      (w t : Value X) (a : Actor D) → Move none a (Methods.complete_pick_to_local lib w t a).1
  unfolding Methods.complete_pick_to_local
  complete_pick_to_local-Move w t a = elim (Option-cases a.failure_reason) [
    | inr (reason, failed) ↦ stay (ground arith)
    | inl live ↦ elim (worker_cases w a) [
      | inr refused ↦ stay (ground arith)
      | inl (worker, e, known) ↦ elim (Option-cases (lookup worker a.checkouts)) [
        | inl free ↦
            break (failure_text (invalid "no shared pick_out is active")) a.domains a.version live
              (inl refl) (ground arith)
        | inr (active, held) ↦ elim (Bool-cases (is_other t active)) [
          | inl stale ↦ stay (ground arith)
          | inr current ↦ settle worker a.domains live known (ground arith)
        ]
      ]
    ]
  ]
