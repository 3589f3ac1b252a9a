-- ===== src/InputActor/Protocol/Moves.antt =====
-- Each remote method of `InputDomainListActor` makes a move of the protocol, whatever values it is
-- called with and whatever the list of input splits answers.
use freethreaded_dataplane.Common.{
  ℕ, ◌≡◌, refl, sym, subst, inl, inr, true, Option, none, some, String, min, ◌==◌, arith,
  Option-cases, Bool-cases,
}
use freethreaded_dataplane.Common.Text.{◌<>◌, prefix}
use freethreaded_dataplane.Common.Dict.{lookup}
use freethreaded_dataplane.Common.Members.{member}
use freethreaded_dataplane.Errors.{Result-cases}
use freethreaded_dataplane.Python.{Value, Values, nil}
use freethreaded_dataplane.Actor.Init.{nonempty_text}
use freethreaded_dataplane.Actor.Methods.{is_text, positive}
use freethreaded_dataplane.InputActor.State.{InputActor, InputLibrary, failure_text}
use freethreaded_dataplane.InputActor.Methods
use freethreaded_dataplane.InputActor.Calls.{InputCall, input_step}
use freethreaded_dataplane.InputActor.Protocol.{
  InputMove, stay, join, lend, take_in, reorder, break, leave, abandon,
}
use freethreaded_dataplane.InputActor.Protocol.Guards.{worker_cases}
use freethreaded_dataplane.InputActor.Protocol.Settlement.{publish-Move, complete-Move}

-- The token that a call may hand out.
abbrev pub offers : {X : Type 0} → InputCall X → Option String
offers (InputCall.pick_out_batch t w n) = some t
offers _ = none

module _ {X D : Type 0} (lib : InputLibrary X D) where
  register_worker-Move :
      (w j : Value X) (a : InputActor D) → InputMove none a (Methods.register_worker lib w j a).1
  unfolding Methods.register_worker
  register_worker-Move w j a = elim (Option-cases a.failure) [
    | inr (reason, failed) ↦ stay (ground arith)
    | inl live ↦ elim (Option-cases (nonempty_text w)) [
      | inl e ↦ stay (ground arith)
      | inr (name, e) ↦ elim (Bool-cases (is_text j a.job_id)) [
        | inl same_job ↦ elim (Bool-cases (member name a.workers)) [
          | inl known ↦ stay (ground arith)
          | inr new ↦ join name live new (ground arith)
        ]
        | inr other_job ↦ stay (ground arith)
      ]
    ]
  ]

  pick_pending-Move :
      (t name : String) (n : ℕ) (a : InputActor D)
      → a.failure ≡ none
      → member name a.workers ≡ true
      → lookup name a.checkouts ≡ none
      → InputMove (some t) a (Methods.pick_pending lib t name n a).1
  unfolding Methods.pick_pending
  pick_pending-Move t name n a live known free =
      let picked = lib.pick_out_batch (min n (lib.size a.domains)) a.domains in
      elim (Bool-cases (lib.size a.domains == 0)) [
        | inl nothing ↦ stay (ground arith)
        | inr pending ↦ elim (Result-cases picked.0) [
          | inl (v, e) ↦ lend name t picked.1 refl live known free (ground arith)
          | inr (exc, e) ↦ break (failure_text exc) picked.1 live (ground arith)
        ]
      ]

  pick_out_batch-Move :
      (t : String) (w n : Value X) (a : InputActor D)
      → InputMove (some t) a (Methods.pick_out_batch lib t w n a).1
  unfolding Methods.pick_out_batch
  pick_out_batch-Move t w n a = elim (Option-cases a.failure) [
    | inr (reason, failed) ↦ stay (ground arith)
    | inl live ↦ elim (worker_cases lib w a) [
      | inr (e, refused) ↦ stay (ground arith)
      | inl (name, named, known) ↦ elim (Option-cases (positive n)) [
        | inl bad ↦ stay (ground arith)
        | inr (batch, good) ↦ elim (Option-cases (lookup name a.checkouts)) [
          | inr (active, held) ↦ stay (ground arith)
          | inl free ↦
              let same_call : Methods.pick_out_batch lib t w n a
                  ≡ Methods.pick_pending lib t name batch a =
                ground arith in
              subst (λ r. InputMove (some t) a r.1) (sym same_call)
                (pick_pending-Move t name batch a live known free)
        ]
      ]
    ]
  ]

  donate-Move :
      (w args kwargs : Value X) (a : InputActor D)
      → InputMove none a (Methods.donate lib w args kwargs a).1
  unfolding Methods.donate
  donate-Move w args kwargs a =
      let added = lib.add args kwargs a.domains in
      elim (Option-cases a.failure) [
        | inr (reason, failed) ↦ stay (ground arith)
        | inl live ↦ elim (worker_cases lib w a) [
          | inr (e, refused) ↦ stay (ground arith)
          | inl (name, named, known) ↦ elim (Option-cases (lookup name a.checkouts)) [
            | inr (active, held) ↦ stay (ground arith)
            | inl free ↦ elim (Result-cases added.0) [
              | inl (v, e) ↦ take_in name added.1 live known free (ground arith)
              | inr (exc, e) ↦ break (failure_text exc) added.1 live (ground arith)
            ]
          ]
        ]
      ]

  drop_worker-Move :
      (name reason : String) (a : InputActor D)
      → InputMove none a (Methods.drop_worker lib name reason a).1
  unfolding Methods.drop_worker
  drop_worker-Move name reason a = elim (Option-cases (lookup name a.checkouts)) [
    | inl free ↦ leave name (λ live. free) (ground arith)
    | inr (active, held) ↦ elim (Option-cases a.failure) [
      | inl live ↦ abandon name reason live (ground arith) (ground arith)
      | inr (before, failed) ↦ leave name (λ live. cc) (ground arith)
    ]
  ]

  close_worker-Move :
      (w : Value X) (a : InputActor D) → InputMove none a (Methods.close_worker lib w a).1
  unfolding Methods.close_worker
  close_worker-Move w a = elim (worker_cases lib w a) [
    | inr (e, refused) ↦ stay (ground arith)
    | inl (name, named, known) ↦
        let same_end : (Methods.close_worker lib w a).1
            ≡ (Methods.drop_worker lib name "worker closed with checked-out input domains" a).1 =
          ground arith in
        subst (InputMove none a) (sym same_end) (drop_worker-Move name _ a)
  ]

  worker_failed-Move :
      (w : Value X) (reason : String) (a : InputActor D)
      → InputMove none a (Methods.worker_failed lib w reason a).1
  unfolding Methods.worker_failed
  worker_failed-Move w reason a = elim (worker_cases lib w a) [
    | inr (e, refused) ↦ stay (ground arith)
    | inl (name, named, known) ↦
        let message =
          prefix 1000 ("worker " <> name <> " failed with checked-out input domains: " <> reason) in
        let same_end : (Methods.worker_failed lib w reason a).1
            ≡ (Methods.drop_worker lib name message a).1 =
          ground arith in
        subst (InputMove none a) (sym same_end) (drop_worker-Move name message a)
  ]

  fail-Move : (reason : String) (a : InputActor D) → InputMove none a (Methods.fail lib reason a).1
  unfolding Methods.fail
  fail-Move reason a = elim (Option-cases a.failure) [
    | inl live ↦ break (prefix 1000 reason) a.domains live (ground arith)
    | inr (before, failed) ↦ stay (ground arith)
  ]

  sort-Move : (a : InputActor D) → InputMove none a (Methods.sort lib a).1
  unfolding Methods.sort
  sort-Move a =
      let sorted = lib.sort a.domains in
      elim (Option-cases a.failure) [
        | inr (reason, failed) ↦ stay (ground arith)
        | inl live ↦ elim (Result-cases sorted.0) [
          | inl (u, e) ↦ reorder sorted.1 1 live (omega arith) (ground arith)
          | inr (exc, e) ↦ reorder sorted.1 0 live (omega arith) (ground arith)
        ]
      ]

  reads_stay :
      (name : String) (args : Values X) (a : InputActor D)
      → ((Methods.query lib name args a).1 ≡ a) × ((Methods.snapshot lib a).1 ≡ a)
  unfolding Methods.query Methods.snapshot
  reads_stay name args a = (ground arith, refl)

  -- Whatever values a remote call carries and whatever the list of input splits answers, the call
  -- leaves the actor as it was or makes one move of the checkout protocol, and the only token that
  -- it can hand out is its own.
  pub input_step-Move :
      (c : InputCall X) (a : InputActor D) → InputMove (offers c) a (input_step lib c a).1
  unfolding input_step
  input_step-Move (InputCall.register_worker w j) a = register_worker-Move w j a
  input_step-Move (InputCall.pick_out_batch t w n) a = pick_out_batch-Move t w n a
  input_step-Move (InputCall.publish w t args kwargs) a = publish-Move lib w t args kwargs a
  input_step-Move (InputCall.donate w args kwargs) a = donate-Move w args kwargs a
  input_step-Move (InputCall.complete w t) a = complete-Move lib w t a
  input_step-Move (InputCall.query name args) a = stay (reads_stay name args a).0
  input_step-Move InputCall.sort a = sort-Move a
  input_step-Move InputCall.snapshot a = stay (reads_stay "" nil a).1
  input_step-Move (InputCall.close_worker w) a = close_worker-Move w a
  input_step-Move (InputCall.worker_failed w reason) a = worker_failed-Move w reason a
  input_step-Move (InputCall.fail reason) a = fail-Move reason a
