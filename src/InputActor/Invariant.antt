-- ===== src/InputActor/Invariant.antt =====
-- The invariant of `InputDomainListActor`, its version and its failure, over any run of calls.
use freethreaded_dataplane.Common.{
  ℕ, ◌+◌, ◌*◌, ◌≤◌, ◌≡◌, refl, ◌∙◌, ◌≢◌, true, false, Option, none, some, List, [], ◌∷◌, String,
  arith, length,
}
use freethreaded_dataplane.Common.Text.{is_empty}
use freethreaded_dataplane.Common.Dict.{
  lookup, IsDistinct, lookup-insert, lookup-erase, insert-IsDistinct, erase-IsDistinct,
}
use freethreaded_dataplane.Common.Members.{member, member-include, member-discard}
use freethreaded_dataplane.Errors.{ok}
use freethreaded_dataplane.Python.{Value}
use freethreaded_dataplane.InputActor.State.{InputActor, InputLibrary}
use freethreaded_dataplane.InputActor.Methods
use freethreaded_dataplane.InputActor.Calls.{InputCall, input_step, input_run}
use freethreaded_dataplane.InputActor.Protocol.{
  InputMove, stay, join, lend, take_in, settle, reorder, break, leave, abandon,
}
use freethreaded_dataplane.InputActor.Protocol.Moves.{input_step-Move}

-- The actor names a job, no worker has two checkouts, and while the actor runs every worker with a
-- checkout is registered.
pub record IsSound {D : Type 0} (a : InputActor D) : Type 0 where
  pub named : is_empty a.job_id ≡ false
  pub distinct : IsDistinct a.checkouts
  pub held :
      a.failure ≡ none → (w : String) → lookup w a.checkouts ≢ none → member w a.workers ≡ true

-- One move keeps a failure with the list and the checkouts as they are.
pub record Freezes {D : Type 0} (a b : InputActor D) : Type 0 where
  pub failure : b.failure ≡ a.failure
  pub domains : b.domains ≡ a.domains
  pub checkouts : b.checkouts ≡ a.checkouts

module _ {D : Type 0} where
  Move-IsSound : {o : Option String} {a b : InputActor D} → InputMove o a b → IsSound a → IsSound b
  Move-IsSound {o} {a} {b} (stay e) v = rw e v
  Move-IsSound {o} {a} {b} (join w live new e) v = rw e (record {
    named = v.named;
    distinct = v.distinct;
    held = λ r j h. ground (arith, v.held live j h, member-include j w a.workers);
  })
  Move-IsSound {o} {a} {b} (lend w t d _ live known free e) v = rw e (record {
    named = v.named;
    distinct = insert-IsDistinct w t a.checkouts v.distinct;
    held = λ r j h. ground (arith, v.held live j, lookup-insert j w t a.checkouts);
  })
  Move-IsSound {o} {a} {b} (take_in w d live known free e) v =
      rw e (record { named = v.named; distinct = v.distinct; held = v.held })
  Move-IsSound {o} {a} {b} (settle w t d n live known held ns e) v = rw e (record {
    named = v.named;
    distinct = erase-IsDistinct w a.checkouts v.distinct;
    held = λ r j h. ground (arith, v.held live j, lookup-erase j w a.checkouts v.distinct);
  })
  Move-IsSound {o} {a} {b} (reorder d n live ns e) v =
      rw e (record { named = v.named; distinct = v.distinct; held = v.held })
  Move-IsSound {o} {a} {b} (break reason d live e) v =
      rw e (record { named = v.named; distinct = v.distinct; held = λ r. cc })
  Move-IsSound {o} {a} {b} (leave w free e) v = rw e (record {
    named = v.named;
    distinct = v.distinct;
    held = λ r j h. ground (arith, free r, v.held r j h, member-discard j w a.workers);
  })
  Move-IsSound {o} {a} {b} (abandon w reason live held e) v =
      rw e (record { named = v.named; distinct = v.distinct; held = λ r. cc })

  Move-version :
      {o : Option String} {a b : InputActor D}
      → InputMove o a b
      → (a.version ≤ b.version) × (b.version ≤ a.version + 2)
  Move-version {o} {a} {b} (stay e) = ground arith
  Move-version {o} {a} {b} (join w live new e) = ground arith
  Move-version {o} {a} {b} (lend w t d _ live known free e) = ground arith
  Move-version {o} {a} {b} (take_in w d live known free e) = ground arith
  Move-version {o} {a} {b} (settle w t d n live known held ns e) = ground arith
  Move-version {o} {a} {b} (reorder d n live ns e) = ground arith
  Move-version {o} {a} {b} (break reason d live e) = ground arith
  Move-version {o} {a} {b} (leave w free e) = ground arith
  Move-version {o} {a} {b} (abandon w reason live held e) = ground arith

  Move-Freezes :
      {o : Option String} {a b : InputActor D} (r : String)
      → InputMove o a b
      → a.failure ≡ some r
      → Freezes a b
  Move-Freezes {o} {a} {b} r (stay e) f = ground arith
  Move-Freezes {o} {a} {b} r (join w live new e) f = ground arith
  Move-Freezes {o} {a} {b} r (lend w t d _ live known free e) f = ground arith
  Move-Freezes {o} {a} {b} r (take_in w d live known free e) f = ground arith
  Move-Freezes {o} {a} {b} r (settle w t d n live known held ns e) f = ground arith
  Move-Freezes {o} {a} {b} r (reorder d n live ns e) f = ground arith
  Move-Freezes {o} {a} {b} r (break reason d live e) f = ground arith
  Move-Freezes {o} {a} {b} r (leave w free e) f = ground arith
  Move-Freezes {o} {a} {b} r (abandon w reason live held e) f = ground arith

module _ {X D : Type 0} (lib : InputLibrary X D) where
  input_run-IsSound :
      (cs : List (InputCall X)) (a : InputActor D) → IsSound a → IsSound (input_run lib cs a)
  unfolding input_run
  input_run-IsSound [] a v = v
  input_run-IsSound (c ∷ cs) a v =
      input_run-IsSound cs (input_step lib c a).1 (Move-IsSound (input_step-Move lib c a) v)

  init-IsSound :
      (payload : List ℕ) (job_id : Value X) (a : InputActor D)
      → Methods.init lib payload job_id ≡ ok a
      → IsSound a
  unfolding Methods.init lookup
  init-IsSound payload job_id a h = record {
    named = ground arith;
    distinct = ground arith;
    held = λ r w k. ground arith;
  }

  -- Whatever calls an input actor that was constructed receives, and in whatever order, it names its
  -- job, no worker holds two checkouts, and while it has not failed every worker that holds one is
  -- registered.
  pub reachable-IsSound :
      (payload : List ℕ) (job_id : Value X) (a : InputActor D) (cs : List (InputCall X))
      → Methods.init lib payload job_id ≡ ok a
      → IsSound (input_run lib cs a)
  reachable-IsSound payload job_id a cs h = input_run-IsSound cs a (init-IsSound payload job_id a h)

  -- Over any calls the version of an input actor never falls, and it rises by at most two for each.
  pub input_version_bounds :
      (cs : List (InputCall X)) (a : InputActor D)
      → let z = input_run lib cs a in
        (a.version ≤ z.version) × (z.version ≤ a.version + 2 * length cs)
  unfolding input_run
  input_version_bounds [] a = omega arith
  input_version_bounds (c ∷ cs) a = omega (
    arith,
    Move-version (input_step-Move lib c a),
    input_version_bounds cs (input_step lib c a).1,
  )

  -- Once an input actor has failed, no run of calls changes the failure, the list or the checkouts.
  pub input_failure_sticky :
      (cs : List (InputCall X)) (a : InputActor D) (r : String)
      → a.failure ≡ some r
      → Freezes a (input_run lib cs a)
  unfolding input_run
  input_failure_sticky [] a r f = record { failure = refl; domains = refl; checkouts = refl }
  input_failure_sticky (c ∷ cs) a r f =
      let first = Move-Freezes r (input_step-Move lib c a) f in
      let rest = input_failure_sticky cs (input_step lib c a).1 r (first.failure ∙ f) in
      record {
        failure = rest.failure ∙ first.failure;
        domains = rest.domains ∙ first.domains;
        checkouts = rest.checkouts ∙ first.checkouts;
      }
