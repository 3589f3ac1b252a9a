-- ===== src/Actor/Invariant.antt =====
-- The invariant of `BatchedDomainListActor`.
use freethreaded_dataplane.Common.{
  ◌≡◌, ◌≢◌, true, false, Option, none, List, [], ◌∷◌, String, arith,
}
use freethreaded_dataplane.Common.Text.{is_empty}
use freethreaded_dataplane.Common.Dict.{
  lookup, IsDistinct, lookup-insert, lookup-erase, insert-IsDistinct, erase-IsDistinct,
}
use freethreaded_dataplane.Common.Members.{member, member-include, member-discard}
use freethreaded_dataplane.Errors.{ok}
use freethreaded_dataplane.Python.{Value}
use freethreaded_dataplane.Library.{Library}
use freethreaded_dataplane.Actor.State.{Actor}
use freethreaded_dataplane.Actor.Init
use freethreaded_dataplane.Actor.Init.{Bootstrap}
use freethreaded_dataplane.Actor.Calls.{Call, step, run}
use freethreaded_dataplane.Actor.Protocol.{
  Move, stay, join, lend, settle, reorder, break, leave, abandon, tick,
}
use freethreaded_dataplane.Actor.Protocol.Steps.{step-Move}

-- The actor names a job, no worker has two checkouts, and while the actor runs every worker with a
-- checkout is registered.
pub record IsValid {D : Type 0} (a : Actor D) : Type 0 where
  pub named : is_empty a.job_id ≡ false
  pub distinct : IsDistinct a.checkouts
  pub held :
      a.failure_reason ≡ none
      → (w : String) → lookup w a.checkouts ≢ none
      → member w a.registered_workers ≡ true

module _ {D : Type 0} where
  pub Move-IsValid : {o : Option String} {a b : Actor D} → Move o a b → IsValid a → IsValid b
  Move-IsValid {o} {a} {b} (stay e) v = rw e v
  Move-IsValid {o} {a} {b} (join w live new e) v = rw e (record {
    named = v.named;
    distinct = v.distinct;
    held = λ r j h. ground (arith, v.held live j h, member-include j w a.registered_workers);
  })
  Move-IsValid {o} {a} {b} (lend w t d _ live known free e) v = rw e (record {
    named = v.named;
    distinct = insert-IsDistinct w t a.checkouts v.distinct;
    held = λ r j h. ground (arith, v.held live j, lookup-insert j w t a.checkouts);
  })
  Move-IsValid {o} {a} {b} (settle w d live known e) v = rw e (record {
    named = v.named;
    distinct = erase-IsDistinct w a.checkouts v.distinct;
    held = λ r j h. ground (arith, v.held live j, lookup-erase j w a.checkouts v.distinct);
  })
  Move-IsValid {o} {a} {b} (reorder d live e) v =
      rw e (record { named = v.named; distinct = v.distinct; held = v.held })
  Move-IsValid {o} {a} {b} (break reason d n live ns e) v =
      rw e (record { named = v.named; distinct = v.distinct; held = λ r. cc })
  Move-IsValid {o} {a} {b} (leave w free e) v = rw e (record {
    named = v.named;
    distinct = v.distinct;
    held = λ r j h. ground (arith, free r, v.held r j h, member-discard j w a.registered_workers);
  })
  Move-IsValid {o} {a} {b} (abandon w reason live held e) v =
      rw e (record { named = v.named; distinct = v.distinct; held = λ r. cc })
  Move-IsValid {o} {a} {b} (tick e) v =
      rw e (record { named = v.named; distinct = v.distinct; held = v.held })

module _ {X D : Type 0} (lib : Library X D) where
  pub step-IsValid : (c : Call X) (a : Actor D) → IsValid a → IsValid (step lib c a).1
  step-IsValid c a v = Move-IsValid (step-Move lib c a) v

  pub run-IsValid : (cs : List (Call X)) (a : Actor D) → IsValid a → IsValid (run lib cs a)
  unfolding run
  run-IsValid [] a v = v
  run-IsValid (c ∷ cs) a v = run-IsValid cs (step lib c a).1 (step-IsValid c a v)

  pub init-IsValid :
      (boot : Bootstrap D) (job_id profile : Value X) (a : Actor D)
      → Init.init lib boot job_id profile ≡ ok a
      → IsValid a
  unfolding Init.init lookup
  init-IsValid boot job_id profile a h = record {
    named = ground arith;
    distinct = ground arith;
    held = λ r w k. ground arith;
  }

  -- Whatever calls an actor that was constructed receives, and in whatever order, it names its job,
  -- no worker holds two checkouts, and while it has not failed every worker that holds one is
  -- registered.
  pub reachable-IsValid :
      (boot : Bootstrap D) (job_id profile : Value X) (a : Actor D) (cs : List (Call X))
      → Init.init lib boot job_id profile ≡ ok a
      → IsValid (run lib cs a)
  reachable-IsValid boot job_id profile a cs h =
      run-IsValid cs a (init-IsValid boot job_id profile a h)
