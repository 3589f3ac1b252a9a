-- ===== src/Actor/Failure.antt =====
-- A failed `BatchedDomainListActor` stays failed, and does no more work.
use freethreaded_dataplane.Common.{
  ◌≡◌, refl, ◌∙◌, Bool, true, false, Option, some, List, [], ◌∷◌, String, arith,
}
use freethreaded_dataplane.Errors.{err, exception, actor_failed}
use freethreaded_dataplane.Library.{Library}
use freethreaded_dataplane.Actor.State.{Actor}
use freethreaded_dataplane.Actor.Methods
use freethreaded_dataplane.Actor.Queries
use freethreaded_dataplane.Actor.Calls.{Call, step, run}
use freethreaded_dataplane.Actor.Protocol.{
  Move, stay, join, lend, settle, reorder, break, leave, abandon, tick,
}
use freethreaded_dataplane.Actor.Protocol.Steps.{step-Move}

-- The reason, the list and the checkouts are those of before.
pub record IsFrozen {D : Type 0} (a b : Actor D) : Type 0 where
  pub reason : b.failure_reason ≡ a.failure_reason
  pub domains : b.domains ≡ a.domains
  pub checkouts : b.checkouts ≡ a.checkouts

module _ {D : Type 0} where
  Move-IsFrozen :
      {o : Option String} {a b : Actor D} (r : String)
      → Move o a b
      → a.failure_reason ≡ some r
      → IsFrozen a b
  Move-IsFrozen {o} {a} {b} r (stay e) f = ground arith
  Move-IsFrozen {o} {a} {b} r (join w live new e) f = ground arith
  Move-IsFrozen {o} {a} {b} r (lend w t d _ live known free e) f = ground arith
  Move-IsFrozen {o} {a} {b} r (settle w d live known e) f = ground arith
  Move-IsFrozen {o} {a} {b} r (reorder d live e) f = ground arith
  Move-IsFrozen {o} {a} {b} r (break reason d n live ns e) f = ground arith
  Move-IsFrozen {o} {a} {b} r (leave w free e) f = ground arith
  Move-IsFrozen {o} {a} {b} r (abandon w reason live held e) f = ground arith
  Move-IsFrozen {o} {a} {b} r (tick e) f = ground arith

-- The calls that a failed actor still serves.
abbrev pub reports : {X : Type 0} → Call X → Bool
reports (Call.close_worker w) = true
reports (Call.worker_failed w r) = true
reports (Call.fail r) = true
reports Call.get_state = true
reports Call.snapshot = true
reports _ = false

module _ {X D : Type 0} (lib : Library X D) where
  -- Once the actor has failed, no run of calls changes the failure reason, the domain list or the
  -- checkouts: the failure is sticky and no work is handed out or taken back.
  pub failure_sticky :
      (cs : List (Call X)) (a : Actor D) (r : String)
      → a.failure_reason ≡ some r
      → IsFrozen a (run lib cs a)
  unfolding run
  failure_sticky [] a r f = record { reason = refl; domains = refl; checkouts = refl }
  failure_sticky (c ∷ cs) a r f =
      let first = Move-IsFrozen r (step-Move lib c a) f in
      let rest = failure_sticky cs (step lib c a).1 r (first.reason ∙ f) in
      record {
        reason = rest.reason ∙ first.reason;
        domains = rest.domains ∙ first.domains;
        checkouts = rest.checkouts ∙ first.checkouts;
      }

  -- A failed actor answers every call but the worker reports, `fail`, `state` and `snapshot` with
  -- an `ActorFailedError` that carries the reason, and changes nothing.
  pub failed_refuses :
      (c : Call X) (a : Actor D) (r : String)
      → a.failure_reason ≡ some r
      → reports c ≡ false
      → step lib c a ≡ (err (exception actor_failed r), a)
  unfolding step Methods.register_worker Methods.pick_out Methods.add Methods.publish_children
      Methods.donate Methods.complete_pruned Methods.complete_pick_to_local Queries.sort
      Queries.get_min_domain Queries.get_item
  failed_refuses (Call.close_worker w) a r f h = cc
  failed_refuses (Call.worker_failed w s) a r f h = cc
  failed_refuses (Call.fail s) a r f h = cc
  failed_refuses Call.get_state a r f h = cc
  failed_refuses Call.snapshot a r f h = cc
  failed_refuses _ a r f h = ground arith
