-- ===== src/Actor/Leaving.antt =====
-- What happens to `BatchedDomainListActor` when a worker disconnects or is reported failed.
use freethreaded_dataplane.Common.{◌≡◌, ◌↔◌, inl, inr, false, none, String, arith, Option-cases}
use freethreaded_dataplane.Common.Dict.{lookup}
use freethreaded_dataplane.Common.Members.{member, member-discard}
use freethreaded_dataplane.Python.{str}
use freethreaded_dataplane.Library.{Library}
use freethreaded_dataplane.Actor.State.{Actor}
use freethreaded_dataplane.Actor.Methods
use freethreaded_dataplane.Actor.Checkout.{IsServing}

-- The worker is gone, its work is still where it was, and the actor fails exactly if the worker had
-- work checked out.
pub record Leaves {D : Type 0} (worker : String) (a b : Actor D) : Type 0 where
  pub gone : member worker b.registered_workers ≡ false
  pub fails : (b.failure_reason ≡ none) ↔ (lookup worker a.checkouts ≡ none)
  pub domains : b.domains ≡ a.domains
  pub checkouts : b.checkouts ≡ a.checkouts

module _ {X D : Type 0} (lib : Library X D) where
  -- When a registered worker of a running actor closes, the worker is no longer registered, the
  -- list and the checkouts stay as they were, and the actor fails exactly if the worker still had
  -- shared work checked out. An idle disconnect does not fail it.
  pub close_worker-Leaves :
      (worker : String) (a : Actor D)
      → IsServing worker a
      → Leaves worker a (Methods.close_worker lib (str worker) a).1
  unfolding Methods.close_worker
  close_worker-Leaves worker a s =
      let gone = member-discard worker worker a.registered_workers in
      elim (Option-cases (lookup worker a.checkouts)) [
        | inl free ↦ ground (arith, s.live, s.known, gone)
        | inr (token, held) ↦ ground (arith, s.live, s.known, gone)
      ]

  -- A report that a worker of a running actor failed has the same effect as its closing, whether or
  -- not the worker is registered.
  pub worker_failed-Leaves :
      (worker reason : String) (a : Actor D)
      → a.failure_reason ≡ none
      → Leaves worker a (Methods.worker_failed lib (str worker) reason a).1
  unfolding Methods.worker_failed
  worker_failed-Leaves worker reason a live =
      let gone = member-discard worker worker a.registered_workers in
      elim (Option-cases (lookup worker a.checkouts)) [
        | inl free ↦ ground (arith, gone)
        | inr (token, held) ↦ ground (arith, gone)
      ]
