-- ===== src/Actor/Protocol/Steps.antt =====
-- Every remote call makes a move of the protocol, and a run of calls makes moves.
use freethreaded_dataplane.Common.{◌≡◌, refl, none}
use freethreaded_dataplane.Python.{Value}
use freethreaded_dataplane.Library.{Library}
use freethreaded_dataplane.Actor.State.{Actor}
use freethreaded_dataplane.Actor.Methods
use freethreaded_dataplane.Actor.Queries
use freethreaded_dataplane.Actor.Calls.{Call, offered, step}
use freethreaded_dataplane.Actor.Protocol.{Move, stay}
use freethreaded_dataplane.Actor.Protocol.Moves
use freethreaded_dataplane.Actor.Protocol.Departures

module _ {X D : Type 0} (lib : Library X D) where
  complete_pruned-Move :
      (w t : Value X) (a : Actor D) → Move none a (Methods.complete_pruned lib w t a).1
  unfolding Methods.complete_pruned
  complete_pruned-Move w t a = Moves.complete_pick_to_local-Move lib w t a

  reads_stay : (a : Actor D) → ((Queries.get_state lib a).1 ≡ a) × ((Queries.snapshot lib a).1 ≡ a)
  unfolding Queries.get_state Queries.snapshot
  reads_stay a = (refl, refl)

  -- Whatever values a remote call carries and whatever the domain list answers, the call leaves the
  -- actor as it was or makes one move of the checkout protocol, and the only token that it can hand
  -- out is its own.
  pub step-Move : (c : Call X) (a : Actor D) → Move (offered c) a (step lib c a).1
  unfolding step
  step-Move (Call.register_worker w j) a = Moves.register_worker-Move lib w j a
  step-Move (Call.pick_out t w n) a = Moves.pick_out-Move lib t w n a
  step-Move (Call.add w b d c) a = Moves.add-Move lib w b d c a
  step-Move (Call.publish_children w t b d c) a = Moves.publish_children-Move lib w t b d c a
  step-Move (Call.donate w b d c) a = Moves.donate-Move lib w b d c a
  step-Move (Call.complete_pick_to_local w t) a = Moves.complete_pick_to_local-Move lib w t a
  step-Move (Call.complete_pruned w t) a = complete_pruned-Move w t a
  step-Move (Call.close_worker w) a = Departures.close_worker-Move lib w a
  step-Move (Call.worker_failed w r) a = Departures.worker_failed-Move lib w r a
  step-Move (Call.fail r) a = Departures.fail-Move lib r a
  step-Move Call.get_state a = stay (reads_stay a).0
  step-Move Call.snapshot a = stay (reads_stay a).1
  step-Move Call.sort a = Departures.sort-Move lib a
  step-Move (Call.get_min_domain n r) a = stay (Departures.get_min_domain_same lib n r a)
  step-Move (Call.get_item i v) a = stay (Departures.get_item_same lib i v a)
