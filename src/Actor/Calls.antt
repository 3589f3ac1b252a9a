-- ===== src/Actor/Calls.antt =====
-- A remote call of `BatchedDomainListActor` as a value, and runs of calls. The actor's executor
-- runs one call at a time, so what several workers do is a list of calls.
use freethreaded_dataplane.Common.{Option, none, some, List, [], ◌∷◌, String}
use freethreaded_dataplane.Errors.{Result}
use freethreaded_dataplane.Python.{Value}
use freethreaded_dataplane.Library.{Library}
use freethreaded_dataplane.Actor.State.{Actor}
use freethreaded_dataplane.Actor.Methods
use freethreaded_dataplane.Actor.Queries

-- The remote methods with their arguments; `pick_out` also has the token that `uuid4()` will give.
pub data Call (X : Type 0) : Type 0 where
  register_worker : (worker_id job_id : Value X) → Call X
  pick_out : (token : String) (worker_id batch_size : Value X) → Call X
  add : (worker_id bounds domain_data check_infeasibility : Value X) → Call X
  publish_children : (worker_id checkout bounds domain_data check_infeasibility : Value X) → Call X
  donate : (worker_id bounds domain_data check_infeasibility : Value X) → Call X
  complete_pick_to_local : (worker_id checkout : Value X) → Call X
  complete_pruned : (worker_id checkout : Value X) → Call X
  close_worker : (worker_id : Value X) → Call X
  worker_failed : (worker_id : Value X) (reason : String) → Call X
  fail : (reason : String) → Call X
  get_state snapshot sort : Call X
  get_min_domain : (num rev_order : Value X) → Call X
  get_item : (index version : Value X) → Call X

-- The token that a call may hand out.
abbrev pub offered : {X : Type 0} → Call X → Option String
offered (pick_out t w n) = some t
offered _ = none

module _ {X D : Type 0} (lib : Library X D) where
  unfoldable pub step : Call X → Actor D → Result (Value X) × Actor D
  step (register_worker w j) a = Methods.register_worker lib w j a
  step (pick_out t w n) a = Methods.pick_out lib t w n a
  step (add w b d c) a = Methods.add lib w b d c a
  step (publish_children w t b d c) a = Methods.publish_children lib w t b d c a
  step (donate w b d c) a = Methods.donate lib w b d c a
  step (complete_pick_to_local w t) a = Methods.complete_pick_to_local lib w t a
  step (complete_pruned w t) a = Methods.complete_pruned lib w t a
  step (close_worker w) a = Methods.close_worker lib w a
  step (worker_failed w r) a = Methods.worker_failed lib w r a
  step (fail r) a = Methods.fail lib r a
  step get_state a = Queries.get_state lib a
  step snapshot a = Queries.snapshot lib a
  step sort a = Queries.sort lib a
  step (get_min_domain n r) a = Queries.get_min_domain lib n r a
  step (get_item i v) a = Queries.get_item lib i v a

  -- The actor after a list of calls.
  unfoldable pub run : List (Call X) → Actor D → Actor D
  run [] a = a
  run (c ∷ cs) a = run cs (step c a).1
