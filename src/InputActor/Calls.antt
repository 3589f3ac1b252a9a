-- ===== src/InputActor/Calls.antt =====
-- A remote call of `InputDomainListActor` as a value, and runs of calls, which the actor's executor
-- makes one at a time.
use freethreaded_dataplane.Common.{List, [], ◌∷◌, String}
use freethreaded_dataplane.Errors.{Result}
use freethreaded_dataplane.Python.{Value, Values}
use freethreaded_dataplane.InputActor.State.{InputActor, InputLibrary}
use freethreaded_dataplane.InputActor.Methods

-- `pick_out_batch` also has the token that `uuid4()` will give.
pub data InputCall (X : Type 0) : Type 0 where
  register_worker : (worker_id job_id : Value X) → InputCall X
  pick_out_batch : (token : String) (worker_id batch_size : Value X) → InputCall X
  publish : (worker_id token args kwargs : Value X) → InputCall X
  donate : (worker_id args kwargs : Value X) → InputCall X
  complete : (worker_id token : Value X) → InputCall X
  query : (name : String) (args : Values X) → InputCall X
  sort snapshot : InputCall X
  close_worker : (worker_id : Value X) → InputCall X
  worker_failed : (worker_id : Value X) (reason : String) → InputCall X
  fail : (reason : String) → InputCall X

module _ {X D : Type 0} (lib : InputLibrary X D) where
  unfoldable pub input_step : InputCall X → InputActor D → Result (Value X) × InputActor D
  input_step (register_worker w j) a = Methods.register_worker lib w j a
  input_step (pick_out_batch t w n) a = Methods.pick_out_batch lib t w n a
  input_step (publish w t args kwargs) a = Methods.publish lib w t args kwargs a
  input_step (donate w args kwargs) a = Methods.donate lib w args kwargs a
  input_step (complete w t) a = Methods.complete lib w t a
  input_step (query name args) a = Methods.query lib name args a
  input_step sort a = Methods.sort lib a
  input_step snapshot a = Methods.snapshot lib a
  input_step (close_worker w) a = Methods.close_worker lib w a
  input_step (worker_failed w reason) a = Methods.worker_failed lib w reason a
  input_step (fail reason) a = Methods.fail lib reason a

  -- The actor after a list of calls.
  unfoldable pub input_run : List (InputCall X) → InputActor D → InputActor D
  input_run [] a = a
  input_run (c ∷ cs) a = input_run cs (input_step c a).1
