-- ===== src/Server/State.antt =====
-- The attributes of `BatchedDomainListActorServer`, and what it calls of nogil_rpc.
use freethreaded_dataplane.Common.{
  ℕ, ◌^◌, not, ◌&&◌, Option, none, some, List, ◌∷◌, String, if◌then◌else◌,
}
use freethreaded_dataplane.Common.Int.{ℤ, pos, ltb_ℤ}
use freethreaded_dataplane.Common.Text.{is_empty}
use freethreaded_dataplane.Errors.{Result, ok, err, exception, value_error, raise_if, ◌>>◌}
use freethreaded_dataplane.Exec.{Action, modify}
use freethreaded_dataplane.Python.{Value}
use freethreaded_dataplane.Types.Endpoint.{Endpoint}

-- What a server did to a runtime, a connection and an actor's handle.
pub data Event (X R P H : Type 0) : Type 0 where
  runtime_started : R → Event X R P H
  connected : P → Event X R P H
  actor_created : H → Event X R P H
  -- `actor.method.remote(*args).get(timeout=...)`
  called : H → String → List (Value X) → Event X R P H
  actor_closed : H → Event X R P H
  process_closed : P → Event X R P H
  runtime_stopped : R → Event X R P H

-- nogil_rpc and the domain list. How a call ends may depend on all that was done before.
pub record Rpc (X R P H : Type 0) : Type 0 where
  -- `RpcRuntime(host=..., port=..., max_frame_size=...)`, which opens nothing.
  pub new_runtime : String → ℤ → ℤ → List (Event X R P H) → Result R
  -- `runtime.start()`
  pub start_runtime : R → List (Event X R P H) → Result (Unit {0})
  -- `runtime.address`
  pub address : R → Result (String × ℤ)
  -- `str(port)` in the address to connect to.
  pub show : ℤ → String
  -- `connect(address, timeout=..., submission_timeout=..., max_frame_size=...)`
  pub connect : String → ℕ → ℤ → List (Event X R P H) → Result P
  -- `domains.to_bytes()`, if that can be called, and `pickle.dumps(domains)`
  pub to_bytes : Option (Result (List ℕ))
  pub pickled : Result (List ℕ)
  -- `process.BatchedDomainListActor.remote(payload, job_id, profile)`
  pub create : P → List ℕ → String → String → List (Event X R P H) → Result H
  pub actor_id : H → String
  pub get : H → String → List (Value X) → ℕ → List (Event X R P H) → Result (Value X)
  pub close_actor : H → List (Event X R P H) → Result (Unit {0})
  pub close_process : P → List (Event X R P H) → Result (Unit {0})
  pub stop_runtime : R → List (Event X R P H) → Result (Unit {0})

-- A float is known by its bits.
pub record Server (R P H : Type 0) : Type 0 where
  pub job_id : String
  pub bind_host : String
  pub port : ℤ
  pub advertise_host : String
  pub validation_profile : String
  pub request_timeout : ℕ
  pub max_frame_size : ℤ
  pub runtime : Option R
  pub owner_process : Option P
  pub owner_actor : Option H
  pub endpoint : Option Endpoint

-- The server, with all that it did, the last first.
pub record Host (X R P H : Type 0) : Type 0 where
  pub server : Server R P H
  pub events : List (Event X R P H)

-- `advertise_host or bind_host`
abbrev pub or_host : Option String → String → String
or_host none bind = bind
or_host (some host) bind = if is_empty host then bind else host

-- `__init__`; the codec and the lock are not part of the model's state.
unfoldable pub init :
    {R P H : Type 0} → String → String → ℤ → Option String → String → ℕ → ℤ → Result (Server R P H)
init job_id bind_host port advertise_host validation_profile request_timeout max_frame_size = do
  raise_if (is_empty job_id) (exception value_error "job_id must not be empty")
  raise_if (not (ltb_ℤ (pos 0) max_frame_size && ltb_ℤ max_frame_size (pos (2 ^ 32))))
      (exception value_error "max_frame_size must be between 1 and 2**32 - 1")
  ok (record {
    job_id = job_id;
    bind_host = bind_host;
    port = port;
    advertise_host = or_host advertise_host bind_host;
    validation_profile = validation_profile;
    request_timeout = request_timeout;
    max_frame_size = max_frame_size;
    runtime = none;
    owner_process = none;
    owner_actor = none;
    endpoint = none;
  })

module _ {X R P H : Type 0} where
  abbrev pub change : (Server R P H → Server R P H) → Action (Host X R P H) (Unit {0})
  change f = modify λ h. record h { server = f h.server }

  -- A call that is noted whether or not it raises.
  unfoldable pub effect :
      {A : Type 0} → Event X R P H → (List (Event X R P H) → Result A) → Action (Host X R P H) A
  effect event call h = (call h.events, record h { events = event ∷ h.events })

  -- A call that is not noted.
  abbrev pub observe : {A : Type 0} → (List (Event X R P H) → Result A) → Action (Host X R P H) A
  observe call h = (call h.events, h)

  -- A call that gives something that has to be released, which is noted when it is there.
  unfoldable pub acquire :
      {A : Type 0}
      → (A → Event X R P H)
      → (List (Event X R P H) → Result A)
      → Action (Host X R P H) A
  acquire event call h = elim (call h.events) [
    | ok a ↦ (ok a, record h { events = event a ∷ h.events })
    | err exc ↦ (err exc, h)
  ]
