-- ===== src/Server/Tests.antt =====
-- A server over a small nogil_rpc, whose connections may be refused.
use freethreaded_dataplane.Common.{
  ℕ, ◌≡◌, refl, ◌⊎◌, Bool, true, false, none, some, [], ◌∷◌, if◌then◌else◌,
}
use freethreaded_dataplane.Common.Int.{pos}
use freethreaded_dataplane.Errors.{ok, err, exception, runtime_error, connection_closed}
use freethreaded_dataplane.Python.{null}
use freethreaded_dataplane.Types.Endpoint.{Endpoint}
use freethreaded_dataplane.Server.State.{
  Rpc, Server, init, runtime_started, connected, actor_created, process_closed, runtime_stopped,
}
use freethreaded_dataplane.Server.Methods.{start, stop, mark_failed}
use freethreaded_dataplane.Server.Lifecycle.{
  Releases, Owned, RolledBack, start_outcomes, owning, host,
}

abbrev local : Bool → Rpc ℕ ℕ ℕ ℕ
local refuses = record {
  new_runtime = λ host port limit events. ok 1;
  start_runtime = λ r events. ok tt;
  address = λ r. ok ("0.0.0.0", pos 5000);
  show = λ port. "5000";
  connect = λ address timeout limit events. ok 2;
  to_bytes = none;
  pickled = ok [];
  create = λ p payload job profile events.
      if refuses then err (exception connection_closed "refused") else ok 3;
  actor_id = λ a. "actor-3";
  get = λ a method args timeout events. ok null;
  close_actor = λ a events. ok tt;
  close_process = λ p events. ok tt;
  stop_runtime = λ r events. ok tt;
}

releases : (refuses : Bool) → Releases (local refuses)
releases refuses = record {
  process_closes = λ p events. refl;
  runtime_stops = λ r events. refl;
  actor_closes = λ a events. refl;
}

abbrev server : Server ℕ ℕ ℕ
server = record {
  job_id = "job";
  bind_host = "127.0.0.1";
  port = pos 0;
  advertise_host = "127.0.0.1";
  validation_profile = "mapping";
  request_timeout = 0;
  max_frame_size = pos 1024;
  runtime = none;
  owner_process = none;
  owner_actor = none;
  endpoint = none;
}

abbrev endpoint : Endpoint
endpoint = record {
  host = "127.0.0.1";
  port = pos 5000;
  actor_id = "actor-3";
  job_id = "job";
  max_frame_size = pos 1024;
}

init_test : init "job" "127.0.0.1" (pos 0) (some "") "mapping" 0 (pos 1024) ≡ ok server
unfolding init
init_test = refl

start_test : start (local false) (host server []) ≡ (
  ok endpoint,
  host (owning server 1 2 3 endpoint) (actor_created 3 ∷ connected 2 ∷ runtime_started 1 ∷ []),
)
unfolding start
start_test = refl

refused_test : start (local true) (host server []) ≡ (
  err (exception connection_closed "refused"),
  host server (runtime_stopped 1 ∷ process_closed 2 ∷ connected 2 ∷ runtime_started 1 ∷ []),
)
unfolding start
refused_test = refl

-- A second start is refused, and a second stop does nothing.
again_test :
    (start (local false) (host (owning server 1 2 3 endpoint) []) ≡ (
      err (exception runtime_error "domain actor server is already started"),
      host (owning server 1 2 3 endpoint) [],
    ))
    × (stop (local false) (host server []) ≡ (ok tt, host server []))
    × (mark_failed (local false) "why" (host server [])
        ≡ (err (exception runtime_error "domain actor server is not started"), host server []))
unfolding start stop mark_failed
again_test = (refl, refl, refl)

start_outcomes_example :
    Owned (local true) (releases true) server [] ⊎ RolledBack (local true) (releases true) server []
start_outcomes_example = start_outcomes (local true) (releases true) server []
