-- ===== src/Server/Methods.antt =====
-- The methods of `BatchedDomainListActorServer`.
use freethreaded_dataplane.Common.{
  ℕ, not, ◌||◌, Option, none, some, List, [], ◌∷◌, String, if◌then◌else◌, is_none,
}
use freethreaded_dataplane.Common.Text.{◌<>◌, same}
use freethreaded_dataplane.Errors.{
  Exception, Result, exception, runtime_error, type_error, key_error,
}
use freethreaded_dataplane.Exec.{
  Action, pure, raise, gets, raise_if, of_result, or_raise, catch, ◌>>=◌, ◌>>◌,
}
use freethreaded_dataplane.Python.{Value, Entries, str, get_field}
use freethreaded_dataplane.Facade.Session.{as_dict}
use freethreaded_dataplane.Types.Read.{invalid}
use freethreaded_dataplane.Types.Endpoint
use freethreaded_dataplane.Types.Endpoint.{Endpoint}
use freethreaded_dataplane.Types.State
use freethreaded_dataplane.Types.State.{State}
use freethreaded_dataplane.Types.Snapshot
use freethreaded_dataplane.Types.Snapshot.{Snapshot}
use freethreaded_dataplane.Server.State.{
  Rpc, Host, change, effect, observe, acquire, runtime_started, connected, actor_created, called,
  actor_closed, process_closed, runtime_stopped,
}

module _ {X R P H : Type 0} (rpc : Rpc X R P H) where
  -- `_bootstrap_bytes`
  abbrev pub bootstrap_bytes : Result (List ℕ)
  bootstrap_bytes = elim rpc.to_bytes [ none ↦ rpc.pickled | some bytes ↦ bytes ]

  abbrev pub close_actor : H → Action (Host X R P H) (Unit {0})
  close_actor actor = effect (actor_closed actor) (rpc.close_actor actor)

  abbrev pub close_process : P → Action (Host X R P H) (Unit {0})
  close_process process = effect (process_closed process) (rpc.close_process process)

  abbrev pub stop_runtime : R → Action (Host X R P H) (Unit {0})
  stop_runtime runtime = effect (runtime_stopped runtime) (rpc.stop_runtime runtime)

  -- `if x is not None: ...`
  abbrev pub if_there :
      {A : Type 0}
      → Option A
      → (A → Action (Host X R P H) (Unit {0}))
      → Action (Host X R P H) (Unit {0})
  if_there none f = pure tt
  if_there (some a) f = f a

  -- The `except` clause of `start`, with what is there by then.
  unfoldable pub undo : {A : Type 0} → Option H → Option P → R → Exception → Action (Host X R P H) A
  unfolding effect
  undo actor process runtime exc = do
    if_there actor close_actor
    if_there process close_process
    stop_runtime runtime
    change (λ s. record s { runtime = none })
    raise exc

  -- `"127.0.0.1"` for a runtime that listens on every address.
  abbrev pub connect_host : String → String
  connect_host host = if same host "0.0.0.0" || same host "::" then "127.0.0.1" else host

  -- The body of the `try` in `start`: each step with the handler as it is at that step.
  unfoldable pub own : R → Action (Host X R P H) (P × H × Endpoint)
  unfolding acquire undo same Endpoint.post_init
  own runtime = do
    server ← gets (λ h. h.server)
    (host, port) ← catch (of_result (rpc.address runtime)) (undo none none runtime)
    process ←
        catch
          (acquire connected (
            rpc.connect (connect_host host <> ":" <> rpc.show port) server.request_timeout
              server.max_frame_size))
          (undo none none runtime)
    actor ←
        catch
          (of_result bootstrap_bytes >>= λ payload.
            acquire actor_created
              (rpc.create process payload server.job_id server.validation_profile))
          (undo none (some process) runtime)
    endpoint ←
        catch
          (of_result (
            Endpoint.post_init (record {
              host = server.advertise_host;
              port = port;
              actor_id = rpc.actor_id actor;
              job_id = server.job_id;
              max_frame_size = server.max_frame_size;
            })))
          (undo (some actor) (some process) runtime)
    pure (process, actor, endpoint)

  unfoldable pub start : Action (Host X R P H) Endpoint
  unfolding own
  start = do
    server ← gets (λ h. h.server)
    raise_if (not (is_none server.runtime))
        (exception runtime_error "domain actor server is already started")
    runtime ← observe (rpc.new_runtime server.bind_host server.port server.max_frame_size)
    acquire (λ done. runtime_started runtime) (rpc.start_runtime runtime)
    change (λ s. record s { runtime = some runtime })
    (process, actor, endpoint) ← own runtime
    change (λ s. record s {
      owner_process = some process;
      owner_actor = some actor;
      endpoint = some endpoint;
    })
    pure endpoint

  -- `_actor`
  unfoldable pub owned_actor : Action (Host X R P H) H
  owned_actor = do
    actor ← gets (λ h. h.server.owner_actor)
    or_raise actor (exception runtime_error "domain actor server is not started")

  unfoldable pub call : String → List (Value X) → Action (Host X R P H) (Value X)
  unfolding owned_actor effect
  call method args = do
    actor ← owned_actor
    timeout ← gets (λ h. h.server.request_timeout)
    effect (called actor method args) (rpc.get actor method args timeout)

  -- A record of a value, which the decoders refuse if it is no dictionary.
  abbrev pub decoded : {A : Type 0} → (Entries X → Result A) → Value X → Action (Host X R P H) A
  decoded from_dict value = do
    d ← or_raise (as_dict value) (invalid "invalid shared-domain-list state")
    of_result (from_dict d)

  unfoldable pub state : Action (Host X R P H) State
  unfolding call State.from_dict
  state = do value ← call "state" []; decoded State.from_dict value

  unfoldable pub mark_failed : String → Action (Host X R P H) State
  unfolding call State.from_dict
  mark_failed reason = do value ← call "fail" (str reason ∷ []); decoded State.from_dict value

  unfoldable pub snapshot : Action (Host X R P H) Snapshot
  unfolding call Snapshot.from_dict
  snapshot = do value ← call "snapshot" []; decoded Snapshot.from_dict value

  unfoldable pub worker_failed : String → String → Action (Host X R P H) State
  unfolding call State.from_dict
  worker_failed worker_id reason = do
    response ← call "worker_failed" (str worker_id ∷ str reason ∷ [])
    d ← or_raise (as_dict response) (exception type_error "response is not subscriptable by a text")
    value ← or_raise (get_field "state" d) (exception key_error "'state'")
    decoded State.from_dict value

  unfoldable pub stop : Action (Host X R P H) (Unit {0})
  unfolding effect
  stop = do
    server ← gets (λ h. h.server)
    change (λ s. record s {
      owner_actor = none;
      owner_process = none;
      runtime = none;
      endpoint = none;
    })
    if_there server.owner_actor (λ actor. catch (close_actor actor) (λ exc. pure tt))
    if_there server.owner_process close_process
    if_there server.runtime stop_runtime
