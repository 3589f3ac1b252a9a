-- ===== src/Facade/Session.antt =====
-- The state of `RpcBatchedDomainList`, and a remote call with what it does to that state.
use freethreaded_dataplane.Common.{Bool, true, false, ◌||◌, not, Option, none, some, List, String}
use freethreaded_dataplane.Common.Text.{◌<>◌}
use freethreaded_dataplane.Errors.{
  Exception, Result, ok, exception, actor_failed, protocol, data_plane_cancelled,
  remote_data_plane_error,
}
use freethreaded_dataplane.Exec.{Action, pure, raise, gets, modify, raise_if, or_raise, ◌>>=◌, ◌>>◌}
use freethreaded_dataplane.Python.{Value, Entries, dict, get_or_null}
use freethreaded_dataplane.Actor.Methods.{is_text}

-- How a remote call ends: with a value, with a `RemoteError` that the actor raised, with another
-- `RpcError`, or with any other exception.
pub data Reply (X : Type 0) : Type 0 where
  returned : (value : Value X) → Reply X
  remote_error : (error_type message : String) → Reply X
  rpc_error : (message : String) → Reply X
  raised : (exc : Exception) → Reply X

-- The other side of the connection, and the stop event, in a state of their own.
pub record Remote (X W : Type 0) : Type 0 where
  -- `getattr(actor, method).remote(*args).get(timeout=...)`
  pub call : String → List (Value X) → W → Reply X × W
  -- `stop_event is not None and stop_event.is_set()`
  pub is_stopped : W → Bool
  -- `actor.close()` and `process.close()`
  pub close_actor : W → Result (Unit {0}) × W
  pub close_process : W → Result (Unit {0}) × W
  -- `codec.map_tensors(value, lambda tensor: tensor.to(device))`
  pub to_device : Value X → Value X → Result (Value X)

pub record Client : Type 0 where
  pub has_checked_out_batch : Bool
  pub checkout : Option String
  pub closed : Bool
  pub broken : Bool

pub record Session (W : Type 0) : Type 0 where
  pub client : Client
  pub world : W

module _ {W : Type 0} where
  abbrev pub change : (Client → Client) → Action (Session W) (Unit {0})
  change f = modify λ s. record s { client = f s.client }

  abbrev pub break_with : {A : Type 0} → Exception → Action (Session W) A
  break_with exc = do change (λ c. record c { broken = true }); raise exc

  -- A value, or the exception and a broken client.
  abbrev pub or_break : {A : Type 0} → Option A → Exception → Action (Session W) A
  or_break none exc = break_with exc
  or_break (some a) exc = pure a

  -- The checkout is closed.
  abbrev pub settle : Action (Session W) (Unit {0})
  settle = change λ c. record c { has_checked_out_batch = false; checkout = none }

module _ {W : Type 0} where
  -- A call on the other side that can end in an exception.
  abbrev pub on_world : {A : Type 0} → (W → Result A × W) → Action (Session W) A
  on_world f s = let (r, w) = f s.world in (r, record s { world = w })

module _ {X W : Type 0} (remote : Remote X W) where
  -- `_check_available`
  unfoldable pub check_available : Action (Session W) (Unit {0})
  check_available = do
    unusable ← gets (λ s. s.client.closed || s.client.broken)
    raise_if unusable (exception actor_failed "data-plane client is closed or broken")
    stopped ← gets (λ s. remote.is_stopped s.world)
    raise_if stopped (exception data_plane_cancelled "control-plane cancellation is set")

  -- The `except` clauses of `_call`.
  abbrev pub accept : Reply X → Action (Session W) (Value X)
  accept (returned value) = pure value
  accept (remote_error error_type message) =
      break_with (remote_data_plane_error error_type message true)
  accept (rpc_error message) =
      break_with (exception actor_failed ("domain RPC failed: " <> message))
  accept (raised exc) = break_with exc

  -- `_call`
  unfoldable pub call : String → List (Value X) → Action (Session W) (Value X)
  unfolding check_available
  call method args = do
    check_available
    reply ← λ s. let (r, w) = remote.call method args s.world in (ok r, record s { world = w })
    accept reply

module _ {X : Type 0} where
  abbrev pub as_dict : Value X → Option (Entries X)
  as_dict (dict d) = some d
  as_dict _ = none

  -- `response.get("status") == status`
  abbrev pub has_status : String → Entries X → Bool
  has_status status d = is_text (get_or_null "status" d) status

  -- `_require_response`
  unfoldable pub require_response : {W : Type 0} → Value X → String → Action (Session W) (Entries X)
  require_response response status = do
    let malformed = exception protocol "malformed domain actor response"
    d ← or_raise (as_dict response) malformed
    raise_if (not (has_status status d)) malformed
    pure d
