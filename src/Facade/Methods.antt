-- ===== src/Facade/Methods.antt =====
-- The methods of `RpcBatchedDomainList` that change or read its checkout, with the worker's id and
-- device as section parameters.
use freethreaded_dataplane.Common.{
  Bool, true, false, ◌||◌, not, some, [], ◌∷◌, String, is_none, if◌then◌else◌,
}
use freethreaded_dataplane.Errors.{
  Exception, exception, value_error, type_error, protocol, invalid_state,
}
use freethreaded_dataplane.Exec.{Action, pure, gets, when, catch, raise_if, of_result, ◌>>=◌, ◌>>◌}
use freethreaded_dataplane.Python.{Value, Entries, dict, null, str, get_or_null, optional_text}
use freethreaded_dataplane.Types.Read.{as_bool}
use freethreaded_dataplane.Actor.Init.{nonempty_text}
use freethreaded_dataplane.Actor.Methods.{positive}
use freethreaded_dataplane.InputActor.State.{matches}
use freethreaded_dataplane.Facade.Session.{
  Remote, Client, Session, on_world, change, or_break, settle, call, as_dict, has_status,
  require_response,
}

-- `value is None`
abbrev pub is_null : {X : Type 0} → Value X → Bool
is_null null = true
is_null _ = false

abbrev invalid : String → Exception
invalid = exception invalid_state

module _ {X W : Type 0} (remote : Remote X W) (worker_id : String) (device : Value X) where
  -- `pick_out` on the dictionary that the actor answered with, when it is not "empty".
  unfoldable pub receive : Entries X → Value X → Action (Session W) (Value X)
  unfolding require_response
  receive response target = do
    d ← require_response (dict response) "data"
    domains ←
        or_break (as_dict (get_or_null "domains" d))
          (exception protocol "pick_out domains must be a dictionary")
    change (λ c. record c { has_checked_out_batch = true })
    token ←
        or_break (nonempty_text (get_or_null "checkout" d))
          (exception protocol "pick_out checkout identity is missing")
    change (λ c. record c { checkout = some token })
    of_result (remote.to_device (dict domains) target)

  unfoldable pub pick_out : Value X → Value X → Action (Session W) (Value X)
  unfolding call receive
  pick_out batch target = do
    raise_if (is_none (positive batch)) (exception value_error "batch must be positive")
    raise_if (← gets (λ s. s.client.has_checked_out_batch))
        (invalid "add or complete_pick_to_local is required before pick_out")
    answer ← call remote "pick_out" (str worker_id ∷ batch ∷ [])
    response ← or_break (as_dict answer) (exception protocol "malformed pick_out response")
    if has_status "empty" response
        then pure null
        else receive response (if is_null target then device else target)

  unfoldable pub add : Value X → Value X → Value X → Action (Session W) (Value X)
  unfolding call require_response
  add bounds d check = do
    raise_if (is_none (as_bool check)) (exception type_error "check_infeasibility must be bool")
    answer ← call remote "add" (str worker_id ∷ bounds ∷ d ∷ check ∷ [])
    response ← require_response answer "ok"
    settle
    of_result (remote.to_device (get_or_null "global_lb" response) device)

  -- The token that a completion sends: the one given, or that of the checkout.
  abbrev pub token_of : Value X → Client → Value X
  token_of given c = if is_null given then optional_text c.checkout else given

  unfoldable pub complete_pick_to_local : Value X → Action (Session W) (Unit {0})
  unfolding call require_response
  complete_pick_to_local given = do
    active ← gets (λ s. s.client.has_checked_out_batch)
    raise_if (not active) (invalid "no shared pick_out is active")
    token ← gets (λ s. token_of given s.client)
    current ← gets (λ s. matches s.client.checkout token)
    raise_if (not current) (invalid "checkout is stale or not active")
    answer ← call remote "complete_pick_to_local" (str worker_id ∷ token ∷ [])
    require_response answer "ok"
    settle

  unfoldable pub publish_children :
      Value X → Value X → Value X → Value X → Action (Session W) (Value X)
  unfolding call require_response
  publish_children given bounds d check = do
    current ← gets (λ s. matches s.client.checkout given)
    raise_if (not current) (invalid "checkout is stale or not active")
    answer ← call remote "publish_children" (str worker_id ∷ given ∷ bounds ∷ d ∷ check ∷ [])
    response ← require_response answer "ok"
    settle
    of_result (remote.to_device (get_or_null "global_lb" response) device)

  unfoldable pub complete_pruned : Value X → Action (Session W) (Unit {0})
  unfolding call require_response
  complete_pruned given = do
    token ← gets (λ s. token_of given s.client)
    current ← gets (λ s. matches s.client.checkout token)
    raise_if (is_null token || not current) (invalid "checkout is stale or not active")
    answer ← call remote "complete_pruned" (str worker_id ∷ token ∷ [])
    require_response answer "ok"
    settle

  unfoldable pub donate : Value X → Value X → Value X → Action (Session W) (Value X)
  unfolding call require_response
  donate bounds d check = do
    free ← gets (λ s. is_none s.client.checkout)
    raise_if (not free) (invalid "donation is forbidden during a checkout")
    answer ← call remote "donate" (str worker_id ∷ bounds ∷ d ∷ check ∷ [])
    response ← require_response answer "ok"
    of_result (remote.to_device (get_or_null "global_lb" response) device)

  unfoldable pub sort : Action (Session W) (Unit {0})
  unfolding call require_response
  sort = do answer ← call remote "sort" []; require_response answer "ok"; pure tt

  unfoldable pub close : Action (Session W) (Unit {0})
  unfolding call
  close = do
    open_still ← gets (λ s. not s.client.closed)
    when open_still do
      usable ← gets (λ s. not s.client.broken)
      let report = do call remote "close_worker" (str worker_id ∷ []); pure tt
      when usable (catch report (λ exc. pure tt))
      change (λ c. record c { closed = true })
      on_world remote.close_actor
      on_world remote.close_process
