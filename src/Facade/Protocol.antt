-- ===== src/Facade/Protocol.antt =====
-- What a method of `RpcBatchedDomainList` may make of the facade's own checkout, and how a remote call
-- ends.
use freethreaded_dataplane.Common.{
  ◌≡◌, refl, ◌⊎◌, inl, inr, Bool, true, false, ◌||◌, none, some, List, String, arith, Bool-cases,
  Option-cases,
}
use freethreaded_dataplane.Errors.{
  Exception, ok, err, exception, actor_failed, protocol, data_plane_cancelled,
  remote_data_plane_error,
}
use freethreaded_dataplane.Python.{Value, Entries}
use freethreaded_dataplane.Common.Text.{◌<>◌}
use freethreaded_dataplane.Facade.Session.{
  Reply, returned, remote_error, rpc_error, raised, Remote, Client, Session, check_available, call,
  accept, as_dict, has_status, require_response,
}

-- What a method may make of the client: a checkout is taken only where none is held, a checkout
-- without a token breaks the client, and a checkout ends only whole.
pub data ClientMove (c d : Client) : Type 0 where
  stay : d ≡ c → ClientMove c d
  breaks : d ≡ record c { broken = true } → ClientMove c d
  takes :
      (t : String)
      → c.has_checked_out_batch ≡ false
      → d ≡ record c { has_checked_out_batch = true; checkout = some t }
      → ClientMove c d
  half_takes :
      c.has_checked_out_batch ≡ false
      → d ≡ record c { has_checked_out_batch = true; broken = true }
      → ClientMove c d
  settles : d ≡ record c { has_checked_out_batch = false; checkout = none } → ClientMove c d
  closes :
      (b : Bool)
      → (b ≡ false → c.broken ≡ false)
      → d ≡ record c { closed = true; broken = b }
      → ClientMove c d

module _ {X W : Type 0} (remote : Remote X W) where
  accept_cases :
      (reply : Reply X) (s : Session W)
      → ((v : Value X) × (accept remote reply s ≡ (ok v, s)))
        ⊎ ((e : Exception) × (accept remote reply s
              ≡ (err e, record s { client = record s.client { broken = true } })))
  accept_cases (returned v) s = inl (v, refl)
  accept_cases (remote_error t m) s = inr (remote_data_plane_error t m true, refl)
  accept_cases (rpc_error m) s = inr (exception actor_failed ("domain RPC failed: " <> m), refl)
  accept_cases (raised e) s = inr (e, refl)

  -- A remote call gives a value and leaves the client alone, or raises and may break it.
  pub call_cases :
      (method : String) (args : List (Value X)) (s : Session W)
      → ((v : Value X) × (w : W) × (call remote method args s ≡ (ok v, record s { world = w })))
        ⊎ ((e : Exception) × (t : Session W) × (call remote method args s ≡ (err e, t))
            × ((t.client ≡ s.client) ⊎ (t.client ≡ record s.client { broken = true })))
  unfolding call check_available
  call_cases method args s =
      let answered = remote.call method args s.world in
      let t = record s { world = answered.1 } in
      elim (Bool-cases (s.client.closed || s.client.broken)) [
        | inl unusable ↦ inr (
          exception actor_failed "data-plane client is closed or broken",
          s,
          ground arith,
          inl refl,
        )
        | inr usable ↦ elim (Bool-cases (remote.is_stopped s.world)) [
          | inl stopped ↦ inr (
            exception data_plane_cancelled "control-plane cancellation is set",
            s,
            ground arith,
            inl refl,
          )
          | inr running ↦ elim (accept_cases answered.0 t) [
            | inl (v, accepted) ↦ inl (v, answered.1, ground arith)
            | inr (e, broke) ↦
                inr (
                  e,
                  record t { client = record s.client { broken = true } },
                  ground arith,
                  inr refl,
                )
          ]
        ]
      ]

  pub require_cases :
      (v : Value X) (status : String) (s : Session W)
      → ((d : Entries X) × (require_response v status s ≡ (ok d, s)))
        ⊎ ((e : Exception) × (require_response v status s ≡ (err e, s)))
  unfolding require_response
  require_cases v status s =
      let malformed = exception protocol "malformed domain actor response" in
      elim (Option-cases (as_dict v)) [
        | inl other ↦ inr (malformed, ground arith)
        | inr (d, found) ↦ elim (Bool-cases (has_status status d)) [
          | inl right ↦ inl (d, ground arith)
          | inr wrong ↦ inr (malformed, ground arith)
        ]
      ]

  -- A client that is closed or broken calls nobody.
  pub call_refuses :
      (method : String) (args : List (Value X)) (s : Session W)
      → s.client.closed || s.client.broken ≡ true
      → call remote method args s
        ≡ (err (exception actor_failed "data-plane client is closed or broken"), s)
  unfolding call check_available
  call_refuses method args s h = ground arith
