-- ===== src/Facade/Coherence.antt =====
-- The facade's two notes of a checkout agree, and a client that is out of use does nothing.
use freethreaded_dataplane.Common.{
  ◌≡◌, refl, sym, subst, ◌⊎◌, ◌≢◌, inl, inr, true, false, ◌||◌, none, List, [], ◌∷◌, String,
  is_none, arith,
}
use freethreaded_dataplane.Python.{Value, str}
use freethreaded_dataplane.Facade.Session.{Remote, Client, Session}
use freethreaded_dataplane.Facade.Methods
use freethreaded_dataplane.Facade.Methods.{is_null, token_of}
use freethreaded_dataplane.Facade.Protocol.{
  ClientMove, stay, breaks, takes, half_takes, settles, closes, call_refuses,
}
use freethreaded_dataplane.Facade.Moves

-- A method with its arguments.
pub data Request (X : Type 0) : Type 0 where
  pick_out : (batch target : Value X) → Request X
  add : (bounds d check : Value X) → Request X
  complete_pick_to_local complete_pruned : (given : Value X) → Request X
  publish_children : (given bounds d check : Value X) → Request X
  donate : (bounds d check : Value X) → Request X
  sort close : Request X

module _ {X W : Type 0} (remote : Remote X W) (worker_id : String) (device : Value X) where
  -- The session after a request.
  unfoldable pub client_step : Request X → Session W → Session W
  client_step (pick_out b t) s = (Methods.pick_out remote worker_id device b t s).1
  client_step (add b d c) s = (Methods.add remote worker_id device b d c s).1
  client_step (complete_pick_to_local t) s =
      (Methods.complete_pick_to_local remote worker_id device t s).1
  client_step (complete_pruned t) s = (Methods.complete_pruned remote worker_id device t s).1
  client_step (publish_children t b d c) s =
      (Methods.publish_children remote worker_id device t b d c s).1
  client_step (donate b d c) s = (Methods.donate remote worker_id device b d c s).1
  client_step sort s = (Methods.sort remote worker_id device s).1
  client_step close s = (Methods.close remote worker_id device s).1

  unfoldable pub client_run : List (Request X) → Session W → Session W
  client_run [] s = s
  client_run (r ∷ rs) s = client_run rs (client_step r s)

  -- Whatever the other side answers, a request makes of the facade's checkout one of the moves of
  -- `ClientMove`: it takes a checkout only where none is noted, ends one only whole, and otherwise
  -- does no more than break or close the facade.
  pub client_step-Move :
      (r : Request X) (s : Session W) → ClientMove s.client (client_step r s).client
  unfolding client_step
  client_step-Move (pick_out b t) s = Moves.pick_out-Move remote worker_id device b t s
  client_step-Move (add b d c) s = Moves.add-Move remote worker_id device b d c s
  client_step-Move (complete_pick_to_local t) s =
      Moves.complete_pick_to_local-Move remote worker_id device t s
  client_step-Move (complete_pruned t) s = Moves.complete_pruned-Move remote worker_id device t s
  client_step-Move (publish_children t b d c) s =
      Moves.publish_children-Move remote worker_id device t b d c s
  client_step-Move (donate b d c) s = Moves.donate-Move remote worker_id device b d c s
  client_step-Move sort s = Moves.sort-Move remote worker_id device s
  client_step-Move close s = Moves.close-Move remote worker_id device s

-- A client with a token has its batch noted, and a client in use with a batch noted has its token.
pub record IsCoherent (c : Client) : Type 0 where
  pub noted : is_none c.checkout ≡ false → c.has_checked_out_batch ≡ true
  pub named : c.has_checked_out_batch ≡ true → c.broken ≡ false → is_none c.checkout ≡ false

Move-IsCoherent : {c d : Client} → ClientMove c d → IsCoherent c → IsCoherent d
Move-IsCoherent {c} {d} (stay e) h = subst IsCoherent (sym e) h
Move-IsCoherent {c} {d} (breaks e) h =
    subst IsCoherent (sym e) (record { noted = h.noted; named = λ u v. cc })
Move-IsCoherent {c} {d} (takes t f e) h = record {
  noted = λ u. ground arith;
  named = λ u v. ground arith;
}
Move-IsCoherent {c} {d} (half_takes f e) h = record {
  noted = λ u. ground arith;
  named = λ u v. ground arith;
}
Move-IsCoherent {c} {d} (settles e) h = record {
  noted = λ u. ground arith;
  named = λ u v. ground arith;
}
Move-IsCoherent {c} {d} (closes b f e) h =
    subst IsCoherent (sym e) (record { noted = h.noted; named = λ u v. h.named u (f v) })

-- The client as it is constructed.
abbrev pub connected : Client
connected = record {
  has_checked_out_batch = false;
  checkout = none;
  closed = false;
  broken = false;
}

module _ {X W : Type 0} (remote : Remote X W) (worker_id : String) (device : Value X) where
  run-IsCoherent :
      (rs : List (Request X)) (s : Session W)
      → IsCoherent s.client
      → IsCoherent (client_run remote worker_id device rs s).client
  unfolding client_run
  run-IsCoherent [] s h = h
  run-IsCoherent (r ∷ rs) s h =
      run-IsCoherent rs (client_step remote worker_id device r s)
        (Move-IsCoherent (client_step-Move remote worker_id device r s) h)

  -- Whatever requests a newly connected facade gets and whatever the other side answers, the two
  -- notes of its checkout agree: with a token the batch is noted, and while the facade is not broken
  -- a noted batch has a token.
  pub client-IsCoherent :
      (rs : List (Request X)) (w : W)
      → IsCoherent
          (client_run remote worker_id device rs (record { client = connected; world = w })).client
  client-IsCoherent rs w =
      run-IsCoherent rs (record { client = connected; world = w })
        (record { noted = λ h. cc; named = λ h k. cc })

  out_of_use :
      {P : Type 0} (s : Session W)
      → ((s.client.closed ≡ true) ⊎ ((s.client.broken ≡ true) × P))
      → s.client.closed || s.client.broken ≡ true
  out_of_use s (inl h) = ground arith
  out_of_use s (inr h) = ground (arith, h.0)

  -- A broken facade reaches nobody: every request but `close` leaves its own state and the other
  -- side as they were. A closed one leaves them so on every request.
  pub client_inert :
      (r : Request X) (s : Session W)
      → ((s.client.closed ≡ true) ⊎ ((s.client.broken ≡ true) × (r ≢ close)))
      → client_step remote worker_id device r s ≡ s
  unfolding client_step Methods.pick_out Methods.add Methods.complete_pick_to_local
      Methods.complete_pruned Methods.publish_children Methods.donate Methods.sort Methods.close
  client_inert (pick_out b t) s h =
      ground (arith, call_refuses remote "pick_out" (str worker_id ∷ b ∷ []) s (out_of_use s h))
  client_inert (add b d c) s h =
      ground (arith, call_refuses remote "add" (str worker_id ∷ b ∷ d ∷ c ∷ []) s (out_of_use s h))
  client_inert (complete_pick_to_local t) s h =
      let token = Methods.token_of remote worker_id device t s.client in
      ground (
        arith,
        call_refuses remote "complete_pick_to_local" (str worker_id ∷ token ∷ []) s
            (out_of_use s h),
      )
  client_inert (complete_pruned t) s h =
      let token = Methods.token_of remote worker_id device t s.client in
      ground (
        arith,
        call_refuses remote "complete_pruned" (str worker_id ∷ token ∷ []) s (out_of_use s h),
      )
  client_inert (publish_children t b d c) s h = ground (
    arith,
    call_refuses remote "publish_children" (str worker_id ∷ t ∷ b ∷ d ∷ c ∷ []) s (out_of_use s h),
  )
  client_inert (donate b d c) s h =
      ground
        (arith, call_refuses remote "donate" (str worker_id ∷ b ∷ d ∷ c ∷ []) s (out_of_use s h))
  client_inert sort s h = ground (arith, call_refuses remote "sort" ([]) s (out_of_use s h))
  client_inert close s (inl h) = ground arith
  client_inert close s (inr h) = absurd (h.1 refl)
