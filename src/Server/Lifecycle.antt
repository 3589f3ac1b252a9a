-- ===== src/Server/Lifecycle.antt =====
-- What starting and stopping a server open and close.
use mathlib.Core.List.{append_assoc}
use freethreaded_dataplane.Common.{
  ◌≡◌, ◌⊎◌, inl, inr, none, some, List, [], ◌∷◌, ◌++◌, String, arith,
}
use freethreaded_dataplane.Common.Int.{ℤ}
use freethreaded_dataplane.Common.Text.{◌<>◌}
use freethreaded_dataplane.Errors.{Exception, ok, err, Result-cases}
use freethreaded_dataplane.Types.Endpoint
use freethreaded_dataplane.Types.Endpoint.{Endpoint}
use freethreaded_dataplane.Server.State.{
  Event, Rpc, Server, Host, acquire, runtime_started, connected, actor_created, actor_closed,
  process_closed, runtime_stopped,
}
use freethreaded_dataplane.Server.Methods.{undo, own, start, stop, bootstrap_bytes, connect_host}

-- A server that owns nothing, and one that owns a runtime, a connection and an actor.
abbrev pub idle : {R P H : Type 0} → Server R P H → Server R P H
idle s = record s { runtime = none; owner_process = none; owner_actor = none; endpoint = none }

abbrev pub owning : {R P H : Type 0} → Server R P H → R → P → H → Endpoint → Server R P H
owning s r p a e = record s {
  runtime = some r;
  owner_process = some p;
  owner_actor = some a;
  endpoint = some e;
}

module _ {X R P H : Type 0} where
  -- All that a start that failed did, the last first.
  pub data Undone : List (Event X R P H) → Type 0 where
    not_started : Undone []
    runtime_undone : (r : R) → Undone (runtime_stopped r ∷ runtime_started r ∷ [])
    process_undone :
        (r : R) (p : P)
        → Undone (runtime_stopped r ∷ process_closed p ∷ connected p ∷ runtime_started r ∷ [])
    actor_undone :
        (r : R) (p : P) (a : H)
        → Undone (
            runtime_stopped r
            ∷ process_closed p
            ∷ actor_closed a
            ∷ actor_created a
            ∷ connected p
            ∷ runtime_started r
            ∷ [])

  abbrev pub host : Server R P H → List (Event X R P H) → Host X R P H
  host s events = record { server = s; events = events }

module _ {X R P H : Type 0} (rpc : Rpc X R P H) where
  -- Closing and stopping do not raise.
  pub record Releases : Type 0 where
    pub process_closes :
        (p : P) (events : List (Event X R P H)) → rpc.close_process p events ≡ ok tt
    pub runtime_stops : (r : R) (events : List (Event X R P H)) → rpc.stop_runtime r events ≡ ok tt
    pub actor_closes : (a : H) (events : List (Event X R P H)) → rpc.close_actor a events ≡ ok tt

  module _ (releases : Releases) where
    undo_runtime :
        {A : Type 0} (r : R) (exc : Exception) (h : Host X R P H)
        → undo rpc {A = A} none none r exc h
          ≡ (err exc, host (record h.server { runtime = none }) (runtime_stopped r ∷ h.events))
    unfolding undo
    undo_runtime r exc h = ground (arith, releases.runtime_stops r h.events)

    undo_process :
        {A : Type 0} (r : R) (p : P) (exc : Exception) (h : Host X R P H)
        → undo rpc {A = A} none (some p) r exc h ≡ (
          err exc,
          host
              (record h.server { runtime = none })
              (runtime_stopped r ∷ process_closed p ∷ h.events),
        )
    unfolding undo
    undo_process r p exc h = ground (
      arith,
      releases.process_closes p h.events,
      releases.runtime_stops r (process_closed p ∷ h.events),
    )

    undo_actor :
        {A : Type 0} (r : R) (p : P) (a : H) (exc : Exception) (h : Host X R P H)
        → undo rpc {A = A} (some a) (some p) r exc h ≡ (
          err exc,
          host
              (record h.server { runtime = none })
              (runtime_stopped r ∷ process_closed p ∷ actor_closed a ∷ h.events),
        )
    unfolding undo
    undo_actor r p a exc h = ground (
      arith,
      releases.actor_closes a h.events,
      releases.process_closes p (actor_closed a ∷ h.events),
      releases.runtime_stops r (process_closed p ∷ actor_closed a ∷ h.events),
    )

    -- The `try` of `start` on a host that has just started a runtime.
    abbrev OwnOutcomes : R → Host X R P H → Type 0
    OwnOutcomes r h =
        ((p : P) × (a : H) × (e : Endpoint) × (own rpc r h
            ≡ (ok (p, a, e), host h.server (actor_created a ∷ connected p ∷ h.events))))
        ⊎ ((exc : Exception) × (done : List (Event X R P H)) × Undone
              (done ++ (runtime_started r ∷ []))
            × (own rpc r h
                ≡ (err exc, host (record h.server { runtime = none }) (done ++ h.events))))

    own_outcomes : (r : R) (h : Host X R P H) → OwnOutcomes r h
    unfolding own acquire
    own_outcomes r h = elim (Result-cases (rpc.address r)) [
      | inr (exc, lost) ↦ inr (
        exc,
        runtime_stopped r ∷ [],
        runtime_undone r,
        ground (arith, lost, undo_runtime {A = String × ℤ} r exc h),
      )
      | inl ((bound, port), addressed) ↦
          elim (Result-cases (
            rpc.connect (connect_host rpc bound <> ":" <> rpc.show port) h.server.request_timeout
              h.server.max_frame_size h.events)) [
                | inr (exc, lost) ↦ inr (
                  exc,
                  runtime_stopped r ∷ [],
                  runtime_undone r,
                  ground (arith, addressed, lost, undo_runtime {A = P} r exc h),
                )
                | inl (p, connecting) ↦
                    let served = host h.server (connected p ∷ h.events) in
                    elim (Result-cases (bootstrap_bytes rpc)) [
                      | inr (exc, lost) ↦ inr (
                        exc,
                        runtime_stopped r ∷ process_closed p ∷ connected p ∷ [],
                        process_undone r p,
                        ground (
                          arith,
                          addressed,
                          connecting,
                          lost,
                          undo_process {A = H} r p exc served,
                        ),
                      )
                      | inl (payload, packed) ↦
                          elim (Result-cases (
                            rpc.create p payload h.server.job_id h.server.validation_profile
                              (connected p ∷ h.events))) [
                                | inr (exc, lost) ↦ inr (
                                  exc,
                                  runtime_stopped r ∷ process_closed p ∷ connected p ∷ [],
                                  process_undone r p,
                                  ground (
                                    arith,
                                    addressed,
                                    connecting,
                                    packed,
                                    lost,
                                    undo_process {A = H} r p exc served,
                                  ),
                                )
                                | inl (a, created) ↦
                                    let owned =
                                      host h.server (actor_created a ∷ connected p ∷ h.events) in
                                    elim (Result-cases (
                                      Endpoint.post_init (record {
                                        host = h.server.advertise_host;
                                        port = port;
                                        actor_id = rpc.actor_id a;
                                        job_id = h.server.job_id;
                                        max_frame_size = h.server.max_frame_size;
                                      }))) [
                                        | inr (exc, wrong) ↦ inr (
                                          exc,
                                          runtime_stopped r
                                              ∷ process_closed p
                                              ∷ actor_closed a
                                              ∷ actor_created a
                                              ∷ connected p
                                              ∷ [],
                                          actor_undone r p a,
                                          ground (
                                            arith,
                                            addressed,
                                            connecting,
                                            packed,
                                            created,
                                            wrong,
                                            undo_actor {A = Endpoint} r p a exc owned,
                                          ),
                                        )
                                        | inl (e, made) ↦ inl (
                                          p,
                                          a,
                                          e,
                                          ground
                                              (arith, addressed, connecting, packed, created, made),
                                        )
                                      ]
                              ]
                    ]
              ]
    ]

    stop-owning :
        (s : Server R P H) (events : List (Event X R P H)) (r : R) (p : P) (a : H) (e : Endpoint)
        → stop rpc (host (owning s r p a e) events)
          ≡ (ok tt, host (idle s) (runtime_stopped r ∷ process_closed p ∷ actor_closed a ∷ events))
    unfolding stop
    stop-owning s events r p a e = ground (
      arith,
      releases.actor_closes a events,
      releases.process_closes p (actor_closed a ∷ events),
      releases.runtime_stops r (process_closed p ∷ actor_closed a ∷ events),
    )

    -- The ends of a start.
    abbrev pub Owned : Server R P H → List (Event X R P H) → Type 0
    Owned s events =
        (r : R) × (p : P) × (a : H) × (e : Endpoint) × (start rpc (host (idle s) events) ≡ (
          ok e,
          host (owning s r p a e) (actor_created a ∷ connected p ∷ runtime_started r ∷ events),
        ))
        × (stop rpc
              (host (owning s r p a e) (actor_created a ∷ connected p ∷ runtime_started r ∷ events))
            ≡ (
              ok tt,
              host (idle s) (
                  runtime_stopped r
                  ∷ process_closed p
                  ∷ actor_closed a
                  ∷ actor_created a
                  ∷ connected p
                  ∷ runtime_started r
                  ∷ events),
            ))

    abbrev pub RolledBack : Server R P H → List (Event X R P H) → Type 0
    RolledBack s events =
        (exc : Exception) × (done : List (Event X R P H)) × Undone done
        × (start rpc (host (idle s) events) ≡ (err exc, host (idle s) (done ++ events)))

    -- A start of a server that owns nothing ends in one of two ways, where closing and stopping do not
    -- raise. It owns a new runtime, a connection and an actor, and the next `stop` closes the three in
    -- reverse order and leaves the server as it was. Or it raises, the server is as it was, and whatever
    -- was opened has been closed in reverse order.
    pub start_outcomes :
        (s : Server R P H) (events : List (Event X R P H)) → Owned s events ⊎ RolledBack s events
    unfolding start acquire
    start_outcomes s events =
        elim (Result-cases (rpc.new_runtime s.bind_host s.port s.max_frame_size events)) [
          | inr (exc, lost) ↦ inr (exc, [], not_started, ground (arith, lost))
          | inl (r, made) ↦ elim (Result-cases (rpc.start_runtime r events)) [
            | inr (exc, lost) ↦ inr (exc, [], not_started, ground (arith, made, lost))
            | inl (u, started) ↦
                let running =
                  host (record (idle s) { runtime = some r }) (runtime_started r ∷ events) in
                elim (own_outcomes r running) [
                  | inl (p, a, e, owned) ↦ inl (
                    r,
                    p,
                    a,
                    e,
                    ground (arith, made, started, owned),
                    stop-owning s (actor_created a ∷ connected p ∷ runtime_started r ∷ events) r p a
                        e,
                  )
                  | inr (exc, done, undone, failed) ↦ inr (
                    exc,
                    done ++ (runtime_started r ∷ []),
                    undone,
                    ground (
                      arith,
                      made,
                      started,
                      failed,
                      append_assoc done (runtime_started r ∷ []) events,
                    ),
                  )
                ]
          ]
        ]
