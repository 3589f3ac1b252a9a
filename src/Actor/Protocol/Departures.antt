-- ===== src/Actor/Protocol/Departures.antt =====
-- The reports on workers, `fail`, `sort` and the queries of `BatchedDomainListActor` make a move of the
-- protocol.
use freethreaded_dataplane.Common.{
  ◌+◌, ◌≡◌, refl, inl, inr, none, String, arith, Option-cases, Bool-cases,
}
use freethreaded_dataplane.Common.Text.{◌<>◌, prefix}
use freethreaded_dataplane.Common.Dict.{lookup}
use freethreaded_dataplane.Errors.{Result-cases}
use freethreaded_dataplane.Python.{Value, str}
use freethreaded_dataplane.Library.{Library, hashable}
use freethreaded_dataplane.Actor.State.{Actor, invalid, failure_text}
use freethreaded_dataplane.Actor.Methods
use freethreaded_dataplane.Actor.Methods.{positive, is_text, is_other}
use freethreaded_dataplane.Actor.Queries
use freethreaded_dataplane.Actor.Protocol.{Move, stay, reorder, break, leave, abandon, tick}
use freethreaded_dataplane.Actor.Protocol.Guards.{worker_cases}

module _ {X D : Type 0} (lib : Library X D) where
  pub close_worker-Move : (w : Value X) (a : Actor D) → Move none a (Methods.close_worker lib w a).1
  unfolding Methods.close_worker
  close_worker-Move w a = elim (worker_cases w a) [
    | inr refused ↦ stay (ground arith)
    | inl (worker, e, known) ↦ elim (Option-cases (lookup worker a.checkouts)) [
      | inl free ↦ leave worker (λ live. free) (ground arith)
      | inr (active, held) ↦ elim (Option-cases a.failure_reason) [
        | inl live ↦
            abandon worker (failure_text (invalid "worker closed with checked-out shared work"))
              live (ground arith) (ground arith)
        | inr (reason, failed) ↦ leave worker (λ live. cc) (ground arith)
      ]
    ]
  ]

  worker_failed_str :
      (worker reason : String) (a : Actor D)
      → Move none a (Methods.worker_failed lib (str worker) reason a).1
  unfolding Methods.worker_failed
  worker_failed_str worker reason a = elim (Option-cases (lookup worker a.checkouts)) [
    | inl free ↦ leave worker (λ live. free) (ground arith)
    | inr (active, held) ↦ elim (Option-cases a.failure_reason) [
      | inl live ↦
          abandon worker
            (failure_text (
              invalid (
                "worker "
                <> lib.repr worker
                <> " failed with checked-out work: "
                <> prefix 500 reason)))
            live (ground arith) (ground arith)
      | inr (before, failed) ↦ leave worker (λ live. cc) (ground arith)
    ]
  ]

  pub worker_failed-Move :
      (w : Value X) (reason : String) (a : Actor D)
      → Move none a (Methods.worker_failed lib w reason a).1
  unfolding Methods.worker_failed
  worker_failed-Move (str worker) reason a = worker_failed_str worker reason a
  worker_failed-Move w reason a = elim (Bool-cases (hashable lib.is_hashable w)) [
    | inl found ↦ tick (ground arith)
    | inr unhashable ↦ stay (ground arith)
  ]

  pub fail-Move : (reason : String) (a : Actor D) → Move none a (Methods.fail lib reason a).1
  unfolding Methods.fail
  fail-Move reason a = elim (Option-cases a.failure_reason) [
    | inl live ↦ break (prefix 1000 reason) a.domains (a.version + 1) live (inr refl) (ground arith)
    | inr (before, failed) ↦ stay (ground arith)
  ]

  pub sort-Move : (a : Actor D) → Move none a (Queries.sort lib a).1
  unfolding Queries.sort
  sort-Move a =
      let sorted = lib.sort a.domains in
      elim (Option-cases a.failure_reason) [
        | inr (reason, failed) ↦ stay (ground arith)
        | inl live ↦ elim (Result-cases sorted.0) [
          | inl (u, e) ↦ reorder sorted.1 live (ground arith)
          | inr (exc, e) ↦
              break (failure_text exc) sorted.1 (a.version + 1) live (inr refl) (ground arith)
        ]
      ]

  -- The queries change nothing.
  pub get_min_domain_same : (n r : Value X) (a : Actor D) → (Queries.get_min_domain lib n r a).1 ≡ a
  unfolding Queries.get_min_domain
  get_min_domain_same n r a = ground arith

  pub get_item_same : (i v : Value X) (a : Actor D) → (Queries.get_item lib i v a).1 ≡ a
  unfolding Queries.get_item
  get_item_same i v a = ground arith
