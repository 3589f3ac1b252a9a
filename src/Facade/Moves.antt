-- ===== src/Facade/Moves.antt =====
-- Each method of `RpcBatchedDomainList` makes one of the moves, whatever the other side answers.
use freethreaded_dataplane.Common.{
  ◌≡◌, sym, subst, inl, inr, true, false, ◌||◌, not, [], ◌∷◌, String, is_none, if◌then◌else◌, arith,
  Bool-cases, Option-cases,
}
use freethreaded_dataplane.Python.{Value, Entries, str, get_or_null}
use freethreaded_dataplane.Types.Read.{as_bool}
use freethreaded_dataplane.Actor.Init.{nonempty_text}
use freethreaded_dataplane.Actor.Methods.{positive}
use freethreaded_dataplane.InputActor.State.{matches}
use freethreaded_dataplane.Facade.Session.{Remote, Session, as_dict, has_status, require_response}
use freethreaded_dataplane.Facade.Methods
use freethreaded_dataplane.Facade.Methods.{is_null, token_of}
use freethreaded_dataplane.Facade.Protocol.{
  ClientMove, stay, breaks, takes, half_takes, settles, closes, call_cases, require_cases,
}

module _ {X W : Type 0} (remote : Remote X W) (worker_id : String) (device : Value X) where
  pub sort-Move :
      (s : Session W) → ClientMove s.client (Methods.sort remote worker_id device s).1.client
  unfolding Methods.sort require_response
  sort-Move s = elim (call_cases remote "sort" [] s) [
    | inr (e, t, failed, inl same) ↦ stay (ground arith)
    | inr (e, t, failed, inr broke) ↦ breaks (ground arith)
    | inl (v, w, answered) ↦ elim (Option-cases (as_dict v)) [
      | inl other ↦ stay (ground arith)
      | inr (d, found) ↦ stay (ground arith)
    ]
  ]

  pub receive-Move :
      (d : Entries X) (target : Value X) (s : Session W)
      → s.client.has_checked_out_batch ≡ false
      → ClientMove s.client (Methods.receive remote worker_id device d target s).1.client
  unfolding Methods.receive require_response
  receive-Move d target s free = elim (Bool-cases (has_status "data" d)) [
    | inr other ↦ stay (ground arith)
    | inl data_status ↦ elim (Option-cases (as_dict (get_or_null "domains" d))) [
      | inl no_domains ↦ breaks (ground arith)
      | inr (domains, e) ↦ elim (Option-cases (nonempty_text (get_or_null "checkout" d))) [
        | inl no_token ↦ half_takes free (ground arith)
        | inr (token, f) ↦ takes token free (ground arith)
      ]
    ]
  ]

  pub pick_out-Move :
      (batch target : Value X) (s : Session W)
      → ClientMove s.client (Methods.pick_out remote worker_id device batch target s).1.client
  unfolding Methods.pick_out
  pick_out-Move batch target s = elim (Bool-cases (is_none (positive batch))) [
    | inl bad ↦ stay (ground arith)
    | inr good ↦ elim (Bool-cases s.client.has_checked_out_batch) [
      | inl active ↦ stay (ground arith)
      | inr free ↦ elim (call_cases remote "pick_out" (str worker_id ∷ batch ∷ []) s) [
        | inr (e, t, failed, inl same) ↦ stay (ground arith)
        | inr (e, t, failed, inr broke) ↦ breaks (ground arith)
        | inl (v, w, answered) ↦ elim (Option-cases (as_dict v)) [
          | inl other ↦ breaks (ground arith)
          | inr (d, found) ↦ elim (Bool-cases (has_status "empty" d)) [
            | inl nothing ↦ stay (ground arith)
            | inr some_domains ↦
                let goal_target = if is_null target then device else target in
                let same_call : Methods.pick_out remote worker_id device batch target s
                    ≡ Methods.receive remote worker_id device d goal_target
                        (record s { world = w }) =
                  ground arith in
                subst (λ r. ClientMove s.client r.1.client) (sym same_call)
                  (receive-Move d goal_target (record s { world = w }) free)
          ]
        ]
      ]
    ]
  ]

  pub close-Move :
      (s : Session W) → ClientMove s.client (Methods.close remote worker_id device s).1.client
  unfolding Methods.close
  close-Move s = elim (Bool-cases s.client.closed) [
    | inl already ↦ stay (ground arith)
    | inr open_still ↦ elim (Bool-cases s.client.broken) [
      | inl broken ↦ closes true (λ h. cc) (ground arith)
      | inr usable ↦ elim (call_cases remote "close_worker" (str worker_id ∷ []) s) [
        | inl (v, w, answered) ↦ closes false (λ h. usable) (ground arith)
        | inr (e, t, failed, inl same) ↦ closes false (λ h. usable) (ground arith)
        | inr (e, t, failed, inr broke) ↦ closes true (λ h. cc) (ground arith)
      ]
    ]
  ]

  pub add-Move :
      (bounds d check : Value X) (s : Session W)
      → ClientMove s.client (Methods.add remote worker_id device bounds d check s).1.client
  unfolding Methods.add
  add-Move bounds d check s = elim (Bool-cases (is_none (as_bool check))) [
    | inl bad ↦ stay (ground arith)
    | inr good ↦ elim (call_cases remote "add" (str worker_id ∷ bounds ∷ d ∷ check ∷ []) s) [
      | inr (e, t, failed, inl same) ↦ stay (ground arith)
      | inr (e, t, failed, inr broke) ↦ breaks (ground arith)
      | inl (v, w, answered) ↦ elim (require_cases remote v "ok" (record s { world = w })) [
        | inr (e, malformed) ↦ stay (ground arith)
        | inl (r, accepted) ↦ settles (ground arith)
      ]
    ]
  ]

  pub complete_pick_to_local-Move :
      (given : Value X) (s : Session W)
      → ClientMove s.client
          (Methods.complete_pick_to_local remote worker_id device given s).1.client
  unfolding Methods.complete_pick_to_local
  complete_pick_to_local-Move given s =
      let token = Methods.token_of remote worker_id device given s.client in
      elim (Bool-cases s.client.has_checked_out_batch) [
        | inr none_active ↦ stay (ground arith)
        | inl active ↦ elim (Bool-cases (matches s.client.checkout token)) [
          | inr stale ↦ stay (ground arith)
          | inl current ↦
              elim (call_cases remote "complete_pick_to_local" (str worker_id ∷ token ∷ []) s) [
                | inr (e, t, failed, inl same) ↦ stay (ground arith)
                | inr (e, t, failed, inr broke) ↦ breaks (ground arith)
                | inl (v, w, answered) ↦
                    elim (require_cases remote v "ok" (record s { world = w })) [
                      | inr (e, malformed) ↦ stay (ground arith)
                      | inl (r, accepted) ↦ settles (ground arith)
                    ]
              ]
        ]
      ]

  pub publish_children-Move :
      (given bounds d check : Value X) (s : Session W)
      → ClientMove s.client
          (Methods.publish_children remote worker_id device given bounds d check s).1.client
  unfolding Methods.publish_children
  publish_children-Move given bounds d check s =
      elim (Bool-cases (matches s.client.checkout given)) [
        | inr stale ↦ stay (ground arith)
        | inl current ↦
            let args = str worker_id ∷ given ∷ bounds ∷ d ∷ check ∷ [] in
            elim (call_cases remote "publish_children" args s) [
              | inr (e, t, failed, inl same) ↦ stay (ground arith)
              | inr (e, t, failed, inr broke) ↦ breaks (ground arith)
              | inl (v, w, answered) ↦ elim (require_cases remote v "ok" (record s { world = w })) [
                | inr (e, malformed) ↦ stay (ground arith)
                | inl (r, accepted) ↦ settles (ground arith)
              ]
            ]
      ]

  pub complete_pruned-Move :
      (given : Value X) (s : Session W)
      → ClientMove s.client (Methods.complete_pruned remote worker_id device given s).1.client
  unfolding Methods.complete_pruned
  complete_pruned-Move given s =
      let token = Methods.token_of remote worker_id device given s.client in
      elim (Bool-cases (is_null token || not (matches s.client.checkout token))) [
        | inl stale ↦ stay (ground arith)
        | inr current ↦ elim (call_cases remote "complete_pruned" (str worker_id ∷ token ∷ []) s) [
          | inr (e, t, failed, inl same) ↦ stay (ground arith)
          | inr (e, t, failed, inr broke) ↦ breaks (ground arith)
          | inl (v, w, answered) ↦ elim (require_cases remote v "ok" (record s { world = w })) [
            | inr (e, malformed) ↦ stay (ground arith)
            | inl (r, accepted) ↦ settles (ground arith)
          ]
        ]
      ]

  pub donate-Move :
      (bounds d check : Value X) (s : Session W)
      → ClientMove s.client (Methods.donate remote worker_id device bounds d check s).1.client
  unfolding Methods.donate
  donate-Move bounds d check s = elim (Bool-cases (is_none s.client.checkout)) [
    | inr held ↦ stay (ground arith)
    | inl free ↦ elim (call_cases remote "donate" (str worker_id ∷ bounds ∷ d ∷ check ∷ []) s) [
      | inr (e, t, failed, inl same) ↦ stay (ground arith)
      | inr (e, t, failed, inr broke) ↦ breaks (ground arith)
      | inl (v, w, answered) ↦ elim (require_cases remote v "ok" (record s { world = w })) [
        | inr (e, malformed) ↦ stay (ground arith)
        | inl (r, accepted) ↦ stay (ground arith)
      ]
    ]
  ]
