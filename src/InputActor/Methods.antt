-- ===== src/InputActor/Methods.antt =====
-- The constructor and the remote methods of `InputDomainListActor`.
use freethreaded_dataplane.Common.{
  ℕ, not, ◌&&◌, ◌||◌, none, some, List, [], ◌∷◌, String, min, is_none, if◌then◌else◌, ◌==◌,
}
use freethreaded_dataplane.Common.Int.{pos}
use freethreaded_dataplane.Common.Text.{◌<>◌, prefix, same}
use freethreaded_dataplane.Common.Dict.{lookup, insert, erase}
use freethreaded_dataplane.Common.Members.{member, include, discard}
use freethreaded_dataplane.Errors
use freethreaded_dataplane.Errors.{
  Exception, Result, ok, err, exception, value_error, key_error, index_error, type_error,
}
use freethreaded_dataplane.Exec.{
  Action, pure, gets, modify, raise_if, or_raise, of_result, when, catch, ◌>>=◌, ◌>>◌,
}
use freethreaded_dataplane.Python.{Value, Values, nil, cons, null, str, int, dict, fields}
use freethreaded_dataplane.Actor.Init.{nonempty_text, wrap}
use freethreaded_dataplane.Actor.Methods.{is_text, positive}
use freethreaded_dataplane.InputActor.State.{
  InputActor, InputLibrary, invalid, bump, available, on_domains, record_and_raise, worker,
  checkout, snapshot_dict,
}

module _ {X D : Type 0} (lib : InputLibrary X D) where
  -- `__init__`
  unfoldable pub init : List ℕ → Value X → Result (InputActor D)
  init storage_bytes job_id =
      Errors.◌>>=◌
        (Errors.or_raise (nonempty_text job_id) (exception value_error "job_id must not be empty"))
        λ job.
          Errors.◌>>=◌
            (wrap (lib.load storage_bytes)
              (exception value_error "invalid input-domain bootstrap bytes"))
            λ domains. ok (record {
              job_id = job;
              domains = domains;
              workers = [];
              checkouts = [];
              version = 0;
              failure = none;
            })

  -- `{"status": "ok", "state": self._snapshot()}`, and the same with a result.
  abbrev pub answer_ok : Action (InputActor D) (Value X)
  answer_ok =
      gets λ a. dict (fields (("status", str "ok") ∷ ("state", dict (snapshot_dict lib a)) ∷ []))

  abbrev pub answer_result : Value X → Action (InputActor D) (Value X)
  answer_result result = gets λ a. dict (
      fields
        (("status", str "ok") ∷ ("result", result) ∷ ("state", dict (snapshot_dict lib a)) ∷ []))

  unfoldable pub register_worker : Value X → Value X → Action (InputActor D) (Value X)
  unfolding available bump snapshot_dict
  register_worker worker_id job_id = do
    available
    let unknown = invalid "invalid worker/job identity"
    name ← or_raise (nonempty_text worker_id) unknown
    raise_if (not (is_text job_id (← gets (λ a. a.job_id)))) unknown
    known ← gets (λ a. member name a.workers)
    when (not known) do modify (λ a. record a { workers = include name a.workers }); bump
    answer_ok

  -- `pick_out_batch` behind its guards, with the token that `uuid4()` gives.
  unfoldable pub pick_pending : String → String → ℕ → Action (InputActor D) (Value X)
  unfolding record_and_raise bump snapshot_dict
  pick_pending token name batch = do
    pending ← gets (λ a. lib.size a.domains)
    let nothing = gets λ a. dict (
        fields
          (("status", str "empty") ∷ ("data", null) ∷ ("state", dict (snapshot_dict lib a)) ∷ []))
    let some_domains = do
      picked ← catch (on_domains (lib.pick_out_batch (min batch pending))) record_and_raise
      modify (λ a. record a { checkouts = insert name token a.checkouts })
      bump
      gets (λ a. dict (
          fields (
            ("status", str "data")
            ∷ ("data", picked)
            ∷ ("checkout", str token)
            ∷ ("state", dict (snapshot_dict lib a))
            ∷ [])))
    if pending == 0 then nothing else some_domains

  unfoldable pub pick_out_batch : String → Value X → Value X → Action (InputActor D) (Value X)
  unfolding available worker
  pick_out_batch token worker_id batch_size = do
    available
    name ← worker lib worker_id
    batch ← or_raise (positive batch_size) (invalid "batch_size must be positive")
    active ← gets (λ a. lookup name a.checkouts)
    raise_if (not (is_none active)) (invalid "checkout is active")
    pick_pending token name batch

  -- `_add`
  unfoldable pub add : Value X → Value X → Action (InputActor D) (Value X)
  unfolding record_and_raise bump
  add args kwargs = do
    result ← catch (on_domains (lib.add args kwargs)) record_and_raise
    bump
    pure result

  -- `del self._checkouts[name]; self._version += 1`
  unfoldable pub delete_checkout : String → Action (InputActor D) (Unit {0})
  unfolding bump
  delete_checkout name = do
    active ← gets (λ a. lookup name a.checkouts)
    raise_if (is_none active) (exception key_error (lib.repr name))
    modify (λ a. record a { checkouts = erase name a.checkouts })
    bump

  unfoldable pub publish : Value X → Value X → Value X → Value X → Action (InputActor D) (Value X)
  unfolding available checkout snapshot_dict
  publish worker_id token args kwargs = do
    available
    name ← checkout lib worker_id token
    result ← add args kwargs
    delete_checkout name
    answer_result result

  unfoldable pub donate : Value X → Value X → Value X → Action (InputActor D) (Value X)
  unfolding available worker add snapshot_dict
  donate worker_id args kwargs = do
    available
    name ← worker lib worker_id
    active ← gets (λ a. lookup name a.checkouts)
    raise_if (not (is_none active)) (invalid "donation forbidden during checkout")
    result ← add args kwargs
    answer_result result

  unfoldable pub complete : Value X → Value X → Action (InputActor D) (Value X)
  unfolding available checkout delete_checkout snapshot_dict
  complete worker_id token = do
    available
    name ← checkout lib worker_id token
    delete_checkout name
    answer_ok

  -- `self._domains[args[0]]`
  abbrev pub first_item : Values X → D → Result (Value X)
  first_item nil d = err (exception index_error "tuple index out of range")
  first_item (cons index rest) d = lib.get_item index d

  -- One of the three supported queries. The name is a text.
  unfoldable pub run_query : String → Values X → D → Result (Value X)
  unfolding same
  run_query name args d =
      if same name "__getitem__"
      then first_item args d
      else if same name "get_topk_indices" || same name "get_progess"
      then lib.query name args d
      else err (invalid "unsupported query")

  unfoldable pub query : String → Values X → Action (InputActor D) (Value X)
  unfolding available run_query
  query name args = do
    available
    result ← of_result (← gets (λ a. run_query name args a.domains))
    gets (λ a. dict (fields (("result", result) ∷ ("version", int (pos a.version)) ∷ [])))

  unfoldable pub sort : Action (InputActor D) (Value X)
  unfolding available bump
  sort = do available; on_domains lib.sort; bump; pure (dict (fields (("status", str "ok") ∷ [])))

  unfoldable pub snapshot : Action (InputActor D) (Value X)
  unfolding snapshot_dict
  snapshot = gets λ a. dict (snapshot_dict lib a)

  -- What a worker's end does: the actor fails if the worker holds a checkout and it has not failed.
  unfoldable pub drop_worker : String → String → Action (InputActor D) (Unit {0})
  unfolding bump
  drop_worker name reason = do
    holding ← gets (λ a. not (is_none (lookup name a.checkouts)) && is_none a.failure)
    when holding (modify (λ a. record a { failure = some reason }))
    modify (λ a. record a { workers = discard name a.workers })
    bump

  unfoldable pub close_worker : Value X → Action (InputActor D) (Value X)
  unfolding worker drop_worker snapshot_dict
  close_worker worker_id = do
    name ← worker lib worker_id
    drop_worker name "worker closed with checked-out input domains"
    answer_ok

  unfoldable pub worker_failed : Value X → String → Action (InputActor D) (Value X)
  unfolding worker drop_worker snapshot_dict
  worker_failed worker_id reason = do
    name ← worker lib worker_id
    drop_worker name
        (prefix 1000 ("worker " <> name <> " failed with checked-out input domains: " <> reason))
    answer_ok

  unfoldable pub fail : String → Action (InputActor D) (Value X)
  unfolding bump snapshot_dict
  fail reason = do
    running ← gets (λ a. is_none a.failure)
    when running do modify (λ a. record a { failure = some (prefix 1000 reason) }); bump
    gets (λ a. dict (snapshot_dict lib a))
