-- ===== src/InputActor/State.antt =====
-- The fields of `InputDomainListActor`, its private helpers, and the list of input splits that it
-- wraps, which the sources do not define.
use freethreaded_dataplane.Common.{
  ℕ, ◌+◌, Bool, true, false, not, ◌&&◌, Option, none, some, List, [], ◌∷◌, String, length, is_none,
  ◌==◌,
}
use freethreaded_dataplane.Common.Int.{pos}
use freethreaded_dataplane.Common.Text.{◌<>◌, prefix, same}
use freethreaded_dataplane.Common.Dict.{Dict, lookup}
use freethreaded_dataplane.Common.Members.{member}
use freethreaded_dataplane.Errors.{
  Exception, Result, ok, err, exception, type_name, invalid_state, actor_failed, type_error,
}
use freethreaded_dataplane.Exec.{Action, raise, gets, modify, raise_if, or_raise, pure, ◌>>=◌, ◌>>◌}
use freethreaded_dataplane.Python.{
  Value, Values, Entries, null, bool, int, str, fields_then, end, entry, optional_text,
}
use freethreaded_dataplane.Library.{hashable}
use freethreaded_dataplane.Types.Read.{as_str}

-- The list of input splits. A method that changes the list gives its result or exception, and the
-- list after the call, also after one that raises. The queries, which may raise, leave the list
-- alone, and `len`, which is `size`, does not raise.
pub record InputLibrary (X D : Type 0) : Type 0 where
  pub size : D → ℕ
  -- `pick_out_batch(k, "cpu")`
  pub pick_out_batch : ℕ → D → Result (Value X) × D
  -- `add(*args, **kwargs)`
  pub add : Value X → Value X → D → Result (Value X) × D
  pub sort : D → Result (Unit {0}) × D
  -- `getattr(domains, name)(*args)`, for a method that is there.
  pub query : String → Values X → D → Result (Value X)
  -- `domains[index]`
  pub get_item : Value X → D → Result (Value X)
  -- `getattr(domains, name)`, with none where `hasattr` fails.
  pub attribute : D → String → Option (Value X)
  -- `pickle.loads(bytes)`
  pub load : List ℕ → Result D
  pub is_hashable : X → Bool
  -- `repr(s)` of a text.
  pub repr : String → String

pub record InputActor (D : Type 0) : Type 0 where
  pub job_id : String
  pub domains : D
  pub workers : List String
  pub checkouts : Dict String
  pub version : ℕ
  pub failure : Option String

abbrev pub invalid : String → Exception
invalid = exception invalid_state

-- `f"{type(exc).__name__}: {exc}"[:1000]`
abbrev pub failure_text : Exception → String
failure_text exc = prefix 1000 (type_name exc.kind <> ": " <> exc.message)

-- `active == checkout`, where `None` stands for no active checkout.
abbrev pub matches : {X : Type 0} → Option String → Value X → Bool
matches none null = true
matches (some active) (str token) = same active token
matches _ _ = false

-- The attributes that a snapshot passes on.
abbrev pub storage_names : List String
storage_names =
    "output_device" ∷ "storage_depth" ∷ "use_alpha" ∷ "sort_index" ∷ "sort_descending"
    ∷ "use_split_idx" ∷ "spec_size" ∷ "volume" ∷ "all_volume" ∷ []

module _ {D : Type 0} where
  -- `self._version += 1`
  unfoldable pub bump : Action (InputActor D) (Unit {0})
  bump = modify λ a. record a { version = a.version + 1 }

  -- `_available`
  unfoldable pub available : Action (InputActor D) (Unit {0})
  available a = elim a.failure [
    | none ↦ (ok tt, a)
    | some reason ↦ (err (exception actor_failed reason), a)
  ]

  -- A call of the list: its result, and the list that it leaves.
  abbrev pub on_domains : {A : Type 0} → (D → Result A × D) → Action (InputActor D) A
  on_domains call a = let (r, d) = call a.domains in (r, record a { domains = d })

  -- A storage method fails: its exception is written down, counted and raised again.
  unfoldable pub record_and_raise : {A : Type 0} → Exception → Action (InputActor D) A
  unfolding bump
  record_and_raise exc = do
    modify (λ a. record a { failure = some (failure_text exc) })
    bump
    raise exc

module _ {X D : Type 0} (lib : InputLibrary X D) where
  -- `_worker`, which gives the worker id as the text that it is: only texts are registered, and a
  -- value without a hash cannot be looked up.
  unfoldable pub worker : Value X → Action (InputActor D) String
  unfolding hashable
  worker worker_id = do
    raise_if (not (hashable lib.is_hashable worker_id)) (exception type_error "unhashable type")
    name ← or_raise (as_str worker_id) (invalid "worker is not registered")
    raise_if (not (← gets (λ a. member name a.workers))) (invalid "worker is not registered")
    pure name

  -- `_checkout`
  unfoldable pub checkout : Value X → Value X → Action (InputActor D) String
  unfolding worker
  checkout worker_id token = do
    name ← worker worker_id
    raise_if (not (matches (← gets (λ a. lookup name a.checkouts)) token))
        (invalid "stale or foreign checkout")
    pure name

  -- The attributes that the list has, of those named.
  unfoldable pub present : List String → D → Entries X
  present [] d = end
  present (name ∷ names) d = elim (lib.attribute d name) [
    | none ↦ present names d
    | some v ↦ entry (str name) v (present names d)
  ]

  -- `_snapshot`
  unfoldable pub snapshot_dict : InputActor D → Entries X
  snapshot_dict a =
      let pending = lib.size a.domains in
      let checked = length a.checkouts in
      let failed = not (is_none a.failure) in
      fields_then
        (("job_id", str a.job_id)
          ∷ ("version", int (pos a.version))
          ∷ ("pending_shared_domains", int (pos pending))
          ∷ ("checked_out_shared_batches", int (pos checked))
          ∷ ("shared_idle", bool (pending == 0 && checked == 0 && not failed))
          ∷ ("failed", bool failed)
          ∷ ("failure_reason", optional_text a.failure)
          ∷ [])
        (present storage_names a.domains)
