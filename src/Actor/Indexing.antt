-- ===== src/Actor/Indexing.antt =====
-- Indexed queries of `BatchedDomainListActor`.
use freethreaded_dataplane.Common.{ℕ, suc, ◌-◌, ◌≤◌, ◌<◌, ◌≡◌, false, none, [], ◌∷◌, arith}
use freethreaded_dataplane.Common.Int.{pos, negsuc}
use freethreaded_dataplane.Errors.{ok, err, exception, index_error}
use freethreaded_dataplane.Python.{Value, null, int, dict, fields}
use freethreaded_dataplane.Library.{Library}
use freethreaded_dataplane.Actor.State.{Actor}
use freethreaded_dataplane.Actor.Queries

module _ {X D : Type 0} (lib : Library X D) where
  -- An actor of `n` pending domains answers index `-k` as it answers `n - k`, for `k` from 1
  -- to `n`, whatever version is given.
  pub get_item_wraps :
      (k : ℕ) (version : Value X) (a : Actor D)
      → k < lib.size a.domains
      → Queries.get_item lib (int (negsuc k)) version a
        ≡ Queries.get_item lib (int (pos (lib.size a.domains - suc k))) version a
  unfolding Queries.get_item
  get_item_wraps k version a h = ground arith

  -- With no version given, an index of `n` and above, or below `-n`, raises an `IndexError`, where
  -- `n` domains are pending in a running actor. Nothing changes.
  pub get_item_range :
      (k : ℕ) (a : Actor D)
      → a.failure_reason ≡ none
      → lib.size a.domains ≤ k
      → (Queries.get_item lib (int (pos k)) null a
          ≡ (err (exception index_error "domain index out of range"), a))
        × (Queries.get_item lib (int (negsuc k)) null a
            ≡ (err (exception index_error "domain index out of range"), a))
  unfolding Queries.get_item
  get_item_range k a live h = (ground arith, ground arith)

  -- An answer is the record of the list's domain at that index, and carries the current version.
  pub get_item_answers :
      (k : ℕ) (version v r : Value X) (a : Actor D)
      → a.failure_reason ≡ none
      → Queries.is_stale version a.version ≡ false
      → k < lib.size a.domains
      → lib.get_item k a.domains ≡ ok v
      → Queries.to_record lib v ≡ ok r
      → Queries.get_item lib (int (pos k)) version a
        ≡ (ok (dict (fields (("record", r) ∷ ("version", int (pos a.version)) ∷ []))), a)
  unfolding Queries.get_item
  get_item_answers k version v r a live fresh h found decoded = ground arith
