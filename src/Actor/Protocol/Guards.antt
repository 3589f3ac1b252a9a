-- ===== src/Actor/Protocol/Guards.antt =====
-- What the worker id of a call is when it passes its guard, and what the `try` of an ADD leaves.
use freethreaded_dataplane.Common.{◌≡◌, refl, ◌⊎◌, inl, inr, Bool, true, String, arith, Bool-cases}
use freethreaded_dataplane.Common.Members.{member}
use freethreaded_dataplane.Errors.{Result, err, Result-cases}
use freethreaded_dataplane.Python.{Value, str}
use freethreaded_dataplane.Library.{Library}
use freethreaded_dataplane.Actor.State.{Actor, unregistered, require_worker, run_validate}
use freethreaded_dataplane.Actor.Methods
use freethreaded_dataplane.Actor.Methods.{positive, is_text, is_other}

module _ {X D : Type 0} where
  -- A worker id is that of a registered worker, or is refused with nothing changed.
  pub worker_cases :
      (w : Value X) (a : Actor D)
      → ((worker : String) × (w ≡ str worker) × (member worker a.registered_workers ≡ true))
        ⊎ (require_worker w a ≡ (err unregistered, a))
  unfolding require_worker
  worker_cases (str s) a = elim (Bool-cases (member s a.registered_workers)) [
    | inl known ↦ inl (s, refl, known)
    | inr unknown ↦ inr (ground arith)
  ]
  worker_cases _ a = inr refl

module _ {X D : Type 0} (lib : Library X D) where
  -- The `try` of an ADD leaves everything but the list alone.
  pub validated_add_cases :
      (b d : Value X) (check : Bool) (a : Actor D)
      → (r : Result (Value X)) × (e : D) × (Methods.validated_add lib b d check a
          ≡ (r, record a { domains = e }))
  unfolding Methods.validated_add
  validated_add_cases b d check a = elim (Result-cases (run_validate a.validate_add b d)) [
    | inl (u, valid) ↦ let added = lib.add b d check a.domains in (added.0, added.1, ground arith)
    | inr (exc, refused) ↦ (err exc, a.domains, ground arith)
  ]
