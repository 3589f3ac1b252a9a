-- ===== src/InputActor/Protocol/Guards.antt =====
-- The guards of `InputDomainListActor`: what a worker id and a token are when they pass.
use freethreaded_dataplane.Common.{
  ◌≡◌, refl, sym, ap, ◌⊎◌, inl, inr, true, Option, none, some, String, arith, Bool-cases,
}
use freethreaded_dataplane.Common.Text.{same_iff}
use freethreaded_dataplane.Common.Members.{member}
use freethreaded_dataplane.Errors.{Exception, err, exception, type_error}
use freethreaded_dataplane.Python.{Value, null, str}
use freethreaded_dataplane.Library.{hashable}
use freethreaded_dataplane.InputActor.State.{InputActor, InputLibrary, invalid, worker, matches}

-- Active checkout and token are the same, or there is neither.
pub matches_cases :
    {X : Type 0} (active : Option String) (t : Value X)
    → matches active t ≡ true
    → ((active ≡ none) × (t ≡ null)) ⊎ ((tok : String) × (active ≡ some tok) × (t ≡ str tok))
matches_cases none null h = inl (refl, refl)
matches_cases (some c) (str s) h = inr (c, refl, ap str (sym ((same_iff c s).0 h)))
matches_cases none _ h = cc
matches_cases (some c) _ h = cc

module _ {X D : Type 0} (lib : InputLibrary X D) where
  -- A worker id is that of a registered worker, or is refused with nothing changed.
  pub worker_cases :
      (w : Value X) (a : InputActor D)
      → ((name : String) × (w ≡ str name) × (member name a.workers ≡ true))
        ⊎ ((e : Exception) × (worker lib w a ≡ (err e, a)))
  unfolding worker hashable
  worker_cases (str s) a = elim (Bool-cases (member s a.workers)) [
    | inl known ↦ inl (s, refl, known)
    | inr unknown ↦ inr (invalid "worker is not registered", ground arith)
  ]
  worker_cases w a = elim (Bool-cases (hashable lib.is_hashable w)) [
    | inl found ↦ inr (invalid "worker is not registered", ground arith)
    | inr unhashable ↦ inr (exception type_error "unhashable type", ground arith)
  ]
