-- ===== src/Actor/Init.antt =====
-- The constructor of `BatchedDomainListActor`.
use freethreaded_dataplane.Common.{ℕ, Option, none, some, List, [], String, ite, if◌then◌else◌}
use freethreaded_dataplane.Common.Text.{is_empty, text_discrete}
use freethreaded_dataplane.Errors.{
  Exception, Result, ok, err, exception, value_error, ◌>>=◌, or_raise,
}
use freethreaded_dataplane.Python.{Value, str}
use freethreaded_dataplane.Library.{Library}
use freethreaded_dataplane.Actor.State.{Actor, Profile, mapping, alpha_beta_crown}

-- A domain list, or its bytes.
pub data Bootstrap (D : Type 0) : Type 0 where
  live : D → Bootstrap D
  pickled : List ℕ → Bootstrap D

module _ {X : Type 0} where
  -- A non-empty text.
  abbrev pub nonempty_text : Value X → Option String
  nonempty_text (str s) = if is_empty s then none else some s
  nonempty_text _ = none

  unfoldable pub profile_of : Value X → Option Profile
  unfolding text_discrete
  profile_of (str s) =
      ite (text_discrete s "mapping") (some mapping)
        (ite (text_discrete s "alpha_beta_crown") (some alpha_beta_crown) none)
  profile_of _ = none

-- `except Exception as exc: raise wrapped from exc`
abbrev pub wrap : {A : Type 0} → Result A → Exception → Result A
wrap (ok a) wrapped = ok a
wrap (err exc) wrapped = err wrapped

module _ {X D : Type 0} (lib : Library X D) where
  unfoldable pub unpickled : Bootstrap D → Result D
  unpickled (live domains) = ok domains
  unpickled (pickled payload) =
      wrap (lib.load payload) (exception value_error "invalid BatchedDomainList bootstrap bytes")

  -- `__init__`
  unfoldable pub init : Bootstrap D → Value X → Value X → Result (Actor D)
  unfolding profile_of unpickled
  init domains_or_bytes job_id validation_profile = do
    job ← or_raise (nonempty_text job_id) (exception value_error "job_id must not be empty")
    profile ←
        or_raise (profile_of validation_profile)
          (exception value_error "unknown validation profile")
    domains ← unpickled domains_or_bytes
    ok (record {
      job_id = job;
      domains = domains;
      validate_add = profile;
      registered_workers = [];
      checkouts = [];
      failure_reason = none;
      version = 0;
    })
