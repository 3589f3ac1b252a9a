-- ===== src/InputActor/Publishing.antt =====
-- What a publication of input splits comes to.
use freethreaded_dataplane.Common.{
  ◌+◌, ◌≡◌, refl, inl, inr, true, false, none, some, String, arith, Option-cases, Bool-cases,
}
use freethreaded_dataplane.Common.Dict.{lookup, erase}
use freethreaded_dataplane.Common.Members.{member}
use freethreaded_dataplane.Library.{hashable}
use freethreaded_dataplane.Errors.{
  Exception, Result, ok, err, exception, actor_failed, key_error, Result-cases,
}
use freethreaded_dataplane.Python.{Value, null, str}
use freethreaded_dataplane.InputActor.State.{
  InputActor, InputLibrary, invalid, failure_text, matches, worker,
}
use freethreaded_dataplane.InputActor.Methods
use freethreaded_dataplane.InputActor.Protocol.Guards.{matches_cases, worker_cases}
use freethreaded_dataplane.InputActor.Protocol.Publication.{
  publish_raises, publish_settles, publish_unheld,
}

module _ {X D : Type 0} (lib : InputLibrary X D) where
  -- The list after `add`, and its result or exception.
  abbrev pub grown : Value X → Value X → InputActor D → D
  grown args kwargs a = (lib.add args kwargs a.domains).1

  -- The guards of a publication by a worker: the actor runs, the worker is registered, and the token
  -- is what the dictionary of checkouts gives for it.
  pub record Passes (w t : Value X) (name : String) (a : InputActor D) : Type 0 where
    pub live : a.failure ≡ none
    pub named : w ≡ str name
    pub known : member name a.workers ≡ true
    pub right : matches (lookup name a.checkouts) t ≡ true

  -- The ways in which a publication ends.
  pub data Ended (w t args kwargs : Value X) (a : InputActor D)
      (r : Result (Value X) × InputActor D) : Type 0 where
    refused :
        (e : Exception)
        → ((name : String) → ¬ Passes w t name a)
        → r ≡ (err e, a)
        → Ended w t args kwargs a r
    taken :
        (name token : String) (v : Value X)
        → Passes w t name a
        → t ≡ str token
        → lookup name a.checkouts ≡ some token
        → (lib.add args kwargs a.domains).0 ≡ ok v
        → r
          ≡ Methods.answer_result lib v (record a {
            domains = grown args kwargs a;
            checkouts = erase name a.checkouts;
            version = a.version + 1 + 1;
          })
        → Ended w t args kwargs a r
    broken :
        (name : String) (exc : Exception)
        → Passes w t name a
        → (lib.add args kwargs a.domains).0 ≡ err exc
        → r ≡ (
          err exc,
          record a {
            domains = grown args kwargs a;
            failure = some (failure_text exc);
            version = a.version + 1;
          },
        )
        → Ended w t args kwargs a r
    leaked :
        (name : String) (v : Value X)
        → Passes w t name a
        → t ≡ null
        → lookup name a.checkouts ≡ none
        → (lib.add args kwargs a.domains).0 ≡ ok v
        → r ≡ (
          err (exception key_error (lib.repr name)),
          record a { domains = grown args kwargs a; version = a.version + 1 },
        )
        → Ended w t args kwargs a r

  ends_checked :
      (w t args kwargs : Value X) (name : String) (a : InputActor D)
      → Passes w t name a
      → Ended w t args kwargs a (Methods.publish lib w t args kwargs a)
  ends_checked w t args kwargs name a p = elim (Result-cases (lib.add args kwargs a.domains).0) [
    | inr (exc, e) ↦
        broken name exc p e
          (publish_raises lib w t args kwargs name exc a p.live p.named p.known p.right e)
    | inl (v, e) ↦ elim (matches_cases (lookup name a.checkouts) t p.right) [
      | inl (free, nothing) ↦
          leaked name v p nothing free e
            (publish_unheld lib w t args kwargs v name a p.live p.named p.known p.right e free)
      | inr (token, held, presents) ↦
          taken name token v p presents held e (
            publish_settles lib w t args kwargs v name token a p.live p.named p.known p.right e
              held)
    ]
  ]

  stranger_is_stopped :
      (w t : Value X) (name : String) (e : Exception) (a : InputActor D)
      → worker lib w a ≡ (err e, a)
      → ¬ Passes w t name a
  unfolding worker hashable
  stranger_is_stopped w t name e a stranger p = ground (arith, stranger, p.named, p.known)

  stale_is_stopped :
      (w t : Value X) (named name : String) (a : InputActor D)
      → w ≡ str named
      → matches (lookup named a.checkouts) t ≡ false
      → ¬ Passes w t name a
  stale_is_stopped w t named name a names wrong p = ground (arith, wrong, names, p.named, p.right)

  -- A publication of input splits ends in one of four ways. It is refused and nothing has changed,
  -- which happens only if the actor has failed, the worker is not registered, or the token is not
  -- what the checkouts give for it. Or the worker presented the token that it has checked out and
  -- the list's `add` of the arguments succeeded: its result is answered, its list is kept, this
  -- checkout alone is closed and the version counts two changes. Or the list's `add` raised, and the
  -- actor has failed with the list as it was left and the checkouts as they were. Or the worker, with
  -- nothing checked out, presented `None`, the list's `add` succeeded, its list is kept, and a
  -- `KeyError` is raised.
  pub input_publish_outcomes :
      (w t args kwargs : Value X) (a : InputActor D)
      → Ended w t args kwargs a (Methods.publish lib w t args kwargs a)
  unfolding Methods.publish
  input_publish_outcomes w t args kwargs a = elim (Option-cases a.failure) [
    | inr (reason, failed) ↦
        refused (exception actor_failed reason) (λ n p. let live = p.live in cc) (ground arith)
    | inl live ↦ elim (worker_cases lib w a) [
      | inr (e, stranger) ↦
          refused e (λ n p. stranger_is_stopped w t n e a stranger p) (ground arith)
      | inl (name, named, known) ↦ elim (Bool-cases (matches (lookup name a.checkouts) t)) [
        | inl right ↦
            ends_checked w t args kwargs name a
              (record { live = live; named = named; known = known; right = right })
        | inr wrong ↦
            refused (invalid "stale or foreign checkout")
              (λ n p. stale_is_stopped w t name n a named wrong p) (ground arith)
      ]
    ]
  ]

  -- A registered worker that has nothing checked out publishes with the token `None`: the guard
  -- passes, since `None` is what the dictionary gives, the list takes the children, and only then a
  -- `KeyError` is raised. The actor runs on, and the children stay in the list.
  pub publish_without_checkout :
      (name : String) (args kwargs v : Value X) (a : InputActor D)
      → a.failure ≡ none
      → member name a.workers ≡ true
      → lookup name a.checkouts ≡ none
      → (lib.add args kwargs a.domains).0 ≡ ok v
      → Methods.publish lib (str name) null args kwargs a ≡ (
        err (exception key_error (lib.repr name)),
        record a { domains = grown args kwargs a; version = a.version + 1 },
      )
  publish_without_checkout name args kwargs v a live known free e =
      publish_unheld lib (str name) null args kwargs v name a live refl known (ground arith) e free
