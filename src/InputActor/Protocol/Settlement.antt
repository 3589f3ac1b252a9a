-- ===== src/InputActor/Protocol/Settlement.antt =====
-- The methods of `InputDomainListActor` that close a checkout make a move of the protocol.
use freethreaded_dataplane.Common.{
  ◌≡◌, ap, inl, inr, true, none, String, arith, Option-cases, Bool-cases,
}
use freethreaded_dataplane.Common.Dict.{lookup}
use freethreaded_dataplane.Common.Members.{member}
use freethreaded_dataplane.Errors.{Result-cases}
use freethreaded_dataplane.Python.{Value, str}
use freethreaded_dataplane.InputActor.State.{InputActor, InputLibrary, failure_text, matches}
use freethreaded_dataplane.InputActor.Methods
use freethreaded_dataplane.InputActor.Protocol.{InputMove, stay, take_in, settle, break}
use freethreaded_dataplane.InputActor.Protocol.Guards.{worker_cases}
use freethreaded_dataplane.InputActor.Protocol.Publication.{
  publish_raises, publish_settles, publish_unheld,
}

module _ {X D : Type 0} (lib : InputLibrary X D) where
  publish_checked :
      (w t args kwargs : Value X) (name : String) (a : InputActor D)
      → a.failure ≡ none
      → w ≡ str name
      → member name a.workers ≡ true
      → matches (lookup name a.checkouts) t ≡ true
      → InputMove none a (Methods.publish lib w t args kwargs a).1
  publish_checked w t args kwargs name a live named known right =
      let added = lib.add args kwargs a.domains in
      elim (Result-cases added.0) [
        | inr (exc, e) ↦
            break (failure_text exc) added.1 live (
              ap (λ r. r.1)
                (publish_raises lib w t args kwargs name exc a live named known right e))
        | inl (v, e) ↦ elim (Option-cases (lookup name a.checkouts)) [
          | inl free ↦ take_in name added.1 live known free (
              ap (λ r. r.1)
                (publish_unheld lib w t args kwargs v name a live named known right e free))
          | inr (active, held) ↦ settle name active added.1 1 live known held (omega arith) (
              ap (λ r. r.1)
                (publish_settles lib w t args kwargs v name active a live named known right e held))
        ]
      ]

  pub publish-Move :
      (w t args kwargs : Value X) (a : InputActor D)
      → InputMove none a (Methods.publish lib w t args kwargs a).1
  unfolding Methods.publish
  publish-Move w t args kwargs a = elim (Option-cases a.failure) [
    | inr (reason, failed) ↦ stay (ground arith)
    | inl live ↦ elim (worker_cases lib w a) [
      | inr (e, refused) ↦ stay (ground arith)
      | inl (name, named, known) ↦ elim (Bool-cases (matches (lookup name a.checkouts) t)) [
        | inl right ↦ publish_checked w t args kwargs name a live named known right
        | inr wrong ↦ stay (ground arith)
      ]
    ]
  ]

  pub complete-Move :
      (w t : Value X) (a : InputActor D) → InputMove none a (Methods.complete lib w t a).1
  unfolding Methods.complete
  complete-Move w t a = elim (Option-cases a.failure) [
    | inr (reason, failed) ↦ stay (ground arith)
    | inl live ↦ elim (worker_cases lib w a) [
      | inr (e, refused) ↦ stay (ground arith)
      | inl (name, named, known) ↦ elim (Bool-cases (matches (lookup name a.checkouts) t)) [
        | inr wrong ↦ stay (ground arith)
        | inl right ↦ elim (Option-cases (lookup name a.checkouts)) [
          | inl free ↦ stay (ground arith)
          | inr (active, held) ↦
              settle name active a.domains 0 live known held (omega arith) (ground arith)
        ]
      ]
    ]
  ]
