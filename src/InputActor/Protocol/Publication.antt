-- ===== src/InputActor/Protocol/Publication.antt =====
-- `InputDomainListActor.publish` taken apart: `_add`, the deletion of the checkout, and the three ways
-- in which they end once the guards have passed.
use freethreaded_dataplane.Common.{◌+◌, ◌≡◌, ◌∙◌, true, none, some, String, arith}
use freethreaded_dataplane.Common.Dict.{lookup, erase}
use freethreaded_dataplane.Common.Members.{member}
use freethreaded_dataplane.Exec.{◌>>=◌, ◌>>◌, bind_ok, bind_err}
use freethreaded_dataplane.Errors.{Exception, ok, err, exception, key_error}
use freethreaded_dataplane.Python.{Value, str}
use freethreaded_dataplane.InputActor.State.{InputActor, InputLibrary, failure_text, matches}
use freethreaded_dataplane.InputActor.Methods

module _ {X D : Type 0} (lib : InputLibrary X D) where
  -- What `_add` and `del self._checkouts[name]` come to.
  pub add_accepts :
      (args kwargs v : Value X) (a : InputActor D)
      → (lib.add args kwargs a.domains).0 ≡ ok v
      → Methods.add lib args kwargs a
        ≡ (ok v, record a { domains = (lib.add args kwargs a.domains).1; version = a.version + 1 })
  unfolding Methods.add
  add_accepts args kwargs v a h = ground arith

  pub add_raises :
      (args kwargs : Value X) (exc : Exception) (a : InputActor D)
      → (lib.add args kwargs a.domains).0 ≡ err exc
      → Methods.add lib args kwargs a ≡ (
        err exc,
        record a {
          domains = (lib.add args kwargs a.domains).1;
          failure = some (failure_text exc);
          version = a.version + 1;
        },
      )
  unfolding Methods.add
  add_raises args kwargs exc a h = ground arith

  pub delete_held :
      (name token : String) (a : InputActor D)
      → lookup name a.checkouts ≡ some token
      → Methods.delete_checkout lib name a
        ≡ (ok tt, record a { checkouts = erase name a.checkouts; version = a.version + 1 })
  unfolding Methods.delete_checkout
  delete_held name token a h = ground arith

  pub delete_missing :
      (name : String) (a : InputActor D)
      → lookup name a.checkouts ≡ none
      → Methods.delete_checkout lib name a ≡ (err (exception key_error (lib.repr name)), a)
  unfolding Methods.delete_checkout
  delete_missing name a h = ground arith

  -- A publication whose guards have passed is `_add`, and then the deletion and the answer.
  pub publish_passes :
      (w t args kwargs : Value X) (name : String) (a : InputActor D)
      → a.failure ≡ none
      → w ≡ str name
      → member name a.workers ≡ true
      → matches (lookup name a.checkouts) t ≡ true
      → Methods.publish lib w t args kwargs a
        ≡ (Methods.add lib args kwargs >>= λ result.
              Methods.delete_checkout lib name >> Methods.answer_result lib result)
            a
  unfolding Methods.publish
  publish_passes w t args kwargs name a live named known right = ground arith

  -- The three ways in which it then ends.
  pub publish_raises :
      (w t args kwargs : Value X) (name : String) (exc : Exception) (a : InputActor D)
      → a.failure ≡ none
      → w ≡ str name
      → member name a.workers ≡ true
      → matches (lookup name a.checkouts) t ≡ true
      → (lib.add args kwargs a.domains).0 ≡ err exc
      → Methods.publish lib w t args kwargs a ≡ (
        err exc,
        record a {
          domains = (lib.add args kwargs a.domains).1;
          failure = some (failure_text exc);
          version = a.version + 1;
        },
      )
  publish_raises w t args kwargs name exc a live named known right e =
      publish_passes w t args kwargs name a live named known right
      ∙ bind_err (Methods.add lib args kwargs)
          (λ r. Methods.delete_checkout lib name >> Methods.answer_result lib r)
          (add_raises args kwargs exc a e)

  pub publish_settles :
      (w t args kwargs v : Value X) (name token : String) (a : InputActor D)
      → a.failure ≡ none
      → w ≡ str name
      → member name a.workers ≡ true
      → matches (lookup name a.checkouts) t ≡ true
      → (lib.add args kwargs a.domains).0 ≡ ok v
      → lookup name a.checkouts ≡ some token
      → let b = record a {
        domains = (lib.add args kwargs a.domains).1;
        checkouts = erase name a.checkouts;
        version = a.version + 1 + 1;
      } in
        Methods.publish lib w t args kwargs a ≡ Methods.answer_result lib v b
  publish_settles w t args kwargs v name token a live named known right e held =
      publish_passes w t args kwargs name a live named known right
      ∙ bind_ok (Methods.add lib args kwargs)
          (λ r. Methods.delete_checkout lib name >> Methods.answer_result lib r)
          (add_accepts args kwargs v a e)
      ∙ bind_ok (Methods.delete_checkout lib name) (λ u. Methods.answer_result lib v)
          (delete_held name token
            (record a { domains = (lib.add args kwargs a.domains).1; version = a.version + 1 })
            held)

  pub publish_unheld :
      (w t args kwargs v : Value X) (name : String) (a : InputActor D)
      → a.failure ≡ none
      → w ≡ str name
      → member name a.workers ≡ true
      → matches (lookup name a.checkouts) t ≡ true
      → (lib.add args kwargs a.domains).0 ≡ ok v
      → lookup name a.checkouts ≡ none
      → Methods.publish lib w t args kwargs a ≡ (
        err (exception key_error (lib.repr name)),
        record a { domains = (lib.add args kwargs a.domains).1; version = a.version + 1 },
      )
  publish_unheld w t args kwargs v name a live named known right e free =
      publish_passes w t args kwargs name a live named known right
      ∙ bind_ok (Methods.add lib args kwargs)
          (λ r. Methods.delete_checkout lib name >> Methods.answer_result lib r)
          (add_accepts args kwargs v a e)
      ∙ bind_err (Methods.delete_checkout lib name) (λ u. Methods.answer_result lib v)
          (delete_missing name
            (record a { domains = (lib.add args kwargs a.domains).1; version = a.version + 1 })
            free)
