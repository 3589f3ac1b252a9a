-- ===== src/Actor/Checkout.antt =====
-- How `BatchedDomainListActor` lends domains and takes children back.
use freethreaded_dataplane.Common.{
  ℕ, zero, suc, ◌+◌, ◌<◌, ◌≡◌, true, none, some, [], ◌∷◌, String, ite, min, arith,
}
use freethreaded_dataplane.Common.Int.{pos}
use freethreaded_dataplane.Common.Text.{text_discrete}
use freethreaded_dataplane.Common.Dict.{lookup, insert, erase, lookup-insert}
use freethreaded_dataplane.Common.Members.{member}
use freethreaded_dataplane.Errors.{ok}
use freethreaded_dataplane.Python.{Value, str, int, dict, fields}
use freethreaded_dataplane.Library.{Library, IsDomainList}
use freethreaded_dataplane.Actor.State.{Actor, state_dict}
use freethreaded_dataplane.Actor.Methods

-- A running actor that knows the worker.
pub record IsServing {D : Type 0} (worker : String) (a : Actor D) : Type 0 where
  pub live : a.failure_reason ≡ none
  pub known : member worker a.registered_workers ≡ true

-- The actor after it lent `d`'s complement to the worker under a token.
abbrev pub lent : {D : Type 0} → String → String → D → Actor D → Actor D
lent worker t d a = record a {
  domains = d;
  checkouts = insert worker t a.checkouts;
  version = a.version + 1;
}

-- The actor after it took the worker's checkout back.
abbrev pub settled : {D : Type 0} → String → D → Actor D → Actor D
settled worker d a = record a {
  domains = d;
  checkouts = erase worker a.checkouts;
  version = a.version + 1;
}

module _ {X D : Type 0} (lib : Library X D) (law : IsDomainList lib) where
  -- A registered worker without a checkout that asks a running actor for up to `n` domains, `n`
  -- above zero, gets them while any are pending: the list's `pick_out` of `min n pending` succeeds,
  -- the answer carries its result and the new token, the list that it left stays and has that many
  -- domains less, that worker alone now holds the token, and the version counts the change.
  pub pick_out_lends :
      (t worker : String) (n : ℕ) (a : Actor D)
      → IsServing worker a
      → lookup worker a.checkouts ≡ none
      → 0 < n
      → 0 < lib.size a.domains
      → (v : Value X) × (d : D) × (lib.pick_out (min n (lib.size a.domains)) a.domains ≡ (ok v, d))
        × (Methods.pick_out lib t (str worker) (int (pos n)) a ≡ (
          ok (
              dict (
                fields (
                  ("status", str "data")
                  ∷ ("domains", v)
                  ∷ ("checkout", str t)
                  ∷ ("state", dict (state_dict lib (lent worker t d a)))
                  ∷ []))),
          lent worker t d a,
        ))
        × (lib.size d + min n (lib.size a.domains) ≡ lib.size a.domains)
        × ((w : String)
            → lookup w (lent worker t d a).checkouts
              ≡ ite (text_discrete w worker) (some t) (lookup w a.checkouts))
  unfolding Methods.pick_out Methods.pick_pending
  pick_out_lends t worker zero a s free p q = elim p [ ]
  pick_out_lends t worker (suc n) a s free p q =
      let (v, d, picked, left) =
        law.pick_takes (min (suc n) (lib.size a.domains)) a.domains (omega arith) (omega arith) in
      (
        v,
        d,
        picked,
        ground (arith, s.live, s.known),
        left,
        λ w. lookup-insert w worker t a.checkouts,
      )
