-- ===== src/Exec.antt =====
-- The methods of a Python object as state passing with exceptions: what a method wrote before it
-- raised stays written.
use freethreaded_dataplane.Common.{◌≡◌, refl, ap, Bool, true, false, Option, none, some}
use freethreaded_dataplane.Errors.{Exception, Result, ok, err}

abbrev pub Action : Type 0 → Type 0 → Type 0
Action S A = S → Result A × S

module _ {S : Type 0} where
  abbrev pub pure : {A : Type 0} → A → Action S A
  pure a s = (ok a, s)

  abbrev pub raise : {A : Type 0} → Exception → Action S A
  raise e s = (err e, s)

  abbrev pub gets : {A : Type 0} → (S → A) → Action S A
  gets f s = (ok (f s), s)

  abbrev pub modify : (S → S) → Action S (Unit {0})
  modify f s = (ok tt, f s)

  abbrev pub or_raise : {A : Type 0} → Option A → Exception → Action S A
  or_raise none e = raise e
  or_raise (some a) e = pure a

  abbrev pub of_result : {A : Type 0} → Result A → Action S A
  of_result r s = (r, s)

  infixl 5 ◌>>=◌ ◌>>◌
  abbrev pub ◌>>=◌ : {A B : Type 0} → Action S A → (A → Action S B) → Action S B
  ◌>>=◌ m f s = let (r, s') = m s in elim r [ ok a ↦ f a s' | err e ↦ (err e, s') ]

  abbrev pub ◌>>◌ : {A B : Type 0} → Action S A → Action S B → Action S B
  m >> k = m >>= λ _. k

  abbrev pub raise_if : Bool → Exception → Action S (Unit {0})
  raise_if true e s = (err e, s)
  raise_if false e s = (ok tt, s)

  abbrev pub when : Bool → Action S (Unit {0}) → Action S (Unit {0})
  when true m s = m s
  when false m s = (ok tt, s)

  -- `try: m  except Exception as exc: handler(exc)`
  abbrev pub catch : {A : Type 0} → Action S A → (Exception → Action S A) → Action S A
  catch m handler s = let (r, s') = m s in elim r [ ok a ↦ (ok a, s') | err e ↦ handler e s' ]

module _ {S A B : Type 0} where
  pub bind_ok :
      (m : Action S A) (f : A → Action S B) {a : A} {s t : S}
      → m s ≡ (ok a, t)
      → (m >>= f) s ≡ f a t
  bind_ok m f {s = s} h = ap (λ r. ◌>>=◌ (λ (u : S). r) f s) h

  pub bind_err :
      (m : Action S A) (f : A → Action S B) {e : Exception} {s t : S}
      → m s ≡ (err e, t)
      → (m >>= f) s ≡ (err e, t)
  bind_err m f {s = s} h = ap (λ r. ◌>>=◌ (λ (u : S). r) f s) h

  -- What a sequence that ended well did.
  continued :
      (r : Result A × S) (f : A → Action S B) (s : S) {b : B} {t : S}
      → ((λ (u : S). r) >>= f) s ≡ (ok b, t)
      → (a : A) × (s' : S) × (r ≡ (ok a, s')) × (f a s' ≡ (ok b, t))
  continued (ok a, s') f s h = (a, s', refl, h)
  continued (err e, s') f s h = cc

  pub bind_inv :
      (m : Action S A) (f : A → Action S B) {b : B} {s t : S}
      → (m >>= f) s ≡ (ok b, t)
      → (a : A) × (s' : S) × (m s ≡ (ok a, s')) × (f a s' ≡ (ok b, t))
  bind_inv m f {s = s} h = continued (m s) f s h

module _ {S B : Type 0} where
  -- A check that let the sequence go on.
  pub guard_inv :
      (c : Bool) (e : Exception) (f : Unit {0} → Action S B) {b : B} {s t : S}
      → (raise_if c e >>= f) s ≡ (ok b, t)
      → (c ≡ false) × (f tt s ≡ (ok b, t))
  guard_inv true e f h = cc
  guard_inv false e f h = (refl, h)

module _ {S A B : Type 0} where
  pub found_inv :
      (o : Option A) (e : Exception) (f : A → Action S B) {b : B} {s t : S}
      → (or_raise o e >>= f) s ≡ (ok b, t)
      → (a : A) × (o ≡ some a) × (f a s ≡ (ok b, t))
  found_inv none e f h = cc
  found_inv (some a) e f h = (a, refl, h)

  pub result_inv :
      (r : Result A) (f : A → Action S B) {b : B} {s t : S}
      → (of_result r >>= f) s ≡ (ok b, t)
      → (a : A) × (r ≡ ok a) × (f a s ≡ (ok b, t))
  result_inv (ok a) f h = (a, refl, h)
  result_inv (err e) f h = cc

module _ {S B : Type 0} where
  pub guard_ok :
      (c : Bool) (e : Exception) (f : Unit {0} → Action S B) {s : S}
      → c ≡ false
      → (raise_if c e >>= f) s ≡ f tt s
  guard_ok c e f {s} h = ap (λ c. (raise_if c e >>= f) s) h
