-- ===== src/Actor/Tokens.antt =====
-- A checkout token of `BatchedDomainListActor` is good once: after it was given back it is never
-- held again, and no later call is accepted with it.
use freethreaded_dataplane.Common.{◌≡◌, ap, ◌≢◌, Option, some, List, [], ◌∷◌, String, arith}
use freethreaded_dataplane.Common.Dict.{lookup, lookup-insert, lookup-erase}
use freethreaded_dataplane.Errors.{Exception, Result, ok, err}
use freethreaded_dataplane.Python.{Value, str}
use freethreaded_dataplane.Library.{Library}
use freethreaded_dataplane.Actor.State.{Actor}
use freethreaded_dataplane.Actor.Methods
use freethreaded_dataplane.Actor.Calls.{Call, offered, step, run}
use freethreaded_dataplane.Actor.Invariant.{IsValid, Move-IsValid, step-IsValid, run-IsValid}
use freethreaded_dataplane.Actor.Checkout.{settled}
use freethreaded_dataplane.Actor.Settling.{
  Owns, Published, Completed, publish_outcomes, complete_outcomes,
}
use freethreaded_dataplane.Actor.Protocol.{
  Move, stay, join, lend, settle, reorder, break, leave, abandon, tick,
}
use freethreaded_dataplane.Actor.Protocol.Steps.{step-Move}
use freethreaded_dataplane.Actor.Protocol.Moves

-- No worker has the token checked out.
abbrev pub IsFree : {D : Type 0} → String → Actor D → Type 0
IsFree t a = (w : String) → lookup w a.checkouts ≢ some t

-- No call hands the token out.
abbrev pub NoneOffers : {X : Type 0} → String → List (Call X) → Type 0
NoneOffers t [] = Unit {0}
NoneOffers t (c ∷ cs) = (offered c ≢ some t) × NoneOffers t cs

module _ {D : Type 0} where
  Move-IsFree :
      {o : Option String} {a b : Actor D} (t : String)
      → Move o a b
      → o ≢ some t
      → IsValid a
      → IsFree t a
      → IsFree t b
  Move-IsFree {o} {a} {b} t (stay e) n v f = λ j. ground (arith, f j)
  Move-IsFree {o} {a} {b} t (join w live new e) n v f = λ j. ground (arith, f j)
  Move-IsFree {o} {a} {b} t (lend w s d given live known free e) n v f =
      λ j. ground (arith, f j, lookup-insert j w s a.checkouts)
  Move-IsFree {o} {a} {b} t (settle w d live known e) n v f =
      λ j. ground (arith, f j, lookup-erase j w a.checkouts v.distinct)
  Move-IsFree {o} {a} {b} t (reorder d live e) n v f = λ j. ground (arith, f j)
  Move-IsFree {o} {a} {b} t (break reason d m live ns e) n v f = λ j. ground (arith, f j)
  Move-IsFree {o} {a} {b} t (leave w free e) n v f = λ j. ground (arith, f j)
  Move-IsFree {o} {a} {b} t (abandon w reason live held e) n v f = λ j. ground (arith, f j)
  Move-IsFree {o} {a} {b} t (tick e) n v f = λ j. ground (arith, f j)

  -- Whoever holds the token is the worker.
  abbrev pub OnlyHolder : String → String → Actor D → Type 0
  OnlyHolder t worker a = (w : String) → lookup w a.checkouts ≡ some t → w ≡ worker

  Move-OnlyHolder :
      {o : Option String} {a b : Actor D} (t worker : String)
      → Move o a b
      → o ≢ some t
      → IsValid a
      → OnlyHolder t worker a
      → OnlyHolder t worker b
  Move-OnlyHolder {o} {a} {b} t x (stay e) n v f = λ j h. f j (ground arith)
  Move-OnlyHolder {o} {a} {b} t x (join w live new e) n v f = λ j h. f j (ground arith)
  Move-OnlyHolder {o} {a} {b} t x (lend w s d given live known free e) n v f =
      λ j h. f j (ground (arith, lookup-insert j w s a.checkouts))
  Move-OnlyHolder {o} {a} {b} t x (settle w d live known e) n v f =
      λ j h. f j (ground (arith, lookup-erase j w a.checkouts v.distinct))
  Move-OnlyHolder {o} {a} {b} t x (reorder d live e) n v f = λ j h. f j (ground arith)
  Move-OnlyHolder {o} {a} {b} t x (break reason d m live ns e) n v f = λ j h. f j (ground arith)
  Move-OnlyHolder {o} {a} {b} t x (leave w free e) n v f = λ j h. f j (ground arith)
  Move-OnlyHolder {o} {a} {b} t x (abandon w reason live held e) n v f = λ j h. f j (ground arith)
  Move-OnlyHolder {o} {a} {b} t x (tick e) n v f = λ j h. f j (ground arith)

  -- A move that may lend a free token leaves at most one worker with it.
  lend-OnlyHolder :
      {o : Option String} {a b : Actor D} (t : String)
      → Move o a b
      → o ≡ some t
      → IsValid a
      → IsFree t a
      → (worker : String) × OnlyHolder t worker b
  lend-OnlyHolder {o} {a} {b} t (lend w s d given live known free e) n v f =
      (w, λ j h. ground (arith, f j, lookup-insert j w s a.checkouts))
  lend-OnlyHolder {o} {a} {b} t (stay e) n v f = (t, λ j h. absurd (f j (ground arith)))
  lend-OnlyHolder {o} {a} {b} t (join w live new e) n v f = (t, λ j h. absurd (f j (ground arith)))
  lend-OnlyHolder {o} {a} {b} t (settle w d live known e) n v f =
      (t, λ j h. absurd (f j (ground (arith, lookup-erase j w a.checkouts v.distinct))))
  lend-OnlyHolder {o} {a} {b} t (reorder d live e) n v f = (t, λ j h. absurd (f j (ground arith)))
  lend-OnlyHolder {o} {a} {b} t (break reason d m live ns e) n v f =
      (t, λ j h. absurd (f j (ground arith)))
  lend-OnlyHolder {o} {a} {b} t (leave w free e) n v f = (t, λ j h. absurd (f j (ground arith)))
  lend-OnlyHolder {o} {a} {b} t (abandon w reason live held e) n v f =
      (t, λ j h. absurd (f j (ground arith)))
  lend-OnlyHolder {o} {a} {b} t (tick e) n v f = (t, λ j h. absurd (f j (ground arith)))

module _ {X D : Type 0} (lib : Library X D) where
  run-OnlyHolder :
      (t worker : String) (cs : List (Call X)) (a : Actor D)
      → NoneOffers t cs
      → IsValid a
      → OnlyHolder t worker a
      → OnlyHolder t worker (run lib cs a)
  unfolding run
  run-OnlyHolder t worker [] a n v f = f
  run-OnlyHolder t worker (c ∷ cs) a n v f =
      run-OnlyHolder t worker cs (step lib c a).1 n.1 (step-IsValid lib c a v)
        (Move-OnlyHolder t worker (step-Move lib c a) n.0 v f)

  run-IsFree :
      (t : String) (cs : List (Call X)) (a : Actor D)
      → NoneOffers t cs
      → IsValid a
      → IsFree t a
      → IsFree t (run lib cs a)
  unfolding run
  run-IsFree t [] a n v f = f
  run-IsFree t (c ∷ cs) a n v f =
      run-IsFree t cs (step lib c a).1 n.1 (step-IsValid lib c a v)
        (Move-IsFree t (step-Move lib c a) n.0 v f)

  publish_refused :
      (w : Value X) (t : String) (b d c : Value X) (a : Actor D)
      → IsFree t a
      → (e : Exception) × (Methods.publish_children lib w (str t) b d c a ≡ (err e, a))
  publish_refused w t b d c a f = refuse (publish_outcomes lib w (str t) b d c a)
    where
      refuse :
          {r : Result (Value X) × Actor D}
          → Published lib w (str t) b d c a r
          → (e : Exception) × (r ≡ (err e, a))
      refuse (Published.refused e only p) = (e, p)
      refuse (Published.taken worker tok check lb left o boolean fit grown p) =
          absurd (f worker (ground (arith, o.active, o.names_token)))
      refuse (Published.broken worker tok check left o boolean raises p) =
          absurd (f worker (ground (arith, o.active, o.names_token)))

  complete_refused :
      (w : Value X) (t : String) (a : Actor D)
      → IsFree t a
      → (e : Exception) × ((Methods.complete_pick_to_local lib w (str t) a).0 ≡ err e)
  complete_refused w t a f = refuse (complete_outcomes lib w (str t) a)
    where
      refuse :
          {r : Result (Value X) × Actor D}
          → Completed lib w (str t) a r
          → (e : Exception) × (r.0 ≡ err e)
      refuse (Completed.refused e p) = (e, ap (λ r. r.0) p)
      refuse (Completed.closed worker tok s named active q p) = absurd (f worker (ground arith))
      refuse (Completed.poisoned worker s named free p) = (_, ap (λ r. r.0) p)

  -- A token that nobody has checked out, and that no later `pick_out` hands out again, stays spent
  -- over every run of calls: afterwards a publication with it is refused and changes nothing, and a
  -- completion with it raises, whichever worker calls.
  pub token_spent :
      (t : String) (cs : List (Call X)) (a : Actor D) (w b d c : Value X)
      → IsValid a
      → IsFree t a
      → NoneOffers t cs
      → let z = run lib cs a in
        IsFree t z
        × ((e : Exception) × (Methods.publish_children lib w (str t) b d c z ≡ (err e, z)))
        × ((e : Exception) × ((Methods.complete_pick_to_local lib w (str t) z).0 ≡ err e))
  token_spent t cs a w b d c v f n =
      let free = run-IsFree t cs a n v f in
      (
        free,
        publish_refused w t b d c (run lib cs a) free,
        complete_refused w t (run lib cs a) free,
      )

  settled-IsFree :
      {w : Value X} {tok worker only t : String} {a : Actor D} (d : D)
      → Owns w (str t) worker tok a
      → IsValid a
      → OnlyHolder t only a
      → IsFree t (settled worker d a)
  settled-IsFree {w} {tok} {worker} {only} {t} {a} d o v holder = λ j h.
      let names = o.names_token in
      let active = o.active in
      ground (arith, holder j, holder worker, lookup-erase j worker a.checkouts v.distinct)

  taken-IsFree :
      (w : Value X) (t only : String) (b d c : Value X) (a : Actor D) (answer : Value X)
      → IsValid a
      → OnlyHolder t only a
      → (Methods.publish_children lib w (str t) b d c a).0 ≡ ok answer
      → IsFree t (Methods.publish_children lib w (str t) b d c a).1
  taken-IsFree w t only b d c a answer v holder h = free (publish_outcomes lib w (str t) b d c a) h
    where
      free :
          {r : Result (Value X) × Actor D}
          → Published lib w (str t) b d c a r
          → r.0 ≡ ok answer
          → IsFree t r.1
      free (Published.refused e only p) h = cc
      free (Published.taken worker tok check lb left o boolean fit grown p) h =
          rw p (settled-IsFree left o v holder)
      free (Published.broken worker tok check left o boolean raises p) h = cc

  -- A token is accepted once. Let a token be free in a valid actor, one `pick_out` offer it and no
  -- other call after it. If, after any calls in between, a publication with the token is accepted,
  -- then after any calls that follow no worker holds the token, a second publication with it is
  -- refused and changes nothing, and a completion with it raises, whichever workers call.
  pub token_once :
      (t : String) (pick : Call X) (cs ds : List (Call X)) (a : Actor D)
      (w b d c w' b' d' c' answer : Value X)
      → IsValid a
      → IsFree t a
      → offered pick ≡ some t
      → NoneOffers t cs
      → NoneOffers t ds
      → (Methods.publish_children lib w (str t) b d c (run lib cs (step lib pick a).1)).0
        ≡ ok answer
      → let y = run lib cs (step lib pick a).1 in
        let z = run lib ds (Methods.publish_children lib w (str t) b d c y).1 in
        IsFree t z
        × ((e : Exception) × (Methods.publish_children lib w' (str t) b' d' c' z ≡ (err e, z)))
        × ((e : Exception) × ((Methods.complete_pick_to_local lib w' (str t) z).0 ≡ err e))
  token_once t pick cs ds a w b d c w' b' d' c' answer v f o n m accepted =
      let picked = step-IsValid lib pick a v in
      let y = run lib cs (step lib pick a).1 in
      let valid = run-IsValid lib cs (step lib pick a).1 picked in
      let (only, first) = lend-OnlyHolder t (step-Move lib pick a) o v f in
      let holder = run-OnlyHolder t only cs (step lib pick a).1 n picked first in
      token_spent t ds _ w' b' d' c'
        (Move-IsValid (Moves.publish_children-Move lib w (str t) b d c y) valid)
        (taken-IsFree w t only b d c y answer valid holder accepted) m
