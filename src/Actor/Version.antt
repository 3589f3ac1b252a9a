-- ===== src/Actor/Version.antt =====
-- What the version of `BatchedDomainListActor` tells an observer.
use freethreaded_dataplane.Common.{
  ◌+◌, ◌≤◌, ◌≡◌, refl, Option, none, List, [], ◌∷◌, String, arith, length,
}
use freethreaded_dataplane.Library.{Library}
use freethreaded_dataplane.Actor.State.{Actor}
use freethreaded_dataplane.Actor.Calls.{Call, step, run}
use freethreaded_dataplane.Actor.Protocol.{
  Move, stay, join, lend, settle, reorder, break, leave, abandon, tick,
}
use freethreaded_dataplane.Actor.Protocol.Steps.{step-Move}

-- One move counts at most one change, and a move that counts none changes nothing or fails the
-- actor.
pub record Counts {D : Type 0} (a b : Actor D) : Type 0 where
  pub grows : a.version ≤ b.version
  pub by_one : b.version ≤ a.version + 1
  pub same : b.version ≡ a.version → b.failure_reason ≡ none → b ≡ a

module _ {D : Type 0} where
  Move-Counts : {o : Option String} {a b : Actor D} → Move o a b → Counts a b
  Move-Counts {o} {a} {b} (stay e) = ground arith
  Move-Counts {o} {a} {b} (join w live new e) = ground arith
  Move-Counts {o} {a} {b} (lend w t d _ live known free e) = ground arith
  Move-Counts {o} {a} {b} (settle w d live known e) = ground arith
  Move-Counts {o} {a} {b} (reorder d live e) = ground arith
  Move-Counts {o} {a} {b} (break reason d n live ns e) = ground arith
  Move-Counts {o} {a} {b} (leave w free e) = ground arith
  Move-Counts {o} {a} {b} (abandon w reason live held e) = ground arith
  Move-Counts {o} {a} {b} (tick e) = ground arith

module _ {X D : Type 0} (lib : Library X D) where
  pub step-Counts : (c : Call X) (a : Actor D) → Counts a (step lib c a).1
  step-Counts c a = Move-Counts (step-Move lib c a)

  -- Over any calls the version never falls, and it rises by at most one for each call.
  pub version_bounds :
      (cs : List (Call X)) (a : Actor D)
      → (a.version ≤ (run lib cs a).version) × ((run lib cs a).version ≤ a.version + length cs)
  unfolding run
  version_bounds [] a = omega arith
  version_bounds (c ∷ cs) a =
      let s = step-Counts c a in
      omega (arith, s.grows, s.by_one, version_bounds cs (step lib c a).1)

  run_grows : (cs : List (Call X)) (a : Actor D) → a.version ≤ (run lib cs a).version
  run_grows cs a = (version_bounds cs a).0

  -- Where an observer finds the version that it saw before, after any calls and on an actor that
  -- has not failed, the whole state is the one that it saw: list, checkouts and registered workers.
  pub version_faithful :
      (cs : List (Call X)) (a : Actor D)
      → (run lib cs a).failure_reason ≡ none
      → (run lib cs a).version ≡ a.version
      → run lib cs a ≡ a
  unfolding run
  version_faithful [] a live e = refl
  version_faithful (c ∷ cs) a live e =
      let s = step-Counts c a in
      let g = run_grows cs (step lib c a).1 in
      let same = version_faithful cs (step lib c a).1 live (omega (arith, s.grows)) in
      ground (arith, s.same, s.grows)
