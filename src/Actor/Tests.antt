-- ===== src/Actor/Tests.antt =====
-- Runs of `BatchedDomainListActor` on a small list of numbers, and the theorems at such runs.
use freethreaded_dataplane.Common.{
  ℕ, ◌+◌, ◌≤◌, ◌≡◌, refl, true, none, some, List, [], ◌∷◌, String, min, ite, arith,
}
use freethreaded_dataplane.Common.Int.{pos, negsuc}
use freethreaded_dataplane.Common.Text.{text_discrete, same, prefix}
use freethreaded_dataplane.Common.Dict.{lookup, insert, erase}
use freethreaded_dataplane.Common.Members.{member, include}
use freethreaded_dataplane.Errors.{Exception, ok, err, exception, actor_failed, type_name}
use freethreaded_dataplane.Python.{Value, null, bool, int, str, dict, end, fields}
use freethreaded_dataplane.Samples.{shelf, shelf-IsDomainList}
use freethreaded_dataplane.Types.State
use freethreaded_dataplane.Types.Snapshot
use freethreaded_dataplane.Actor.State.{
  Actor, mapping, state, state_dict, snapshot_dict, invalid, failure_text,
}
use freethreaded_dataplane.Actor.Init
use freethreaded_dataplane.Actor.Init.{live}
use freethreaded_dataplane.Actor.Methods
use freethreaded_dataplane.Actor.Queries
use freethreaded_dataplane.Actor.Calls.{Call, step, run}
use freethreaded_dataplane.Actor.Invariant.{IsValid, reachable-IsValid, run-IsValid}
use freethreaded_dataplane.Actor.Version.{version_faithful, version_bounds}
use freethreaded_dataplane.Actor.Failure.{IsFrozen, failure_sticky, failed_refuses}
use freethreaded_dataplane.Actor.Checkout.{IsServing, lent, settled, pick_out_lends}
use freethreaded_dataplane.Actor.Settling.{
  Published, Completed, publish_outcomes, complete_outcomes, complete_twice_poisons, plain_answer,
  bound_answer,
}
use freethreaded_dataplane.Actor.Tokens.{IsFree, token_once}
use freethreaded_dataplane.Actor.Leaving.{Leaves, close_worker-Leaves, worker_failed-Leaves}
use freethreaded_dataplane.Actor.Wire.{clients_read}
use freethreaded_dataplane.Actor.Indexing.{get_item_wraps}
use freethreaded_dataplane.Actor.Protocol.{Move}
use freethreaded_dataplane.Actor.Protocol.Steps.{step-Move}

abbrev fresh : Actor (List ℕ)
fresh = record {
  job_id = "job-1";
  domains = 7 ∷ 8 ∷ 9 ∷ [];
  validate_add = mapping;
  registered_workers = [];
  checkouts = [];
  failure_reason = none;
  version = 0;
}

fresh-init : Init.init shelf (live (7 ∷ 8 ∷ 9 ∷ [])) (str "job-1") (str "mapping") ≡ ok fresh
unfolding Init.init
fresh-init = refl

-- One worker, registered; and the same with two domains checked out.
abbrev joined : Actor (List ℕ)
joined = record fresh { registered_workers = "w0" ∷ []; version = 1 }

abbrev lending : Actor (List ℕ)
lending = record joined { domains = 9 ∷ []; checkouts = ("w0", "t0") ∷ []; version = 2 }

abbrev empty_dict : Value ℕ
empty_dict = dict end

abbrev publish : String → Call ℕ
publish t = Call.publish_children (str "w0") (str t) empty_dict empty_dict (bool true)

abbrev story : List (Call ℕ)
story =
    Call.register_worker (str "w0") (str "job-1")
    ∷ Call.pick_out "t0" (str "w0") (int (pos 2))
    ∷ publish "t9"
    ∷ publish "t0"
    ∷ []

-- What the tests compute with.
program : Unit {0}
unfolding run step Methods.register_worker Methods.pick_out Methods.pick_pending Methods.add
    Methods.publish_children Methods.validated_add Methods.complete_pruned
    Methods.complete_pick_to_local Methods.close_worker Methods.worker_failed Methods.fail lookup
    insert erase member include same Queries.get_item type_name prefix
program = tt

-- The wrong token is refused, the right one closes the checkout and adds a domain.
story_runs : run shelf story fresh ≡ record joined { domains = 42 ∷ 9 ∷ []; version = 3 }
unfolding program
story_runs = refl

joined-IsValid : IsValid joined
unfolding program
joined-IsValid =
    reachable-IsValid shelf (live (7 ∷ 8 ∷ 9 ∷ [])) (str "job-1") (str "mapping") fresh
      (Call.register_worker (str "w0") (str "job-1") ∷ []) fresh-init

lending-IsValid : IsValid lending
unfolding program
lending-IsValid =
    run-IsValid shelf (Call.pick_out "t0" (str "w0") (int (pos 2)) ∷ []) joined joined-IsValid

joined-IsServing : IsServing "w0" joined
unfolding program
joined-IsServing = record { live = refl; known = refl }

lending-IsServing : IsServing "w0" lending
unfolding program
lending-IsServing = record { live = refl; known = refl }

-- A failed ADD leaves the checkout open and the actor failed.
poison_fails :
    (run shelf
      (Call.publish_children
          (str "w0")
          (str "t0")
          empty_dict
          (dict (fields (("poison", null) ∷ [])))
          (bool true)
        ∷ [])
      lending)
    ≡ record lending {
      failure_reason = some "DomainOperationError: BatchedDomainList.add failed";
      version = 3;
    }
unfolding program
poison_fails = refl

step-Move_example : Move none lending (step shelf (publish "t0") lending).1
step-Move_example = step-Move shelf (publish "t0") lending

reachable-IsValid_example : IsValid (run shelf story fresh)
reachable-IsValid_example =
    reachable-IsValid shelf (live (7 ∷ 8 ∷ 9 ∷ [])) (str "job-1") (str "mapping") fresh story
      fresh-init

version_faithful_example : run shelf (publish "t9" ∷ []) lending ≡ lending
unfolding program
version_faithful_example = version_faithful shelf (publish "t9" ∷ []) lending refl refl

version_bounds_example :
    (0 ≤ (run shelf story fresh).version) × ((run shelf story fresh).version ≤ 4)
version_bounds_example = version_bounds shelf story fresh

abbrev failed : Actor (List ℕ)
failed = record lending { failure_reason = some "cancelled" }

failure_sticky_example : IsFrozen failed (run shelf story failed)
failure_sticky_example = failure_sticky shelf story failed "cancelled" refl

failed_refuses_example :
    step shelf (publish "t0") failed ≡ (err (exception actor_failed "cancelled"), failed)
failed_refuses_example = failed_refuses shelf (publish "t0") failed "cancelled" refl refl

pick_out_lends_example :
    (v : Value ℕ) × (d : List ℕ) × (shelf.pick_out (min 2 3) (7 ∷ 8 ∷ 9 ∷ []) ≡ (ok v, d))
    × (Methods.pick_out shelf "t0" (str "w0") (int (pos 2)) joined ≡ (
      ok (
          dict (
            fields (
              ("status", str "data")
              ∷ ("domains", v)
              ∷ ("checkout", str "t0")
              ∷ ("state", dict (state_dict shelf (lent "w0" "t0" d joined)))
              ∷ []))),
      lent "w0" "t0" d joined,
    ))
    × (shelf.size d + min 2 3 ≡ 3)
    × ((w : String)
        → lookup w (lent "w0" "t0" d joined).checkouts
          ≡ ite (text_discrete w "w0") (some "t0") (lookup w joined.checkouts))
unfolding program
pick_out_lends_example =
    pick_out_lends shelf shelf-IsDomainList "t0" "w0" 2 joined joined-IsServing refl (omega arith)
      (omega arith)

publish_outcomes_example :
    Published shelf (str "w0") (str "t0") empty_dict empty_dict (bool true) lending (
      Methods.publish_children shelf
        (str "w0")
        (str "t0")
        empty_dict
        empty_dict
        (bool true)
        lending)
publish_outcomes_example =
    publish_outcomes shelf (str "w0") (str "t0") empty_dict empty_dict (bool true) lending

complete_outcomes_example :
    Completed shelf
      (str "w0")
      null
      joined
      (Methods.complete_pick_to_local shelf (str "w0") null joined)
complete_outcomes_example = complete_outcomes shelf (str "w0") null joined

complete_twice_poisons_example :
    let complete = Methods.complete_pruned shelf (str "w0") (str "t0") in
    ((complete lending).0 ≡ ok (plain_answer shelf (settled "w0" (9 ∷ []) lending)))
    × ((complete (complete lending).1).0 ≡ err (invalid "no shared pick_out is active"))
    × ((complete (complete lending).1).1.failure_reason
        ≡ some (failure_text (invalid "no shared pick_out is active")))
unfolding program
complete_twice_poisons_example =
    complete_twice_poisons shelf "w0" "t0" lending lending-IsValid lending-IsServing refl

joined-IsFree : IsFree "t0" joined
unfolding program
joined-IsFree w = λ h. cc

token_once_example :
    let y = run shelf [] (step shelf (Call.pick_out "t0" (str "w0") (int (pos 2))) joined).1 in
    let z =
      run shelf
        (Call.sort ∷ [])
        (Methods.publish_children shelf
          (str "w0")
          (str "t0")
          empty_dict
          empty_dict
          (bool true)
          y).1 in
    IsFree "t0" z
    × ((e : Exception) × (Methods.publish_children shelf
            (str "w0")
            (str "t0")
            empty_dict
            empty_dict
            (bool true)
            z
          ≡ (err e, z)))
    × ((e : Exception) × ((Methods.complete_pick_to_local shelf (str "w0") (str "t0") z).0 ≡ err e))
unfolding program
token_once_example =
    token_once shelf "t0" (Call.pick_out "t0" (str "w0") (int (pos 2))) [] (Call.sort ∷ []) joined
      (str "w0") empty_dict empty_dict (bool true) (str "w0") empty_dict empty_dict (bool true)
      (bound_answer shelf (int (pos 42)) (settled "w0" (42 ∷ 9 ∷ []) lending)) joined-IsValid
      joined-IsFree refl tt ((λ h. cc), tt) refl

close_worker-Leaves_example : Leaves "w0" lending (Methods.close_worker shelf (str "w0") lending).1
close_worker-Leaves_example = close_worker-Leaves shelf "w0" lending lending-IsServing

worker_failed-Leaves_example :
    Leaves "w0" joined (Methods.worker_failed shelf (str "w0") "gone" joined).1
worker_failed-Leaves_example = worker_failed-Leaves shelf "w0" "gone" joined refl

clients_read_example :
    (State.from_dict (state_dict shelf lending) ≡ ok (state shelf lending))
    × (Snapshot.from_dict (snapshot_dict shelf lending)
        ≡ ok (record { job_id = "job-1"; version = pos 2; state = state shelf lending }))
clients_read_example = clients_read shelf lending lending-IsValid

get_item_wraps_example :
    Queries.get_item shelf (int (negsuc 0)) null joined
    ≡ Queries.get_item shelf (int (pos 2)) null joined
get_item_wraps_example = get_item_wraps shelf 0 null joined (omega arith)
