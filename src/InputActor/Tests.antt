-- ===== src/InputActor/Tests.antt =====
-- Runs of `InputDomainListActor` on a small list of numbers, and the theorems at such runs.
use freethreaded_dataplane.Common.{
  ℕ, ◌+◌, ◌*◌, ◌≤◌, ◌≡◌, refl, true, Option, none, some, List, [], ◌∷◌, String, length, drop, take,
  ite,
}
use freethreaded_dataplane.Common.Int.{pos}
use freethreaded_dataplane.Common.Text.{text_discrete, same}
use freethreaded_dataplane.Common.Dict.{lookup, insert, erase}
use freethreaded_dataplane.Common.Members.{member, include}
use freethreaded_dataplane.Errors.{
  Result, ok, err, exception, key_error, index_error, runtime_error,
}
use freethreaded_dataplane.Python.{Value, nil, cons, null, int, str, list, tuple, dict, end}
use freethreaded_dataplane.Samples.{numbers}
use freethreaded_dataplane.Types.InputSnapshot
use freethreaded_dataplane.InputActor.State.{InputActor, InputLibrary, snapshot_dict, worker}
use freethreaded_dataplane.InputActor.Methods
use freethreaded_dataplane.InputActor.Calls.{InputCall, input_step, input_run}
use freethreaded_dataplane.InputActor.Protocol.{InputMove}
use freethreaded_dataplane.InputActor.Protocol.Moves.{input_step-Move}
use freethreaded_dataplane.InputActor.Invariant.{
  IsSound, Freezes, reachable-IsSound, input_version_bounds, input_failure_sticky,
}
use freethreaded_dataplane.InputActor.Publishing.{
  Ended, input_publish_outcomes, publish_without_checkout,
}
use freethreaded_dataplane.InputActor.Wire.{shared_snapshot, input_clients_read}

-- An `add` takes one number, given as the only argument.
abbrev add_number : Value ℕ → List ℕ → Result (Value ℕ) × List ℕ
add_number (tuple (cons (int (pos n)) nil)) ns = (ok null, n ∷ ns)
add_number _ ns = (err (exception runtime_error "bad arguments"), ns)

abbrev depth_only : String → Option (Value ℕ)
depth_only name = ite (text_discrete name "storage_depth") (some (int (pos 4))) none

abbrev tray : InputLibrary ℕ (List ℕ)
tray = record {
  size = length;
  pick_out_batch = λ k ns. (ok (list (numbers (take k ns))), drop k ns);
  add = λ args kwargs ns. add_number args ns;
  sort = λ ns. (ok tt, ns);
  query = λ name args ns. ok (int (pos (length ns)));
  get_item = λ index ns. err (exception index_error "no items");
  attribute = λ ns name. depth_only name;
  load = λ payload. ok payload;
  is_hashable = λ x. true;
  repr = λ s. s;
}

abbrev fresh : InputActor (List ℕ)
fresh = record {
  job_id = "job-1";
  domains = 7 ∷ 8 ∷ 9 ∷ [];
  workers = [];
  checkouts = [];
  version = 0;
  failure = none;
}

abbrev joined : InputActor (List ℕ)
joined = record fresh { workers = "w0" ∷ []; version = 1 }

abbrev lending : InputActor (List ℕ)
lending = record joined { domains = 9 ∷ []; checkouts = ("w0", "t0") ∷ []; version = 2 }

abbrev one_number : Value ℕ
one_number = tuple (cons (int (pos 5)) nil)

abbrev story : List (InputCall ℕ)
story =
    InputCall.register_worker (str "w0") (str "job-1")
    ∷ InputCall.pick_out_batch "t0" (str "w0") (int (pos 2))
    ∷ InputCall.publish (str "w0") (str "t0") one_number (dict end)
    ∷ []

-- What the tests compute with.
program : Unit {0}
unfolding input_run input_step Methods.init Methods.register_worker Methods.pick_out_batch
    Methods.pick_pending Methods.publish Methods.add Methods.delete_checkout Methods.donate
    Methods.complete Methods.close_worker lookup insert erase member include same worker
program = tt

story_runs : input_run tray story fresh ≡ record joined { domains = 5 ∷ 9 ∷ []; version = 4 }
unfolding program
story_runs = refl

fresh-init : Methods.init tray (7 ∷ 8 ∷ 9 ∷ []) (str "job-1") ≡ ok fresh
unfolding program
fresh-init = refl

input_step-Move_example :
    InputMove
      (some "t0")
      joined
      (input_step tray (InputCall.pick_out_batch "t0" (str "w0") (int (pos 2))) joined).1
input_step-Move_example =
    input_step-Move tray (InputCall.pick_out_batch "t0" (str "w0") (int (pos 2))) joined

reachable-IsSound_example : IsSound (input_run tray story fresh)
reachable-IsSound_example =
    reachable-IsSound tray (7 ∷ 8 ∷ 9 ∷ []) (str "job-1") fresh story fresh-init

input_version_bounds_example :
    (0 ≤ (input_run tray story fresh).version) × ((input_run tray story fresh).version ≤ 0 + 2 * 3)
input_version_bounds_example = input_version_bounds tray story fresh

abbrev failed : InputActor (List ℕ)
failed = record lending { failure = some "cancelled" }

input_failure_sticky_example : Freezes failed (input_run tray story failed)
input_failure_sticky_example = input_failure_sticky tray story failed "cancelled" refl

input_publish_outcomes_example :
    Ended tray
      (str "w0")
      (str "t0")
      one_number
      (dict end)
      lending
      (Methods.publish tray (str "w0") (str "t0") one_number (dict end) lending)
input_publish_outcomes_example =
    input_publish_outcomes tray (str "w0") (str "t0") one_number (dict end) lending

publish_without_checkout_example :
    Methods.publish tray (str "w0") null one_number (dict end) joined
    ≡ (err (exception key_error "w0"), record joined { domains = 5 ∷ 7 ∷ 8 ∷ 9 ∷ []; version = 2 })
unfolding program
publish_without_checkout_example =
    publish_without_checkout tray "w0" one_number (dict end) null joined refl refl refl refl

lending-IsSound : IsSound lending
unfolding program
lending-IsSound =
    reachable-IsSound tray (7 ∷ 8 ∷ 9 ∷ []) (str "job-1") fresh
      (InputCall.register_worker (str "w0") (str "job-1")
        ∷ InputCall.pick_out_batch "t0" (str "w0") (int (pos 2))
        ∷ [])
      fresh-init

input_clients_read_example :
    InputSnapshot.from_dict (snapshot_dict tray lending)
    ≡ ok (record {
      shared = shared_snapshot tray lending;
      output_device = null;
      storage_depth = int (pos 4);
      use_alpha = null;
      sort_index = null;
      sort_descending = null;
      use_split_idx = null;
      spec_size = null;
      volume = null;
      all_volume = null;
    })
unfolding text_discrete
input_clients_read_example = input_clients_read tray lending lending-IsSound
