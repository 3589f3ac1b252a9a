-- ===== src/Facade/Tests.antt =====
-- The facade with a small other side, which counts the calls that reach it.
use freethreaded_dataplane.Common.{
  ℕ, suc, ◌≡◌, refl, inr, true, false, some, List, [], ◌∷◌, String, if◌then◌else◌,
}
use freethreaded_dataplane.Common.Text.{same}
use freethreaded_dataplane.Common.Int.{pos}
use freethreaded_dataplane.Errors.{ok}
use freethreaded_dataplane.Python.{Value, str, int, dict, fields, null}
use freethreaded_dataplane.Facade.Session.{
  Reply, returned, rpc_error, Remote, Session, check_available, call, require_response,
}
use freethreaded_dataplane.Facade.Methods
use freethreaded_dataplane.Facade.Coherence.{
  Request, pick_out, publish_children, IsCoherent, connected, client_step, client_run,
  client-IsCoherent, client_inert, client_step-Move,
}
use freethreaded_dataplane.Facade.Protocol.{ClientMove}

-- It lends one batch for every "pick_out", accepts what comes back, and knows nothing else.
abbrev answer : String → Reply ℕ
answer method =
    if same method "pick_out"
    then returned (
        dict (
          fields
            (("status", str "data") ∷ ("domains", dict (fields [])) ∷ ("checkout", str "t0") ∷ [])))
    else if same method "publish_children"
    then returned (dict (fields (("status", str "ok") ∷ ("global_lb", null) ∷ [])))
    else rpc_error "unknown"

abbrev lender : Remote ℕ ℕ
lender = record {
  call = λ method args n. (answer method, suc n);
  is_stopped = λ n. false;
  close_actor = λ n. (ok tt, n);
  close_process = λ n. (ok tt, n);
  to_device = λ v device. ok v;
}

abbrev batch : Value ℕ
batch = int (pos 2)

abbrev start : Session ℕ
start = record { client = connected; world = 0 }

abbrev story : List (Request ℕ)
story = pick_out batch null ∷ publish_children (str "t0") null null null ∷ pick_out batch null ∷ []

story_ends : client_run lender "w0" null story start ≡ record {
  client = record {
    has_checked_out_batch = true;
    checkout = some "t0";
    closed = false;
    broken = false;
  };
  world = 3;
}
unfolding client_run client_step Methods.pick_out Methods.receive Methods.publish_children call
    check_available require_response same
story_ends = refl

client-IsCoherent_example : IsCoherent (client_run lender "w0" null story start).client
client-IsCoherent_example = client-IsCoherent lender "w0" null story 0

abbrev out_of_use : Session ℕ
out_of_use = record { client = record connected { broken = true }; world = 7 }

client_inert_example : client_step lender "w0" null (pick_out batch null) out_of_use ≡ out_of_use
client_inert_example =
    client_inert lender "w0" null (pick_out batch null) out_of_use (inr (refl, λ e. cc))

client_step-Move_example :
    ClientMove connected (client_step lender "w0" null (pick_out batch null) start).client
client_step-Move_example = client_step-Move lender "w0" null (pick_out batch null) start
