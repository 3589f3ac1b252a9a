-- ===== src/Types/Tests.antt =====
-- The decoders of nogil_data_plane/types.py at concrete dictionaries.
use freethreaded_dataplane.Common.{ℕ, ◌≡◌, refl, ◌↔◌, true, false, none}
use freethreaded_dataplane.Common.Int.{pos, negsuc}
use freethreaded_dataplane.Errors.{ok, err}
use freethreaded_dataplane.Python.{dict, int, null}
use freethreaded_dataplane.Types.State
use freethreaded_dataplane.Types.State.{State}
use freethreaded_dataplane.Types.Snapshot
use freethreaded_dataplane.Types.Snapshot.{Snapshot}
use freethreaded_dataplane.Types.Domain
use freethreaded_dataplane.Types.Domain.{DomainRecord}
use freethreaded_dataplane.Types.Endpoint
use freethreaded_dataplane.Types.Endpoint.{Endpoint}
use freethreaded_dataplane.Types.Limits
use freethreaded_dataplane.Types.Limits.{default_limits}
use freethreaded_dataplane.Types.Read.{invalid}
use freethreaded_dataplane.Types.RoundTrip.{
  IsTrusted, snapshot_round_trip, snapshot_sound, record_round_trip,
}

abbrev busy : State
busy = record {
  pending_shared_domains = pos 3;
  checked_out_shared_batches = pos 1;
  shared_idle = false;
  failed = false;
  failure_reason = none;
}

abbrev seen : Snapshot
seen = record { job_id = "job-1"; version = pos 5; state = busy }

snapshot_round_trip_example :
    (Snapshot.from_dict {X = ℕ} (Snapshot.to_dict seen) ≡ ok seen) ↔ IsTrusted seen
snapshot_round_trip_example = snapshot_round_trip ℕ seen

seen_decodes : Snapshot.from_dict {X = ℕ} (Snapshot.to_dict seen) ≡ ok seen
unfolding Snapshot.from_dict Snapshot.to_dict State.from_dict
seen_decodes = refl

snapshot_sound_example : IsTrusted seen
snapshot_sound_example = snapshot_sound ℕ (Snapshot.to_dict seen) seen_decodes

-- An idle flag that the counts contradict is refused.
idle_contradicted :
    State.from_dict {X = ℕ} (State.to_dict (record busy { shared_idle = true }))
    ≡ err (invalid "shared_idle is inconsistent with counts/failure")
unfolding State.from_dict State.to_dict
idle_contradicted = refl

abbrev domain : DomainRecord ℕ
domain = record {
  lower_bound = int (negsuc 0);
  upper_bound = null;
  threshold = int (pos 0);
  history = null;
  split_history = null;
  depth = int (pos 4);
}

record_round_trip_example :
    Domain.from_value (λ x name. none) (dict (Domain.to_dict domain)) ≡ ok domain
record_round_trip_example = record_round_trip ℕ (λ x name. none) domain

abbrev local : Endpoint
local = record {
  host = "127.0.0.1";
  port = pos 5000;
  actor_id = "a";
  job_id = "job-1";
  max_frame_size = pos 1024;
}

local_is_valid :
    (Endpoint.post_init local ≡ ok local)
    × (Endpoint.post_init (record local { port = pos 0 })
        ≡ err (invalid "port must be between 1 and 65535"))
    × (Limits.post_init default_limits ≡ ok default_limits)
unfolding Endpoint.post_init Limits.post_init
local_is_valid = (refl, refl, refl)
