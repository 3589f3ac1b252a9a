-- ===== src/Actor/Wire.antt =====
-- The dictionaries that `BatchedDomainListActor` sends, as its clients decode them.
use freethreaded_dataplane.Common.{◌≡◌, arith}
use freethreaded_dataplane.Common.Int.{pos}
use freethreaded_dataplane.Errors.{ok}
use freethreaded_dataplane.Library.{Library}
use freethreaded_dataplane.Types.State
use freethreaded_dataplane.Types.Snapshot
use freethreaded_dataplane.Types.RoundTrip.{IsConsistent}
use freethreaded_dataplane.Actor.State.{Actor, state, state_dict, snapshot_dict}
use freethreaded_dataplane.Actor.Invariant.{IsValid}

module _ {X D : Type 0} (lib : Library X D) where
  -- The state that the actor reports is consistent.
  pub state-IsConsistent : (a : Actor D) → IsConsistent (state lib a)
  unfolding state
  state-IsConsistent a = ground arith

  -- The clients' decoders accept what a valid actor sends and read its own state: the pending and
  -- checked-out counts, the idle flag and the failure, and in a snapshot also the job and version.
  pub clients_read :
      (a : Actor D)
      → IsValid a
      → (State.from_dict (state_dict lib a) ≡ ok (state lib a))
        × (Snapshot.from_dict (snapshot_dict lib a)
            ≡ ok (record { job_id = a.job_id; version = pos a.version; state = state lib a }))
  unfolding state_dict snapshot_dict State.from_dict Snapshot.from_dict
  clients_read a v = (ground (arith, v.named), ground (arith, v.named))
