-- ===== src/Types/RoundTrip.antt =====
-- What the decoders of nogil_data_plane/types.py accept, and that they undo the encoders.
use freethreaded_dataplane.Common.{Option, ◌≡◌, refl, ◌↔◌, inl, inr, true, false, String, arith}
use freethreaded_dataplane.Common.Int.{pos, neg_part}
use freethreaded_dataplane.Common.Text.{is_empty}
use freethreaded_dataplane.Errors.{ok, Result-cases}
use freethreaded_dataplane.Python.{Entries, Value, dict}
use freethreaded_dataplane.Types.State
use freethreaded_dataplane.Types.State.{State, expected_idle, state_fields}
use freethreaded_dataplane.Types.Snapshot
use freethreaded_dataplane.Types.Snapshot.{Snapshot}
use freethreaded_dataplane.Types.Domain
use freethreaded_dataplane.Types.Domain.{DomainRecord}

-- Counts that are not negative, and an idle flag that says exactly that nothing is pending, checked
-- out or failed.
pub record IsConsistent (s : State) : Type 0 where
  pub pending_nonneg : neg_part s.pending_shared_domains ≡ 0
  pub checked_nonneg : neg_part s.checked_out_shared_batches ≡ 0
  pub idle : (s.shared_idle ≡ true) ↔ (
      (s.pending_shared_domains ≡ pos 0)
      × (s.checked_out_shared_batches ≡ pos 0)
      × (s.failed ≡ false))

module _ (X : Type 0) where
  -- Decoding the dictionary of a consistent state gives that state back.
  pub from_dict-to_dict :
      (s : State) → IsConsistent s → State.from_dict {X = X} (State.to_dict s) ≡ ok s
  unfolding State.from_dict State.to_dict
  from_dict-to_dict s h = ground arith

  -- Whatever dictionary is decoded, a state that comes out is consistent.
  pub from_dict-IsConsistent :
      (value : Entries X) {s : State} → State.from_dict value ≡ ok s → IsConsistent s
  unfolding State.from_dict
  from_dict-IsConsistent value h = ground arith

-- A snapshot that a driver may trust: it names a job, its version counts up from zero, and its
-- state is consistent.
pub record IsTrusted (s : Snapshot) : Type 0 where
  pub named : is_empty s.job_id ≡ false
  pub version_nonneg : neg_part s.version ≡ 0
  pub state : IsConsistent s.state

module _ (X : Type 0) where
  -- Decoding the dictionary of a snapshot gives the snapshot back exactly when it can be trusted:
  -- it names a job, its version and its counts are not negative, and its idle flag is right.
  pub snapshot_round_trip :
      (s : Snapshot) → (Snapshot.from_dict {X = X} (Snapshot.to_dict s) ≡ ok s) ↔ IsTrusted s
  unfolding Snapshot.from_dict Snapshot.to_dict State.from_dict
  snapshot_round_trip s = ground arith

  -- Whatever dictionary is decoded, a snapshot that comes out can be trusted.
  pub snapshot_sound :
      (value : Entries X) {s : Snapshot} → Snapshot.from_dict value ≡ ok s → IsTrusted s
  unfolding Snapshot.from_dict
  snapshot_sound value {s} h = elim (Result-cases (State.from_dict value)) [
    | inl (state, e) ↦ ground (arith, from_dict-IsConsistent X value e)
    | inr (x, e) ↦ ground arith
  ]

  -- A domain record survives the trip through its dictionary, whatever its six values are.
  pub record_round_trip :
      (attribute : X → String → Option (Value X)) (r : DomainRecord X)
      → Domain.from_value attribute (dict (Domain.to_dict r)) ≡ ok r
  unfolding Domain.from_value Domain.to_dict
  record_round_trip attribute r = refl
