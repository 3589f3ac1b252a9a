-- ===== src/InputActor/Wire.antt =====
-- The dictionaries that `InputDomainListActor` sends, as its clients decode them.
use freethreaded_dataplane.Common.{
  ◌≡◌, refl, inl, inr, Bool, true, false, not, ◌&&◌, Option, none, some, List, [], ◌∷◌, String,
  arith, length, is_none, ◌==◌, if◌then◌else◌, Option-cases,
}
use freethreaded_dataplane.Common.Int.{pos}
use freethreaded_dataplane.Errors.{ok}
use freethreaded_dataplane.Python.{Value, null, get_field, get_or_null}
use freethreaded_dataplane.Types.State
use freethreaded_dataplane.Types.State.{State}
use freethreaded_dataplane.Types.Snapshot
use freethreaded_dataplane.Types.Snapshot.{Snapshot}
use freethreaded_dataplane.Types.InputSnapshot
use freethreaded_dataplane.Types.InputSnapshot.{InputSnapshot}
use freethreaded_dataplane.InputActor.State.{
  InputActor, InputLibrary, snapshot_dict, present, storage_names,
}
use freethreaded_dataplane.InputActor.Invariant.{IsSound}
use text.Mathlib.Text.{◌==◌ as text_eq}
use text.Mathlib.TextEquality.{eq_iff}

-- `None` for a missing value.
abbrev pub or_null : {X : Type 0} → Option (Value X) → Value X
or_null none = null
or_null (some v) = v

module _ {X D : Type 0} (lib : InputLibrary X D) where
  -- One of the names.
  abbrev listed : String → List String → Bool
  listed n [] = false
  listed n (m ∷ ms) = if text_eq n m then true else listed n ms

  get-present :
      (n : String) (names : List String) (d : D)
      → get_field n (present lib names d) ≡ (if listed n names then lib.attribute d n else none)
  unfolding present
  get-present n [] d = refl
  get-present n (m ∷ ms) d = elim (Option-cases (lib.attribute d m)) [
    | inl absent ↦ ground (arith, eq_iff n m, get-present n ms d)
    | inr (v, here) ↦ ground (arith, eq_iff n m, get-present n ms d)
  ]

  -- What the shared part of a snapshot says of the actor.
  abbrev pub shared_snapshot : InputActor D → Snapshot
  shared_snapshot a =
      let failed = not (is_none a.failure) in
      record {
        job_id = a.job_id;
        version = pos a.version;
        state = record {
          pending_shared_domains = pos (lib.size a.domains);
          checked_out_shared_batches = pos (length a.checkouts);
          shared_idle = lib.size a.domains == 0 && length a.checkouts == 0 && not failed;
          failed = failed;
          failure_reason = a.failure;
        };
      }

  reads_shared :
      (a : InputActor D)
      → IsSound a
      → Snapshot.from_dict (snapshot_dict lib a) ≡ ok (shared_snapshot a)
  unfolding snapshot_dict Snapshot.from_dict State.from_dict
  reads_shared a v = ground (arith, v.named)

  passed_on :
      (n : String) (d : D)
      → listed n storage_names ≡ true
      → get_or_null n (present lib storage_names d) ≡ or_null (lib.attribute d n)
  unfolding present
  passed_on n d h = rw (get-present n storage_names d, h) (same_null (lib.attribute d n))
    where
      same_null :
          (o : Option (Value X)) → elim o as (λ x. Value X) [ none ↦ null | some v ↦ v ] ≡ or_null o
      same_null none = refl
      same_null (some v) = refl

  -- A client decodes the snapshot of a sound input actor to the actor's own counts, flags, job and
  -- version, and to the nine storage attributes of its list, `None` where the list has none.
  pub input_clients_read :
      (a : InputActor D)
      → IsSound a
      → InputSnapshot.from_dict (snapshot_dict lib a)
        ≡ ok (record {
          shared = shared_snapshot a;
          output_device = or_null (lib.attribute a.domains "output_device");
          storage_depth = or_null (lib.attribute a.domains "storage_depth");
          use_alpha = or_null (lib.attribute a.domains "use_alpha");
          sort_index = or_null (lib.attribute a.domains "sort_index");
          sort_descending = or_null (lib.attribute a.domains "sort_descending");
          use_split_idx = or_null (lib.attribute a.domains "use_split_idx");
          spec_size = or_null (lib.attribute a.domains "spec_size");
          volume = or_null (lib.attribute a.domains "volume");
          all_volume = or_null (lib.attribute a.domains "all_volume");
        })
  unfolding InputSnapshot.from_dict snapshot_dict
  input_clients_read a v = ground (
    arith,
    reads_shared a v,
    passed_on "output_device" a.domains refl,
    passed_on "storage_depth" a.domains refl,
    passed_on "use_alpha" a.domains refl,
    passed_on "sort_index" a.domains refl,
    passed_on "sort_descending" a.domains refl,
    passed_on "use_split_idx" a.domains refl,
    passed_on "spec_size" a.domains refl,
    passed_on "volume" a.domains refl,
    passed_on "all_volume" a.domains refl,
  )
