-- ===== src/Types/Worker.antt =====
-- `PickOutResult` and `WorkerDomainState` of nogil_data_plane/types.py, plain records.
use freethreaded_dataplane.Common.{Option}
use freethreaded_dataplane.Common.Int.{ℤ}
use freethreaded_dataplane.Python.{Entries}
use freethreaded_dataplane.Types.State.{State}

pub data Status : Type 0 where
  data_picked empty : Status

pub record PickOutResult (X : Type 0) : Type 0 where
  pub status : Status
  pub domains : Option (Entries X)
  pub state : State

pub data Phase : Type 0 where
  requesting processing committing waiting terminal : Phase

pub record WorkerState : Type 0 where
  pub phase : Phase
  pub local_pending_domains : ℤ
  pub epoch : ℤ
