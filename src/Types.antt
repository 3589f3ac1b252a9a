-- ===== src/Types.antt =====
-- nogil_data_plane/types.py: the records shared with the control plane and the workers, one module
-- for each, with their checks on construction and on decoding.
pub mod Read
pub mod Endpoint
pub mod State
pub mod Snapshot
pub mod Domain
pub mod InputSnapshot
pub mod Limits
pub mod Worker
pub mod RoundTrip
mod Tests
