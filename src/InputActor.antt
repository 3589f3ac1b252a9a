-- ===== src/InputActor.antt =====
-- nogil_data_plane/input_domain_list.py: `InputDomainListActor`, the shared list of input splits.
-- `State` has the fields and the private helpers, `Methods` the constructor and the remote methods,
-- `Calls` a call as a value and runs of calls.
pub mod State
pub mod Methods
pub mod Calls
pub mod Protocol
pub mod Invariant
pub mod Publishing
pub mod Wire
mod Tests
