-- ===== src/Actor.antt =====
-- nogil_data_plane/batched_domain_list_actor.py: the shared list and its worker checkout state.
-- `State` has the fields and the private helpers, `Init` the constructor, `Methods` and `Queries`
-- the remote methods, `Calls` a call as a value and runs of calls.
pub mod State
pub mod Init
pub mod Methods
pub mod Queries
pub mod Calls
pub mod Protocol
pub mod Invariant
pub mod Version
pub mod Failure
pub mod Checkout
pub mod Settling
pub mod Tokens
pub mod Leaving
pub mod Wire
pub mod Indexing
mod Tests
