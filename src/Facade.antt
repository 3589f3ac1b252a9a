-- ===== src/Facade.antt =====
-- nogil_data_plane/rpc_batched_domain_list.py: `RpcBatchedDomainList`, the worker's synchronous view
-- of the shared actor. `Session` has its state and how it calls the actor, `Methods` the methods that
-- concern the checkout, one at a time under the facade's lock. `Protocol` has the moves that they
-- make of that state.
pub mod Session
pub mod Methods
pub mod Protocol
pub mod Moves
pub mod Coherence
mod Tests
