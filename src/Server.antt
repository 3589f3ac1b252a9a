-- ===== src/Server.antt =====
-- nogil_data_plane/actor_server.py: `BatchedDomainListActorServer`, which starts one RPC runtime for the
-- data, owns the actor in it, and takes both down again.
pub mod State
pub mod Methods
pub mod Lifecycle
mod Tests
