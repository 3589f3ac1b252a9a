-- ===== src/Packets.antt =====
-- nogil_data_plane/domain_packet_codec.py: `DomainPacketCodec`, which turns an object tree into JSON
-- metadata and raw buffers, and back. `Encode` and `Decode` have the two directions, `MapTensors` the
-- rebuilding of a tree, `Registry` the adapters of registered classes.
pub mod Torch
pub mod Registry
pub mod Keys
pub mod Encode
pub mod Descriptors
pub mod Decode
pub mod MapTensors
pub mod Table
pub mod Buffers
pub mod Plain
pub mod KeyedItems
pub mod Containers
pub mod Nodes
pub mod BufferNodes
pub mod Nested
pub mod Custom
pub mod Walk
pub mod RoundTrip
pub mod Bounds
pub mod Wire
pub mod Spans
pub mod Tiling
pub mod Depth
pub mod Taking
pub mod Total
pub mod SampleText
pub mod Samples
pub mod Dataclasses
pub mod Adapters
pub mod Registering
mod Tests
