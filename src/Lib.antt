-- ===== src/Lib.antt =====
-- Verification of nogil-data-plane: the shared domain lists that the workers of a verifier pick work
-- from and give it back to, as actors behind nogil_rpc.
--
-- The program. A driver owns an actor around an ordinary domain list. Workers register, pick out a
-- batch with a one-time checkout token, and close that checkout by publishing the children of the
-- batch or by reporting that they finished it locally. A failure inside the actor is sticky: every
-- later call is refused with its reason. What the actor answers are plain dictionaries, which the
-- clients decode to the records of `types.py`.
--
-- The files.
--   Common, Exec, Errors, Python, Library: what all parts share. `Common` passes on the library's
--     names and has the lists, texts, dictionaries and sets over the native numbers. `Exec` is a
--     method as a function of the actor's state: it gives a result or an exception, and the state
--     after it, also after a raise. `Errors` has the exceptions of nogil_data_plane/errors.py and the
--     built-in ones that the code raises. `Python` has the values that cross the wire, with `bool`
--     apart from `int`, as the source's `type(x) is int` tests them.
--   Types: nogil_data_plane/types.py, a file for each record. `Types.RoundTrip` is about its codecs.
--   Validation: nogil_data_plane/validation.py.
--   Actor: nogil_data_plane/batched_domain_list_actor.py. `Actor.State` has the fields of
--     `BatchedDomainListActor` and its private helpers, `Actor.Init` its constructor, `Actor.Methods`
--     and `Actor.Queries` its remote methods under their names, except `state`, which is `get_state`.
--     `Actor.Calls` has a remote call as a value, `step` for one call and `run` for a list of them.
--     `Actor.Protocol` is the abstract protocol, a relation of moves, which the calls refine.
--   InputActor: `InputDomainListActor` of nogil_data_plane/input_domain_list.py, in the same way. It
--     uses the decoder `Types.InputSnapshot` of its clients.
--   Framing: nogil_data_plane/rpc_serializer.py. `Framing.Header` has the 13 bytes of the header,
--     `Framing.Frames` the description of a frame, `Framing.Serializer` what `dumps` and `loads` do.
--     The packet codec is the interface `Framing.Codec`, which `Packets.Wire` fills. Bytes are numbers, which are below 256 where a
--     theorem asks for `AreBytes`.
--   Packets: nogil_data_plane/domain_packet_codec.py. `Packets.Registry` has `DomainPacketCodec` with its
--     adapters, `Packets.Encode` and `Packets.Decode` the two directions under the names of the
--     methods, `Packets.Descriptors` the table of raw buffers in `decode`, `Packets.Keys` the dictionaries
--     that `decode` builds, `Packets.MapTensors` has `map_tensors` and `snapshot`,
--     `Packets.Dataclasses` has `dataclass_adapter` and nogil_data_plane/adapters.py. `Packets.Table`,
--     `Buffers`, `Containers`, `Nodes`, `BufferNodes`, `Nested`, `Custom` and `Walk` are about the way
--     there and back of one kind of node after another, `Packets.RoundTrip` about that of the whole.
--     `Packets.SampleText` has a text form for the tests.
--   Facade: nogil_data_plane/rpc_batched_domain_list.py, the part of `RpcBatchedDomainList` that keeps
--     its checkout. `Facade.Session` has its state and `_call`, `Facade.Methods` the methods. The
--     actor's handle, the connection, the stop event and moving tensors to a device (`map_tensors`)
--     are the parameter `Facade.Session.Remote`. The methods run one at a time, under its lock.
--   Server: nogil_data_plane/actor_server.py. `Server.State` has the attributes of
--     `BatchedDomainListActorServer`, `Server.Methods` its methods, `Server.Lifecycle` what starting and
--     stopping open and close. The events that a host keeps are what the server did; the codec and the
--     lock are left out. nogil_rpc is the parameter `Server.State.Rpc`.
--   Samples: a concrete domain list, with the laws that the theorems ask of one, for the tests.
--
-- Concurrency. nogil_rpc runs the calls of one actor one at a time, so a run of an actor is a list of
-- calls, in any order and from any workers; the theorems on runs hold for each such list.
--
-- Parameters. The domain list is not part of the repository: `Library.Library` and
-- `InputActor.State.InputLibrary` list the operations that the actors call. Those that change the list
-- may raise, and then leave it changed or not. The queries may raise and leave the list alone, which the
-- theorems on the version rest on, and the `len` of a list does not raise. Where a theorem needs more of a list, the law is in
-- `Library.IsDomainList`. `pickle.loads`, `repr` and the hash of a foreign object are parameters too.
-- For the packet codec `Packets.Torch` lists what it uses of torch and of json: `IsTorch` and
-- `Packets.Plain.IsJsonText` are what the two document. A class is known by its name, a float by its
-- bits, a text has no lone surrogates. The token of `uuid4()` is an argument of the call that creates
-- it, and the theorems say where they need it to be new. The runtime of nogil_rpc opens nothing when its
-- constructor or its `start` raises.
--
-- Bounds and fuel. Python's integers are unbounded, as are ℕ and ℤ, so nothing wraps around; the one
-- number of fixed width is the metadata length in the header, which must be below 2 ^ 64. The
-- walks of `encode` and `decode` count down the depth that is left below `max_tree_depth`; at zero they
-- raise, as the source does past the limit. `map_tensors` has no limit in the source but Python's own:
-- its number is the depth that Python allows, at zero it raises a `RecursionError`.
-- `Packets.Total` is about how much of it a value that `encode` accepts needs. The other loops run over
-- lists.
--
-- Not modelled. A `BaseException` that is no `Exception` (an interrupt) passes through the actor's
-- handlers in the source. The cause that `raise ... from` attaches is dropped. The texts that Python
-- itself puts into a `KeyError` or `TypeError` are given for the reader; no theorem rests on a
-- `TypeError`'s. The owners that a packet keeps alive are left out, and so are subclasses of the
-- built-in types. The reason of `worker_failed` and `fail` is the text that `str` gives. Two threads that
-- start and stop one server at the same time are not modelled: its methods run one after another. `json.dumps`
-- does not raise: its limits on recursion and on the digits of an integer are not modelled, and the codec's
-- limit on the depth, unless it is set higher, and its integers of 64 bits stay below both. Left
-- out too: the constructor of the worker facade and its reads, whose calls may break it too, and
-- the facade `RpcInputDomainList` and the server of input_domain_list.py. The imports of
-- nogil_data_plane/adapters.py are not modelled.
mod Common
mod Exec
mod Samples
pub mod Errors
pub mod Python
pub mod Types
pub mod Library
pub mod Validation
pub mod Framing
pub mod Packets
pub mod Facade
pub mod Server
pub mod Actor
pub mod InputActor
