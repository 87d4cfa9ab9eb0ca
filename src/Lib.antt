-- ===== src/Lib.antt =====
-- Verification of Ashiato Sync, a library that replicates entities from a server to its clients.
--
-- The server keeps the frames of each entity once, in quantized form, and shares them between its
-- clients by reference counts. For each client it keeps the states of the entities (the frame that
-- the client is known to have, and the frames that are on the way), a queue of what is dirty, a
-- queue of destructions, a table of small network ids, and the packets that are not acknowledged.
-- An acknowledged packet acknowledges its records: states move their baseline and give up old
-- frames, and a destruction gives its network id back. Inputs come the other way, into a ring of
-- frames for each client. The client buffers the frames of each entity in a ring, and sends back in
-- packets the ids of those that came.
--
-- The parts, with the files that they model:
--   Capacity          the test for powers of two (src/detail/options_validation.cpp) and the slot of
--                     a frame in a ring (src/client/store/frame_payload_ring.hpp)
--   Options           src/detail/options_validation.cpp, a validator as the first message it throws
--   Protocol          the widths in include/ashiato/sync/protocol.hpp, and ServerPacketIdAllocator in
--                     src/server/packet.cpp
--   Wire              BitReader in include/ashiato/sync/detail/bit_reader.hpp, the raw varints in
--                     include/ashiato/sync/serialization.hpp, and the entity ids and relative frames
--                     in include/ashiato/sync/protocol.hpp
--   Bandwidth         ReplicationBandwidthBudget in include/ashiato/sync/bandwidth_budget.hpp;
--                     Bandwidth.Share is ReplicationBandwidthShare, which divides a budget, and
--                     Bandwidth.Participants the flushes that wait for it
--   Server.NetworkIds, Server.Destroys, Server.Entities, Server.DirtyQueue
--                     the parts of ServerClientReplicator in src/server/server_client_replicator.cpp,
--                     with the state functions of src/server/quantized_frame.cpp
--   Server.Replicator  the operations of ServerClientReplicator that join these parts
--   Server.Frames     the counted frames in src/server/quantized_frame.cpp, and the making of a frame
--                     in find_or_create_quantized_frame of src/server.cpp
--   Server.PacketAcks AckTracker in src/server/packet_ack.cpp, and send_packet in
--                     src/server/transport.cpp
--   Server.ClientAcks process_client_acks_from_packet in src/server.cpp
--   Client.PayloadRing FramePayloadRing in src/client/store/frame_payload_ring.hpp
--   Client.FrameRings ClientFrameRingStore in src/client/store/frame_ring_store.cpp
--   Client.AckQueue   ClientAckQueue in src/client/store/ack_queue.cpp
--   Client.InputBuffer ClientInputBuffer in src/client/store/input_buffer.cpp
--   Server.InputBuffer ServerInputBuffer in src/server/input_buffer.cpp
--   Base              lemmas on tests, lists, counts and masks that these share
--
-- A struct is a record of the same fields and a member function a function of the same name that
-- gives the new state. Numbers are natural; where the source adds in 32 or 64 bits the remainder is
-- written out. A lookup by pointer is an Option. A vector is a list, read by `get_elem?`.
--
-- Three loops are on fuel. `count_bits` of Protocol halves its value, so that as much fuel as the value
-- is enough, and `bits_for_range-least` is proved with that fuel. `try_suffixes` of Client.InputBuffer
-- gives none where its attempts run out; `append_newest_input_suffix-Ends` says that one attempt more
-- than the range has frames is enough. `best_input` of Server.InputBuffer gives none where its fuel
-- runs out; one test more than the window has frames is enough for a due frame below 2 ^ 32 - 1
-- (`select_input_for_frame-Newest`), and for 2 ^ 32 - 1 the loop of the code has no end. All other loops recurse on a list or on a count.
--
-- Parameters: the bit buffer of the entity library (`BitSource`, `BitSink`, `PacketBuilder`, and the
-- promises `IsBitBuffer` and `IsPacketBuilder`), the serializer and the deserializer of an input, the
-- flushes of the participants, the floats, and what the server does for an acknowledged record
-- (`RecordSink`).
--
-- Not modelled: the tick of the server and the writing of updates, which drive the entity registry;
-- the client's entities, cues and runtimes; the clocks, which are floating-point control loops;
-- tracing, logging, profiling and replay files.
pub mod Bandwidth
pub mod Base
pub mod Capacity
pub mod Client
pub mod Options
pub mod Protocol
pub mod Server
pub mod Wire
