-- ===== src/Client/AckQueue.antt =====
-- The acknowledgements that the client sends (src/client/store/ack_queue.cpp and .hpp). The packet
-- is a `BitBuffer` of the entity library, a parameter; the serialization traces are left out.
pub mod Packets
pub mod Samples
mod Tests
use ashiato_sync.Base.{
  ℕ, zero, suc, ◌+◌, ◌*◌, ◌/◌, ◌%◌, ◌^◌, ◌-◌, min, List, [], ◌∷◌, ◌++◌, ltb, ◌==◌, if◌then◌else◌,
  length,
}
use ashiato_sync.Capacity.{sub64}
use ashiato_sync.Protocol.{bytes_for_bits}
use ashiato_sync.Wire.{BitSink}

abbrev pub message_bits : ℕ
message_bits = 3

abbrev pub client_ack_message : ℕ
client_ack_message = 1

abbrev pub ack_count_bits : ℕ
ack_count_bits = 5

abbrev pub max_ack_count : ℕ
max_ack_count = 2 ^ ack_count_bits - 1

abbrev pub client_ack_header_bits : ℕ
client_ack_header_bits = message_bits + ack_count_bits

-- What else a packet is built with: the empty buffer, the number of bits written, and a field
-- written over.
pub record PacketBuilder (B : Type 0) : Type 0 where
  pub cleared : B
  pub bit_size : B → ℕ
  pub overwrite_unsigned_bits : (offset value bits : ℕ) → B → B

-- The queue, and the packets and traces made so far.
pub record Drained (B : Type 0) : Type 0 where
  pub pending : List ℕ
  pub packets : List B
  pub traces : List (List ℕ)

-- The packet that is being written, with the acknowledgements in it.
pub record AckWriter (B : Type 0) : Type 0 where
  pub packet : B
  pub packet_count_offset : ℕ
  pub packet_ack_count : ℕ
  pub acks : List ℕ
  pub packets : List B
  pub traces : List (List ℕ)

pub push : (packet_id : ℕ) → List ℕ → List ℕ
push packet_id pending = pending ++ (packet_id ∷ [])

pub one_ack_bytes : (packet_id_bits : ℕ) → ℕ
one_ack_bytes packet_id_bits = bytes_for_bits (client_ack_header_bits + packet_id_bits)

pub max_acks_per_packet : (mtu_bytes packet_id_bits : ℕ) → ℕ
max_acks_per_packet mtu_bytes packet_id_bits =
    min max_ack_count (sub64 (mtu_bytes * 8 % 2 ^ 64) client_ack_header_bits / packet_id_bits)

module _ {B : Type 0} (sink : BitSink B) (builder : PacketBuilder B) where
  pub begin_packet : AckWriter B → AckWriter B
  begin_packet w =
      let message = sink.write_unsigned_bits client_ack_message message_bits builder.cleared in
      record w {
        packet = sink.write_unsigned_bits 0 ack_count_bits message;
        packet_count_offset = builder.bit_size message;
        packet_ack_count = 0;
        acks = [];
      }

  pub finish_packet : AckWriter B → AckWriter B
  finish_packet w =
      if w.packet_ack_count == 0
      then w
      else let packet =
          builder.overwrite_unsigned_bits w.packet_count_offset w.packet_ack_count ack_count_bits
            w.packet in
        record w {
          traces = w.traces ++ (w.acks ∷ []);
          packets = w.packets ++ (packet ∷ []);
          packet = builder.cleared;
        }

  -- The packet with one more acknowledgement.
  pub write_ack : (packet_id_bits packet_id : ℕ) → AckWriter B → AckWriter B
  write_ack packet_id_bits packet_id w = record w {
    packet = sink.write_unsigned_bits packet_id packet_id_bits w.packet;
    acks = w.acks ++ (packet_id ∷ []);
    packet_ack_count = (w.packet_ack_count + 1) % 2 ^ 16;
  }

  -- Where a packet is full, the next one is begun.
  pub make_room : (max_acks : ℕ) → AckWriter B → AckWriter B
  unfolding begin_packet finish_packet
  make_room max_acks w =
      if w.packet_ack_count == max_acks then begin_packet (finish_packet w) else w

  -- The loop over the queue.
  pub write_acks : (max_acks packet_id_bits : ℕ) → List ℕ → AckWriter B → AckWriter B
  unfolding make_room write_ack
  write_acks max_acks packet_id_bits [] w = w
  write_acks max_acks packet_id_bits (packet_id ∷ pending) w =
      write_acks max_acks packet_id_bits pending
        (write_ack packet_id_bits packet_id (make_room max_acks w))

  pub drain_ack_packets : (mtu_bytes packet_id_bits : ℕ) → Drained B → Drained B
  unfolding one_ack_bytes max_acks_per_packet write_acks begin_packet finish_packet
  drain_ack_packets mtu_bytes packet_id_bits q =
      let max_acks = max_acks_per_packet mtu_bytes packet_id_bits in
      if length q.pending == 0
      then record q { pending = [] }
      else if ltb mtu_bytes (one_ack_bytes packet_id_bits)
      then q
      else if max_acks == 0
      then q
      else (let first = begin_packet (record {
        packet = builder.cleared;
        packet_count_offset = 0;
        packet_ack_count = 0;
        acks = [];
        packets = q.packets;
        traces = q.traces;
      }) in
          let done = finish_packet (write_acks max_acks packet_id_bits q.pending first) in
          record { pending = []; packets = done.packets; traces = done.traces })
