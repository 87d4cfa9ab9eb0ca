-- ===== src/Client/InputBuffer/Writer.antt =====
-- The writing of a packet of inputs: `InputPacketWriter` and `append_input_packet` in
-- src/client/store/input_buffer.cpp. The packet and the serializer of the input component are
-- parameters; the traces are left out.
pub mod Attempt
pub mod Suffix
pub mod Packet
mod Tests
use ashiato_sync.Base.{
  ℕ, zero, suc, ◌+◌, ◌-◌, ◌*◌, ◌/◌, ◌%◌, ◌^◌, min, max, Bool, true, false, ◌&&◌, ◌||◌, not, List,
  [], ◌∷◌, ◌++◌, Option, none, some, ltb, leb, ◌==◌, if◌then◌else◌, length, take, drop,
}
use ashiato_sync.Capacity.{sub64}
use ashiato_sync.Protocol.{bytes_for_bits}
use ashiato_sync.Wire.{BitSink, serialize_varint2_raw}
use ashiato_sync.Client.PayloadRing.{ring_slot_for}
use ashiato_sync.Server.InputBuffer.{input_count_bits}
use ashiato_sync.Client.AckQueue.{PacketBuilder, message_bits, ack_count_bits, max_ack_count}
use ashiato_sync.Client.InputBuffer.{
  ClientInputBuffer, InputFrameRange, has_frame, frame_bytes, range_count, trailing,
  find_newest_contiguous_input_range, must_encode_first_frame_in_full,
}

abbrev pub client_input_message : ℕ
client_input_message = 7

pub record InputWriteResult : Type 0 where
  pub count_offset : ℕ
  pub count : ℕ
  pub first_frame : ℕ
  pub last_frame : ℕ

-- What the writer needs of the packet, and the serializer of the input: the bytes before, if there
-- are any, the current ones, the frame and the frame before.
pub record InputSink (B : Type 0) : Type 0 where
  pub sink : BitSink B
  pub builder : PacketBuilder B
  pub truncate_bits : (offset : ℕ) → B → B
  pub serialize :
      (previous : Option (List ℕ)) → (current : List ℕ) → (current_frame previous_frame : ℕ) → B → B

pub varint2_raw_bits : (use_short : Bool) → (short_bits full_bits : ℕ) → ℕ
varint2_raw_bits use_short short_bits full_bits = 1 + (if use_short then short_bits else full_bits)

pub fixed_header_bits : ℕ
unfolding varint2_raw_bits
fixed_header_bits =
    message_bits + ack_count_bits + 32 + varint2_raw_bits true 0 32 + input_count_bits

-- Whether the first frame of a range is written in full.
pub first_input_full : ClientInputBuffer → InputFrameRange → Bool
unfolding must_encode_first_frame_in_full
first_input_full b range = not (range.first == 0) && must_encode_first_frame_in_full b range.first

-- The input that the first one of a range is relative to.
pub first_previous : ClientInputBuffer → InputFrameRange → Option (List ℕ)
unfolding first_input_full
first_previous b range =
    if first_input_full b range || (length b.acked_baseline == 0)
    then none
    else some b.acked_baseline

module _ {B : Type 0} (out : InputSink B) (mtu_bytes packet_id_bits : ℕ)
    (b : ClientInputBuffer) where
  pub serialize_input_frame :
      (frame : ℕ) → (previous : Option (List ℕ)) → (current : List ℕ) → B → B
  serialize_input_frame frame previous current packet =
      out.serialize previous current frame
        (elim previous [ none ↦ 0 | some bytes ↦ (frame + 2 ^ 32 - 1) % 2 ^ 32 ]) packet

  -- The loop over the `count` frames from `frame` on.
  pub write_frames :
      (count frame : ℕ) → (previous : Option (List ℕ)) → B → InputWriteResult → B × InputWriteResult
  unfolding has_frame frame_bytes ring_slot_for serialize_input_frame bytes_for_bits
  write_frames zero frame previous packet result = (packet, result)
  write_frames (suc count) frame previous packet result =
      let bytes = frame_bytes b (ring_slot_for b.frames frame) in
      let longer = serialize_input_frame frame previous bytes packet in
      let rest =
        write_frames count (frame + 1) (some bytes) longer
          (record result { last_frame = frame; count = (result.count + 1) % 2 ^ 16 }) in
      if not (has_frame b frame)
      then (packet, result)
      else if ltb mtu_bytes (bytes_for_bits (out.builder.bit_size longer))
      then (out.truncate_bits (out.builder.bit_size packet) longer, result)
      else rest

  pub write_input_attempt : InputFrameRange → B → B × InputWriteResult
  unfolding first_input_full first_previous write_frames
  write_input_attempt range packet =
      let full = first_input_full b range in
      let acked = out.sink.write_unsigned_bits b.acked_frame 32 packet in
      let first = serialize_varint2_raw out.sink (not full) 0 0 range.first 32 acked in
      let result : InputWriteResult = record {
        count_offset = out.builder.bit_size first;
        count = 0;
        first_frame = range.first;
        last_frame = 0;
      } in
      let frames = if range.first == 0 then 0 else range.last + 1 - range.first in
      write_frames frames range.first (first_previous b range)
        (out.sink.write_unsigned_bits 0 input_count_bits first) result

  -- The loop that tries shorter and shorter ends of the desired range, on fuel: none where it runs out.
  pub try_suffixes :
      (fuel section_offset : ℕ)
      → (desired candidate : InputFrameRange) → B
      → Option (B × InputWriteResult)
  unfolding write_input_attempt trailing
  try_suffixes zero section_offset desired candidate packet = none
  try_suffixes (suc fuel) section_offset desired candidate packet =
      let attempt = write_input_attempt candidate (out.truncate_bits section_offset packet) in
      let shorter =
        try_suffixes fuel section_offset desired (trailing desired attempt.1.count) attempt.0 in
      if (attempt.1.count == 0) || (attempt.1.last_frame == desired.last)
      then some attempt
      else shorter

  -- With as many attempts as the range has frames, and one more.
  pub append_newest_input_suffix : InputFrameRange → B → Option (B × InputWriteResult)
  unfolding try_suffixes range_count
  append_newest_input_suffix desired packet =
      elim (try_suffixes (range_count desired + 1) (out.builder.bit_size packet) desired desired
        packet) [
          | none ↦ none
          | some (written, result) ↦ some (
            out.builder.overwrite_unsigned_bits result.count_offset result.count input_count_bits
                written,
            result,
          )
        ]

  pub serialized_first_input_bits : InputFrameRange → ℕ
  unfolding first_previous frame_bytes ring_slot_for
  serialized_first_input_bits range =
      let previous = first_previous b range in
      if range.first == 0
      then 0
      else out.builder.bit_size (
          out.serialize previous (frame_bytes b (ring_slot_for b.frames range.first)) range.first
            (elim previous [ none ↦ 0 | some bytes ↦ b.acked_frame ]) out.builder.cleared)

  -- The loop over the pending acknowledgements, `room` of which the count can still say; what is
  -- written and how many. `reserved` bits are kept for the first input.
  pub write_pending_acks : (room reserved : ℕ) → List ℕ → B → B × ℕ
  unfolding bytes_for_bits
  write_pending_acks zero reserved pending packet = (packet, 0)
  write_pending_acks (suc room) reserved [] packet = (packet, 0)
  write_pending_acks (suc room) reserved (packet_id ∷ pending) packet =
      let longer = out.sink.write_unsigned_bits packet_id packet_id_bits packet in
      let (written, ack_count) = write_pending_acks room reserved pending longer in
      if ltb mtu_bytes (bytes_for_bits (out.builder.bit_size longer + reserved))
      then (out.truncate_bits (out.builder.bit_size packet) longer, 0)
      else (written, ack_count + 1)

  -- The header and the acknowledgements, and how many there are.
  pub append_acks : List ℕ → InputFrameRange → B × ℕ
  unfolding write_pending_acks serialized_first_input_bits fixed_header_bits varint2_raw_bits
      first_input_full
  append_acks pending_acks desired =
      let message =
        out.sink.write_unsigned_bits client_input_message message_bits out.builder.cleared in
      let header = out.sink.write_unsigned_bits 0 ack_count_bits message in
      let max_acks =
        min max_ack_count (sub64 (mtu_bytes * 8 % 2 ^ 64) fixed_header_bits / packet_id_bits) in
      let reserved =
        32
        + varint2_raw_bits (not (first_input_full b desired)) 0 32
        + input_count_bits
        + serialized_first_input_bits desired in
      let (packet, ack_count) = write_pending_acks max_acks reserved pending_acks header in
      (
        out.builder.overwrite_unsigned_bits (out.builder.bit_size message) ack_count ack_count_bits
            packet,
        ack_count,
      )

pub record_input_truncation : InputFrameRange → (count : ℕ) → ClientInputBuffer → ClientInputBuffer
unfolding range_count
record_input_truncation desired count b =
    if ltb count (range_count desired)
    then record b {
      truncated_packets = (b.truncated_packets + 1) % 2 ^ 64;
      truncated_frames = (b.truncated_frames + (range_count desired - count)) % 2 ^ 64;
    }
    else b

-- What `append_input_packet` leaves: what it returns, the acknowledgements that are still pending,
-- the packets and the buffer.
pub record Appended (B : Type 0) : Type 0 where
  pub sent : Bool
  pub pending_acks : List ℕ
  pub packets : List B
  pub input : ClientInputBuffer

-- Whether there are inputs to send.
pub has_input_frames : ClientInputBuffer → Bool
has_input_frames b =
    let transmit_floor = max b.acked_frame b.retired_transmit_frame in
    b.has_latest && ltb transmit_floor (2 ^ 32 - 1) && ltb transmit_floor b.last_recorded_frame

module _ {B : Type 0} (out : InputSink B) (mtu_bytes packet_id_bits : ℕ) where
  -- None where the loop over the suffixes runs out of attempts.
  pub append_input_packet :
      (pending_acks : List ℕ) → (packets : List B) → ClientInputBuffer → Option (Appended B)
  unfolding has_input_frames fixed_header_bits find_newest_contiguous_input_range append_acks
      append_newest_input_suffix record_input_truncation
  append_input_packet pending_acks packets b =
      let desired =
        find_newest_contiguous_input_range b (max b.acked_frame b.retired_transmit_frame) in
      let (header, ack_count) = append_acks out mtu_bytes packet_id_bits b pending_acks desired in
      if not b.has_ops || not (has_input_frames b) || ltb (mtu_bytes * 8 % 2 ^ 64) fixed_header_bits
      then some (record { sent = false; pending_acks = pending_acks; packets = packets; input = b })
      else elim (append_newest_input_suffix out mtu_bytes packet_id_bits b desired header) [
        | none ↦ none
        | some written ↦
            let counted = record_input_truncation desired written.1.count b in
            if (ack_count == 0) && (written.1.count == 0)
            then some (record {
              sent = false;
              pending_acks = pending_acks;
              packets = packets;
              input = counted;
            })
            else some (record {
              sent = true;
              pending_acks = drop ack_count pending_acks;
              packets = packets ++ (written.0 ∷ []);
              input = record counted {
                history_discontinuous =
                    if written.1.count == 0 then counted.history_discontinuous else false;
              };
            })
      ]
