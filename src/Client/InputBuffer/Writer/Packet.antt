-- ===== src/Client/InputBuffer/Writer/Packet.antt =====
-- The making of a packet of inputs.
use ashiato_sync.Base.{
  ℕ, zero, suc, ◌+◌, ◌*◌, ◌%◌, ◌^◌, ◌≤◌, ◌<◌, ◌≡◌, refl, ap, max, min, Bool, true, false, ◌&&◌,
  ◌||◌, not, List, [], ◌∷◌, ◌++◌, some, ltb, ◌==◌, drop, length, arith, Bool-cases, inl, inr, ◌⊎◌,
}
use ashiato_sync.Protocol.{bytes_for_bits}
use ashiato_sync.Client.AckQueue.{max_ack_count}
use ashiato_sync.Client.InputBuffer.{
  ClientInputBuffer, InputFrameRange, find_newest_contiguous_input_range,
}
use ashiato_sync.Client.InputBuffer.Range.{find_newest_contiguous_input_range-IsNewest}
use ashiato_sync.Client.InputBuffer.Writer.{
  InputSink, Appended, append_acks, write_pending_acks, append_input_packet, has_input_frames,
  fixed_header_bits,
}
use ashiato_sync.Client.InputBuffer.Writer.Suffix.{IsRange, append_newest_input_suffix-Ends}

min_left : (a b c : ℕ) → a ≤ min b c → a ≤ b
min_left a b c h = omega arith

second_fails : (x y z : Bool) → (x || not y || z) ≡ false → y ≡ true
second_fails x true z h = refl
second_fails true false z h = absurd (cc)
second_fails false false z h = absurd (cc)

module _ {B : Type 0} (out : InputSink B) (mtu_bytes packet_id_bits : ℕ) where
  -- The range to send is one that the loop over its ends takes.
  desired-IsRange :
      (b : ClientInputBuffer)
      → b.last_recorded_frame < 2 ^ 32
      → has_input_frames b ≡ true
      → IsRange out mtu_bytes packet_id_bits b
          (find_newest_contiguous_input_range b (max b.acked_frame b.retired_transmit_frame))
  unfolding has_input_frames
  desired-IsRange b small inputs =
      let floor = max b.acked_frame b.retired_transmit_frame in
      let above : floor < b.last_recorded_frame = ground arith in
      elim (find_newest_contiguous_input_range-IsNewest b floor above small) [
        | inl (e, missing) ↦ inl (ap (λ (r : InputFrameRange). r.first) e)
        | inr newest ↦ inr (
          omega (arith, newest.first_ge),
          omega (arith, newest.first_le, newest.last),
          omega (arith, newest.last),
          omega (arith, newest.first_ge, newest.last),
        )
      ]

  -- The acknowledgements that a packet takes are some of the pending ones, and not more than its count
  -- can say.
  write_pending_acks-le :
      (b : ClientInputBuffer) (room reserved : ℕ) (pending : List ℕ) (packet : B)
      → ((write_pending_acks out mtu_bytes packet_id_bits b room reserved pending packet).1 ≤ room)
        × ((write_pending_acks out mtu_bytes packet_id_bits b room reserved pending packet).1
            ≤ length pending)
  unfolding write_pending_acks
  write_pending_acks-le b zero reserved pending packet = (omega arith, omega arith)
  write_pending_acks-le b (suc room) reserved [] packet = (omega arith, omega arith)
  write_pending_acks-le b (suc room) reserved (packet_id ∷ pending) packet =
      let longer : B = out.sink.write_unsigned_bits packet_id packet_id_bits packet in
      let (few, some_pending) = write_pending_acks-le b room reserved pending longer in
      elim (Bool-cases (ltb mtu_bytes (bytes_for_bits (out.builder.bit_size longer + reserved)))) [
        | inl full ↦ rw (full, write_pending_acks) (omega arith, omega arith)
        | inr fits ↦ rw (fits, write_pending_acks) (omega arith, omega arith)
      ]

  append_acks-le :
      (b : ClientInputBuffer) (pending : List ℕ) (desired : InputFrameRange)
      → ((append_acks out mtu_bytes packet_id_bits b pending desired).1 ≤ max_ack_count)
        × ((append_acks out mtu_bytes packet_id_bits b pending desired).1 ≤ length pending)
  unfolding append_acks
  append_acks-le b pending desired =
      let (few, some_pending) = write_pending_acks-le b _ _ pending _ in
      (min_left _ _ _ few, some_pending)

  -- What the call does: nothing was sent and the acknowledgements still wait, or one packet was made,
  -- which takes some of them from the front, at most 31.
  abbrev pub Answer : (pending_acks : List ℕ) → (packets : List B) → Appended B → Type 0
  Answer pending_acks packets a =
      ((a.sent ≡ false) × (a.pending_acks ≡ pending_acks) × (a.packets ≡ packets))
      ⊎ ((a.sent ≡ true)
          × (ack_count : ℕ) × (packet : B) × (ack_count ≤ max_ack_count)
          × (ack_count ≤ length pending_acks)
          × (a.pending_acks ≡ drop ack_count pending_acks)
          × (a.packets ≡ packets ++ (packet ∷ [])))

  -- With a last recorded frame of 32 bits, whatever the state of the inputs, the sizes of the inputs
  -- in the packet and the MTU are, the making of an input packet ends. Either nothing is sent, and the
  -- pending acknowledgements and the packets are as before; or one packet is added, and at most 31
  -- pending acknowledgements are taken from the front of the queue.
  pub append_input_packet-Answer :
      (pending_acks : List ℕ) (packets : List B) (b : ClientInputBuffer)
      → b.last_recorded_frame < 2 ^ 32
      → (a : Appended B) × (append_input_packet out mtu_bytes packet_id_bits pending_acks packets b
          ≡ some a)
        × Answer pending_acks packets a
  unfolding append_input_packet
  append_input_packet-Answer pending_acks packets b small =
      let floor = max b.acked_frame b.retired_transmit_frame in
      let desired : InputFrameRange = find_newest_contiguous_input_range b floor in
      let header : B × ℕ = append_acks out mtu_bytes packet_id_bits b pending_acks desired in
      let (few, some_pending) = append_acks-le b pending_acks desired in
      elim (Bool-cases (
        not b.has_ops
        || not (has_input_frames b)
        || ltb (mtu_bytes * 8 % 2 ^ 64) fixed_header_bits)) [
          | inl idle ↦ rw (idle, append_input_packet) (_, refl, inl (refl, refl, refl))
          | inr busy ↦
              let inputs : has_input_frames b ≡ true = second_fails (not b.has_ops) _ _ busy in
              let (written, e, good) =
                append_newest_input_suffix-Ends out mtu_bytes packet_id_bits b desired header.0
                  (desired-IsRange b small inputs) in
              elim (Bool-cases ((header.1 == 0) && (written.1.count == 0))) [
                | inl nothing ↦
                    rw (busy, e, nothing, append_input_packet) (_, refl, inl (refl, refl, refl))
                | inr something ↦
                    rw (busy, e, something, append_input_packet)
                      (_, refl, inr (refl, header.1, written.0, few, some_pending, refl, refl))
              ]
        ]
