-- ===== src/Protocol.antt =====
-- The widths of the wire format (include/ashiato/sync/protocol.hpp): how many bits a range of values
-- takes, and the packet ids that the server draws from it (`ServerPacketIdAllocator` in
-- src/server/packet.cpp).
pub mod Widths
mod Tests
use ashiato_sync.Base.{
  ℕ, zero, suc, ◌+◌, ◌-◌, ◌/◌, ◌^◌, Bool, true, false, ◌||◌, ltb, leb, ◌==◌, if◌then◌else◌,
}

unfoldable pub bytes_for_bits : ℕ → ℕ
bytes_for_bits bits = (bits + 7) / 8

-- The loop of `bits_for_range`, which halves `values` until it is zero.
pub count_bits : (fuel bits values : ℕ) → ℕ
count_bits zero bits values = bits
count_bits (suc fuel) bits values =
    let later = count_bits fuel (bits + 1) (values / 2) in if values == 0 then bits else later

pub bits_for_range : ℕ → ℕ
unfolding count_bits
bits_for_range value_count =
    if leb value_count 1 then 1 else count_bits (value_count - 1) 0 (value_count - 1)

-- The range has one value more than `max_pending_packet_acks`, which is below 2 ^ 32 - 1 here.
pub packet_id_bits_for_max_pending : ℕ → ℕ
unfolding bits_for_range
packet_id_bits_for_max_pending max_pending_packet_acks =
    if leb (2 ^ 32 - 1) max_pending_packet_acks
    then 32
    else let bits = bits_for_range (max_pending_packet_acks + 1) in if ltb 32 bits then 32 else bits

pub packet_id_mask : ℕ → ℕ
packet_id_mask packet_id_bits = if leb 32 packet_id_bits then 2 ^ 32 - 1 else 2 ^ packet_id_bits - 1

-- The id of the next packet, and the one after it.
pub allocate_packet_id : (max_packet_id next_packet_id : ℕ) → ℕ × ℕ
allocate_packet_id max_packet_id next_packet_id =
    let packet_id =
      if next_packet_id == 0 || ltb max_packet_id next_packet_id then 1 else next_packet_id in
    (packet_id, if packet_id == max_packet_id then 1 else packet_id + 1)
