-- ===== src/Protocol/Tests.antt =====
-- Widths on concrete inputs.
use ashiato_sync.Base.{◌^◌, ◌<◌, ◌≤◌, arith}
use ashiato_sync.Protocol.{bits_for_range, packet_id_mask, packet_id_bits_for_max_pending}
use ashiato_sync.Protocol.Widths.{bits_for_range-least, packet_id_mask-ge}

bits_for_range-least_example : (300 ≤ 2 ^ bits_for_range 300) × (2 ^ bits_for_range 300 < 600)
bits_for_range-least_example = bits_for_range-least 300 (omega arith)

packet_id_mask-ge_example :
    (255 ≤ packet_id_mask (packet_id_bits_for_max_pending 255))
    × (packet_id_mask (packet_id_bits_for_max_pending 255) < 2 ^ 32)
packet_id_mask-ge_example = packet_id_mask-ge 255 (omega arith) (omega arith)
