-- ===== src/Server/PacketAcks/Tests.antt =====
-- The tracker on concrete inputs.
use ashiato_sync.Base.{refl, true, [], ◌∷◌, arith}
use ashiato_sync.Protocol.Widths.{packet_id_mask-ge}
use ashiato_sync.Server.PacketAcks.{send_packet, charged_packet_bytes}
use ashiato_sync.Server.PacketAcks.Flight.{IsAccounted, charged, send_packet-IsAccounted}
use ashiato_sync.Server.PacketAcks.Ids.{IsValid, occurrences, send_packet-IsValid}
use ashiato_sync.Server.PacketAcks.Samples.{numbers, adaptive, budget, update, two_packets}

two_packets-IsAccounted : IsAccounted two_packets
unfolding IsAccounted charged
two_packets-IsAccounted = (budget 200, refl, refl)

send_packet-IsAccounted_example :
    IsAccounted ((send_packet numbers adaptive true 28 2 9 9 1 60 (update ∷ []) two_packets).1)
unfolding charged charged_packet_bytes
send_packet-IsAccounted_example =
    send_packet-IsAccounted numbers adaptive true 28 2 9 9 1 60 (update ∷ []) two_packets refl
      (omega arith) two_packets-IsAccounted

two_packets-IsValid : IsValid 2 two_packets
unfolding IsValid occurrences
two_packets-IsValid =
    let enough = (packet_id_mask-ge 2 (omega arith) (omega arith)).0 in
    (omega arith, λ id. (ground arith, λ pos. (ground arith, ground arith)))

send_packet-IsValid_example :
    IsValid 2 ((send_packet numbers adaptive true 28 2 9 9 1 60 (update ∷ []) two_packets).1)
send_packet-IsValid_example =
    send_packet-IsValid numbers adaptive true 28 2 9 9 1 60 (update ∷ []) two_packets (omega arith)
      (omega arith) two_packets-IsValid
