-- ===== src/Server/ClientAcks/Tests.antt =====
-- A packet of acknowledgements at the server.
use ashiato_sync.Base.{◌≡◌, refl, List, [], ◌∷◌, ◌++◌, Bool, some, arith}
use ashiato_sync.Wire.{read_bits}
use ashiato_sync.Protocol.{bytes_for_bits}
use ashiato_sync.Wire.Queue.{queue_source, queue, bits_of}
use ashiato_sync.Client.AckQueue.{message_bits, client_ack_message}
use ashiato_sync.Client.AckQueue.Samples.{queue_laws}
use ashiato_sync.Server.PacketAcks.Flight.{IsAccounted, charged}
use ashiato_sync.Server.PacketAcks.Samples.{numbers, adaptive, budget, counter, two_packets}
use ashiato_sync.Server.ClientAcks.{process_client_acks_from_packet, process_client_ack_packet}
use ashiato_sync.Server.ClientAcks.Received.{applied, process_client_acks_from_packet-Carries}
use ashiato_sync.Server.ClientAcks.Flight.{process_client_ack_packet-IsAccounted}

-- Two acknowledgements of 8 bits.
abbrev ids : List Bool
ids = bits_of 5 2 ++ (bits_of 8 2 ++ (bits_of 8 1 ++ []))

process_client_acks_from_packet-Carries_example :
    (rest : List Bool) × (read_bits queue_source 8 message_bits (bits_of 3 1 ++ ids)
      ≡ some (client_ack_message, rest))
    × (process_client_acks_from_packet queue_source numbers adaptive counter 9 8 rest two_packets 0
        ≡ applied queue queue_laws numbers adaptive counter 9 8 (2 ∷ 1 ∷ []) two_packets 0)
unfolding queue bytes_for_bits bits_of
process_client_acks_from_packet-Carries_example =
    process_client_acks_from_packet-Carries queue queue_laws numbers adaptive counter 9 8 4
      (2 ∷ 1 ∷ []) (bits_of 3 1 ++ ids) two_packets 0 (omega arith) (omega arith)
      (omega arith, (omega arith, tt)) (refl, omega arith, omega arith, omega arith)

two_packets-IsAccounted : IsAccounted two_packets
unfolding IsAccounted charged
two_packets-IsAccounted = (budget 200, refl, refl)

-- The second id is cut off.
process_client_ack_packet-IsAccounted_example : IsAccounted (
    (process_client_ack_packet queue_source numbers adaptive counter 9 8
      (bits_of 5 2 ++ bits_of 8 1)
      two_packets
      0).1)
process_client_ack_packet-IsAccounted_example =
    process_client_ack_packet-IsAccounted queue_source numbers adaptive counter 9 8
      (bits_of 5 2 ++ bits_of 8 1) two_packets 0 refl two_packets-IsAccounted
