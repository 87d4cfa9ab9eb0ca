-- ===== src/Client/AckQueue/Tests.antt =====
-- Draining a queue of three acknowledgements.
use ashiato_sync.Base.{◌≡◌, refl, List, [], ◌∷◌, Bool, arith}
use ashiato_sync.Protocol.{bytes_for_bits}
use ashiato_sync.Wire.Queue.{queue_sink, queue}
use ashiato_sync.Client.AckQueue.{Drained, drain_ack_packets, one_ack_bytes}
use ashiato_sync.Client.AckQueue.Packets.{Extended, drain_ack_packets-Extended}
use ashiato_sync.Client.AckQueue.Samples.{queue_builder, queue_laws}

abbrev three_acks : Drained (List Bool)
three_acks = record { pending = 5 ∷ 6 ∷ 7 ∷ []; packets = []; traces = [] }

drain_ack_packets-Extended_example :
    let after = drain_ack_packets queue_sink queue_builder 3 8 three_acks in
    (after.pending ≡ [])
    × Extended queue queue_laws 8 3 [] [] (5 ∷ 6 ∷ 7 ∷ []) after.packets after.traces
unfolding one_ack_bytes bytes_for_bits
drain_ack_packets-Extended_example =
    drain_ack_packets-Extended queue queue_laws 8 3 three_acks (omega arith) (omega arith)
      (omega arith)

-- Two acknowledgements fit three bytes.
two_packets_of_acks :
    (drain_ack_packets queue_sink queue_builder 3 8 three_acks).traces
    ≡ (5 ∷ 6 ∷ []) ∷ (7 ∷ []) ∷ []
unfolding drain_ack_packets bytes_for_bits
two_packets_of_acks = refl

-- Where no acknowledgement fits, the queue is kept.
kept_queue : (drain_ack_packets queue_sink queue_builder 1 8 three_acks) ≡ three_acks
unfolding drain_ack_packets bytes_for_bits
kept_queue = refl
