-- ===== src/Server/ClientAcks/Flight.antt =====
-- The budget of a client through its acknowledgements, those of malformed packets too.
use ashiato_sync.Base.{ℕ, zero, suc, ◌≡◌, Bool, true, ◌&&◌, inl, inr, Option-cases, Bool-cases}
use ashiato_sync.Bandwidth.{Doubles, BandwidthOptions}
use ashiato_sync.Wire.{BitSource, read_bits}
use ashiato_sync.Client.AckQueue.{ack_count_bits}
use ashiato_sync.Server.PacketAcks.{AckTracker, RecordSink, acknowledge_packet}
use ashiato_sync.Server.PacketAcks.Flight.{
  IsAccounted, acknowledge_packet-IsAccounted, cleanup_packet_acks-IsAccounted,
}
use ashiato_sync.Server.ClientAcks.{
  process_acks, process_client_acks_from_packet, process_client_ack_packet,
}

module _ {B F S : Type 0} (source : BitSource B) (d : Doubles F) (options : BandwidthOptions F)
    (sink : RecordSink S) (server_frame packet_id_bits : ℕ) where
  process_acks-IsAccounted :
      (count : ℕ) (packet : B) (all_acknowledged : Bool) (t : AckTracker F) (server : S)
      → options.enabled ≡ true
      → IsAccounted t
      → IsAccounted (
          (process_acks source d options sink server_frame packet_id_bits count packet
            all_acknowledged t server).1)
  unfolding process_acks
  process_acks-IsAccounted zero packet all_acknowledged t server on v = v
  process_acks-IsAccounted (suc count) packet all_acknowledged t server on v =
      elim (Option-cases (read_bits source 32 packet_id_bits packet)) [
        | inl short ↦ rw (short, process_acks) v
        | inr (id_and_rest, read) ↦
            let result = acknowledge_packet d options sink server_frame id_and_rest.0 t server in
            rw (read, process_acks)
              (process_acks-IsAccounted count id_and_rest.1 (result.0 && all_acknowledged) result.1
                result.2 on
                (acknowledge_packet-IsAccounted d options on sink server_frame id_and_rest.0 t
                  server v))
      ]

  -- With an adaptive budget whose bytes in flight are those of the pending packets, they still are
  -- after any packet of acknowledgements: a packet that is malformed from the start, one that ends
  -- in the middle of its ids, and one whose ids are not pending or come twice.
  pub process_client_ack_packet-IsAccounted :
      (packet : B) (t : AckTracker F) (server : S)
      → options.enabled ≡ true
      → IsAccounted t
      → IsAccounted (
          (process_client_ack_packet source d options sink server_frame packet_id_bits packet t
            server).1)
  unfolding process_client_ack_packet process_client_acks_from_packet
  process_client_ack_packet-IsAccounted packet t server on v =
      elim (Option-cases (read_bits source 16 ack_count_bits packet)) [
        | inl malformed ↦ rw (malformed, process_client_acks_from_packet) v
        | inr (count_and_rest, read) ↦
            let result =
              process_acks source d options sink server_frame packet_id_bits count_and_rest.0
                count_and_rest.1 true t server in
            let so_far =
              process_acks-IsAccounted count_and_rest.0 count_and_rest.1 true t server on v in
            elim (Bool-cases result.0.packet_valid) [
              | inl whole ↦
                  rw (read, whole, process_client_acks_from_packet)
                    (cleanup_packet_acks-IsAccounted d options on sink result.2 server_frame
                      result.1 so_far)
              | inr cut_off ↦ rw (read, cut_off, process_client_acks_from_packet) so_far
            ]
      ]
