-- ===== src/Server/ClientAcks.antt =====
-- The acknowledgements of a client as the server takes them off a packet
-- (`process_client_acks_from_packet` and `process_client_ack_packet` in src/server.cpp). The traces
-- and the logs are left out.
pub mod Received
pub mod Flight
mod Tests
use ashiato_sync.Base.{
  ℕ, zero, suc, Bool, true, false, ◌&&◌, Option, none, some, List, [], ◌∷◌, if◌then◌else◌,
}
use ashiato_sync.Bandwidth.{Doubles, BandwidthOptions}
use ashiato_sync.Wire.{BitSource, read_bits}
use ashiato_sync.Client.AckQueue.{ack_count_bits}
use ashiato_sync.Server.PacketAcks.{AckTracker, RecordSink, acknowledge_packet, cleanup_packet_acks}

pub record ClientUpdateAckResult : Type 0 where
  pub packet_valid : Bool
  pub all_acknowledged : Bool

abbrev pub invalid_packet : ClientUpdateAckResult
invalid_packet = record { packet_valid = false; all_acknowledged = false }

module _ {B F S : Type 0} (source : BitSource B) (d : Doubles F) (options : BandwidthOptions F)
    (sink : RecordSink S) (server_frame packet_id_bits : ℕ) where
  -- The loop over the acknowledgements, `count` of which are left; marked false where the packet
  -- ends too early.
  pub process_acks :
      (count : ℕ)
      → B
      → (all_acknowledged : Bool) → AckTracker F
      → S
      → ClientUpdateAckResult × AckTracker F × S
  process_acks zero packet all_acknowledged t server =
      (record { packet_valid = true; all_acknowledged = all_acknowledged }, t, server)
  process_acks (suc count) packet all_acknowledged t server =
      elim (read_bits source 32 packet_id_bits packet) [
        | none ↦ (invalid_packet, t, server)
        | some read ↦
            let result = acknowledge_packet d options sink server_frame read.0 t server in
            process_acks count read.1 (result.0 && all_acknowledged) result.1 result.2
      ]

  pub process_client_acks_from_packet :
      B → AckTracker F → S → ClientUpdateAckResult × AckTracker F × S
  unfolding process_acks
  process_client_acks_from_packet packet t server =
      elim (read_bits source 16 ack_count_bits packet) [
        | none ↦ (invalid_packet, t, server)
        | some read ↦
            let result = process_acks read.0 read.1 true t server in
            if result.0.packet_valid
            then (
              result.0,
              cleanup_packet_acks d options sink result.2 server_frame result.1,
              result.2,
            )
            else result
      ]

  -- What is returned, and the client and the server after.
  pub process_client_ack_packet : B → AckTracker F → S → Bool × AckTracker F × S
  unfolding process_client_acks_from_packet
  process_client_ack_packet packet t server =
      let result = process_client_acks_from_packet packet t server in
      (result.0.packet_valid && result.0.all_acknowledged, result.1, result.2)
