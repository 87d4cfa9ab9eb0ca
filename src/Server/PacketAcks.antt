-- ===== src/Server/PacketAcks.antt =====
-- The packets that one client has not acknowledged (`AckTracker` in src/server/packet_ack.cpp, with
-- src/server/packet_ack_tracker.hpp) and what they charge to the client's bandwidth budget. The
-- destructions and the states that a record acknowledges are behind `RecordSink`.
pub mod Flight
pub mod Ids
pub mod Samples
mod Tests
use ashiato_sync.Base.{
  ℕ, ◌+◌, ◌-◌, Bool, true, false, ◌&&◌, ◌||◌, not, List, [], ◌∷◌, ◌++◌, Option, none, some, ◌==◌,
  leb, if◌then◌else◌, length, take, drop, find, erase_first, remove_if, any,
}
use ashiato_sync.Protocol.{packet_id_mask, packet_id_bits_for_max_pending}
use ashiato_sync.Protocol
use ashiato_sync.Bandwidth.{
  Doubles, BandwidthOptions, Budget, packet_sent, packet_acked, packet_lost, spend,
}

pub record PacketAckRecord : Type 0 where
  pub entity : ℕ
  pub frame : ℕ
  pub destroy : Bool

pub record PendingPacketAck : Type 0 where
  pub packet_id : ℕ
  pub sent_frame : ℕ
  pub charged_bytes : ℕ
  pub records : List PacketAckRecord

-- What the tracker calls when a record is acknowledged, on the server's state S: the client's
-- destructions and `ReplicationServer::acknowledge_entity`; and what it asks of a record.
pub record RecordSink (S : Type 0) : Type 0 where
  pub acknowledge_destroy : (entity frame : ℕ) → S → Bool × S
  pub acknowledge_entity : (entity frame : ℕ) → S → Bool × S
  pub record_pending : S → PacketAckRecord → Bool

-- The tracker, and the `client.bandwidth` that it charges, if the client has one.
pub record AckTracker (F : Type 0) : Type 0 where
  pub next_packet_id : ℕ
  pub pending_packet_acks : List PendingPacketAck
  pub bandwidth : Option (Budget F)

pub same_packet : ℕ → PendingPacketAck → Bool
same_packet packet_id pending = pending.packet_id == packet_id

-- The loop of `acknowledge_packet` over the records.
pub acknowledge_records : {S : Type 0} → RecordSink S → List PacketAckRecord → Bool → S → Bool × S
acknowledge_records sink [] all_valid server = (all_valid, server)
acknowledge_records sink (r ∷ records) all_valid server =
    let result =
      if r.destroy
      then sink.acknowledge_destroy r.entity r.frame server
      else sink.acknowledge_entity r.entity r.frame server in
    acknowledge_records sink records (result.0 && all_valid) result.1

module _ {F : Type 0} (d : Doubles F) (options : BandwidthOptions F) where
  pub charge_lost : (frame : ℕ) → PendingPacketAck → Option (Budget F) → Option (Budget F)
  charge_lost frame pending none = none
  charge_lost frame pending (some b) =
      if options.enabled then some (packet_lost d options frame pending.charged_bytes b) else some b

  -- The packets of a list that a test picks are lost, first to last.
  pub lose_if :
      (PendingPacketAck → Bool)
      → (frame : ℕ) → List PendingPacketAck
      → Option (Budget F)
      → Option (Budget F)
  unfolding charge_lost
  lose_if lost frame [] bandwidth = bandwidth
  lose_if lost frame (p ∷ pending) bandwidth =
      lose_if lost frame pending (if lost p then charge_lost frame p bandwidth else bandwidth)

  pub acknowledge_packet :
      {S : Type 0}
      → RecordSink S
      → (server_frame packet_id : ℕ) → AckTracker F
      → S
      → Bool × AckTracker F × S
  unfolding same_packet acknowledge_records
  acknowledge_packet sink server_frame packet_id t server =
      elim (find (same_packet packet_id) t.pending_packet_acks) [
        | none ↦ (false, t, server)
        | some found ↦
            let result = acknowledge_records sink found.records true server in
            (
              result.0,
              record t {
                bandwidth = landed found t.bandwidth;
                pending_packet_acks = erase_first (same_packet packet_id) t.pending_packet_acks;
              },
              result.1,
            )
      ]
    where
      landed : PendingPacketAck → Option (Budget F) → Option (Budget F)
      landed found none = none
      landed found (some b) =
          if options.enabled
          then some (packet_acked d options found.sent_frame server_frame found.charged_bytes b)
          else some b

  pub cleanup_packet_acks :
      {S : Type 0} → RecordSink S → S → (server_frame : ℕ) → AckTracker F → AckTracker F
  unfolding lose_if
  cleanup_packet_acks sink server server_frame t =
      let stale = λ (p : PendingPacketAck). not (any (sink.record_pending server) p.records) in
      record t {
        bandwidth = lose_if stale server_frame t.pending_packet_acks t.bandwidth;
        pending_packet_acks = remove_if stale t.pending_packet_acks;
      }

  pub allocate_packet_id : (max_pending server_frame : ℕ) → AckTracker F → ℕ × AckTracker F
  unfolding lose_if same_packet
  allocate_packet_id max_pending server_frame t =
      let ids =
        Protocol.allocate_packet_id (packet_id_mask (packet_id_bits_for_max_pending max_pending))
          t.next_packet_id in
      (
        ids.0,
        record {
          next_packet_id = ids.1;
          bandwidth = lose_if (same_packet ids.0) server_frame t.pending_packet_acks t.bandwidth;
          pending_packet_acks = remove_if (same_packet ids.0) t.pending_packet_acks;
        },
      )

  pub enforce_pending_packet_ack_limit :
      (max_pending server_frame : ℕ) → AckTracker F → AckTracker F
  unfolding lose_if
  enforce_pending_packet_ack_limit max_pending server_frame t =
      if leb (length t.pending_packet_acks) max_pending
      then t
      else let drop_count = length t.pending_packet_acks - max_pending in
        record t {
          bandwidth =
              lose_if (λ p. true) server_frame (take drop_count t.pending_packet_acks) t.bandwidth;
          pending_packet_acks = drop drop_count t.pending_packet_acks;
        }

  pub track_packet_ack :
      (packet_id sent_frame charged_bytes : ℕ) → List PacketAckRecord → AckTracker F → AckTracker F
  track_packet_ack packet_id sent_frame charged_bytes [] t = t
  track_packet_ack packet_id sent_frame charged_bytes (r ∷ records) t = record t {
    pending_packet_acks =
        t.pending_packet_acks
        ++ (record {
          packet_id = packet_id;
          sent_frame = sent_frame;
          charged_bytes = charged_bytes;
          records = r ∷ records;
        }
            ∷ []);
    bandwidth = sent t.bandwidth;
  }
    where
      sent : Option (Budget F) → Option (Budget F)
      sent none = none
      sent (some b) = if charged_bytes == 0 then some b else some (packet_sent d charged_bytes b)

  -- `charged_packet_bytes`.
  pub charged_packet_bytes : (overhead payload_bytes : ℕ) → ℕ
  charged_packet_bytes overhead payload_bytes =
      payload_bytes + (if options.enabled then overhead else 0)

  -- `ReplicationServer::send_packet` up to the call of the transport, with the id of the packet sent,
  -- if one is. `byte_size` is the size of the packet, whose id has a fixed width.
  pub send_packet :
      (has_transport : Bool) (overhead max_pending server_frame frame entity_count byte_size : ℕ)
      → List PacketAckRecord
      → AckTracker F
      → Option ℕ × AckTracker F
  unfolding allocate_packet_id track_packet_ack charged_packet_bytes
      enforce_pending_packet_ack_limit
  send_packet has_transport overhead max_pending server_frame frame entity_count byte_size records
        t =
      if not has_transport || entity_count == 0
      then (none, t)
      else let allocated = allocate_packet_id max_pending server_frame t in
        let charged_bytes = charged_packet_bytes overhead byte_size in
        let tracked = track_packet_ack allocated.0 frame charged_bytes records allocated.1 in
        (
          some allocated.0,
          enforce_pending_packet_ack_limit max_pending server_frame
              (record tracked { bandwidth = spent charged_bytes tracked.bandwidth }),
        )
    where
      spent : ℕ → Option (Budget F) → Option (Budget F)
      spent bytes none = none
      spent bytes (some b) = some (spend d bytes b)
