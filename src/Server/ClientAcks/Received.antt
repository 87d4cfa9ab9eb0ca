-- ===== src/Server/ClientAcks/Received.antt =====
-- Reading at the server the packets of acknowledgements that the client makes.
use ashiato_sync.Base.{
  ℕ, ◌≤◌, ◌<◌, ◌^◌, ◌≡◌, refl, ap, Bool, true, ◌&&◌, some, List, [], if◌then◌else◌, ◌∷◌, length,
  All, arith,
}
use ashiato_sync.Bandwidth.{Doubles, BandwidthOptions}
use ashiato_sync.Wire.{BitSource, BitSink, IsBitBuffer, read_bits}
use ashiato_sync.Wire.Varints.{read_bits-Reads}
use ashiato_sync.Client.AckQueue.{PacketBuilder, ack_count_bits, message_bits, client_ack_message}
use ashiato_sync.Client.AckQueue.Packets.{IsPacketBuilder, codes, Carries}
use ashiato_sync.Server.PacketAcks.{AckTracker, RecordSink, acknowledge_packet, cleanup_packet_acks}
use ashiato_sync.Server.ClientAcks.{
  ClientUpdateAckResult, process_acks, process_client_acks_from_packet,
}

module _ {B F S : Type 0} {source : BitSource B} {bits : BitSink B} (w : IsBitBuffer source bits)
    {builder : PacketBuilder B} (laws : IsPacketBuilder w builder) (d : Doubles F)
    (options : BandwidthOptions F) (sink : RecordSink S) (server_frame packet_id_bits : ℕ) where
  -- The acknowledgements of a list, one after the other.
  pub acknowledge_all : List ℕ → Bool → AckTracker F → S → Bool × AckTracker F × S
  acknowledge_all [] all_acknowledged t server = (all_acknowledged, t, server)
  acknowledge_all (packet_id ∷ acks) all_acknowledged t server =
      let result = acknowledge_packet d options sink server_frame packet_id t server in
      acknowledge_all acks (result.0 && all_acknowledged) result.1 result.2

  -- An id that a packet has room for.
  abbrev pub Fits : ℕ → Type 0
  Fits packet_id = packet_id < 2 ^ packet_id_bits

  process_acks_lem :
      (acks : List ℕ) (packet : B) (all_acknowledged : Bool) (t : AckTracker F) (server : S)
      → 1 ≤ packet_id_bits
      → packet_id_bits ≤ 32
      → All Fits acks
      → w.unread packet ≡ codes w laws packet_id_bits acks
      → process_acks source d options sink server_frame packet_id_bits
          (length acks)
          packet
          all_acknowledged
          t
          server
        ≡ (
          record {
            packet_valid = true;
            all_acknowledged = (acknowledge_all acks all_acknowledged t server).0;
          },
          (acknowledge_all acks all_acknowledged t server).1,
          (acknowledge_all acks all_acknowledged t server).2,
        )
  unfolding process_acks acknowledge_all
  process_acks_lem [] packet all_acknowledged t server pos fits small e = refl
  process_acks_lem (packet_id ∷ acks) packet all_acknowledged t server pos fits small e =
      let (rest, read, left) =
        read_bits-Reads w 32 packet_id_bits packet_id (codes w laws packet_id_bits acks) packet pos
          fits small.0 e in
      let result = acknowledge_packet d options sink server_frame packet_id t server in
      rw (read, process_acks)
        (process_acks_lem acks rest (result.0 && all_acknowledged) result.1 result.2 pos fits
          small.1 left)

  -- What the server makes of the acknowledgements of a packet: each is applied, in order, and then
  -- what is no longer pending is dropped.
  abbrev pub applied : List ℕ → AckTracker F → S → ClientUpdateAckResult × AckTracker F × S
  applied acks t server =
      let result = acknowledge_all acks true t server in
      (
        record { packet_valid = true; all_acknowledged = result.0 },
        cleanup_packet_acks d options sink result.2 server_frame result.1,
        result.2,
      )

  -- With a buffer that keeps its promises and packet ids of 1 to 32 bits, a packet that carries
  -- acknowledgements, as the client's queue makes it, starts with the message for acknowledgements;
  -- behind it, the server finds the packet valid, acknowledges exactly the ids that were put in, in
  -- order, and then drops the packets of which nothing is pending.
  pub process_client_acks_from_packet-Carries :
      (mtu_bytes : ℕ) (acks : List ℕ) (packet : B) (t : AckTracker F) (server : S)
      → 1 ≤ packet_id_bits
      → packet_id_bits ≤ 32
      → All Fits acks
      → Carries w laws packet_id_bits mtu_bytes packet acks
      → (rest : B) × (read_bits source 8 message_bits packet ≡ some (client_ack_message, rest))
        × (process_client_acks_from_packet source d options sink server_frame packet_id_bits rest t
              server
            ≡ applied acks t server)
  unfolding process_client_acks_from_packet
  process_client_acks_from_packet-Carries mtu_bytes acks packet t server pos fits small carries =
      let (bits_there, some_acks, few, short) = carries in
      let (rest, message, left) =
        read_bits-Reads w 8 message_bits client_ack_message _ packet (omega arith) (omega arith)
          (omega arith) bits_there in
      let (behind, count, ids) =
        read_bits-Reads w 16 ack_count_bits (length acks) (codes w laws packet_id_bits acks) rest
          (omega arith) (omega arith) (omega arith) left in
      (
        rest,
        message,
        rw (count, process_client_acks_from_packet)
            (ap
              (λ (r : ClientUpdateAckResult × AckTracker F × S).
                if r.0.packet_valid
                then (r.0, cleanup_packet_acks d options sink r.2 server_frame r.1, r.2)
                else r)
              (process_acks_lem acks behind true t server pos fits small ids)),
      )
