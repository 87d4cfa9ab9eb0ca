-- ===== src/Server/PacketAcks/Flight.antt =====
-- The bytes in flight of an adaptive budget, against the bytes of the pending packets.
use ashiato_sync.Base.{
  ℕ, ◌+◌, ◌-◌, ◌<◌, ◌≤◌, not, ◌||◌, ◌^◌, ◌≡◌, refl, sym, ap, ◌∙◌, Bool, true, List, [], ◌∷◌, ◌++◌,
  Option, some, ◌==◌, leb, if◌then◌else◌, length, take, drop, find, erase_first, remove_if, arith,
  Bool-cases, Option-cases, inl, inr, take-append-drop, ==→eq,
}
use ashiato_sync.Bandwidth.{Doubles, BandwidthOptions, Budget, packet_acked, packet_lost, spend}
use ashiato_sync.Bandwidth.Flight.{
  packet_sent-in_flight, packet_acked-in_flight, packet_lost-in_flight, spend-in_flight,
}
use ashiato_sync.Server.PacketAcks.{
  PacketAckRecord, PendingPacketAck, RecordSink, AckTracker, same_packet, charge_lost, lose_if,
  acknowledge_packet, cleanup_packet_acks, allocate_packet_id, enforce_pending_packet_ack_limit,
  track_packet_ack, send_packet, charged_packet_bytes,
}

unfoldable pub charged : List PendingPacketAck → ℕ
charged [] = 0
charged (p ∷ pending) = p.charged_bytes + charged pending

charged-append : (ps qs : List PendingPacketAck) → charged (ps ++ qs) ≡ charged ps + charged qs
unfolding charged
charged-append [] qs = omega arith
charged-append (p ∷ ps) qs = omega (arith, charged-append ps qs)

module _ {F : Type 0} where
  -- The budget is there, and has in flight what the packets charge beside `extra` bytes more.
  abbrev Owes : Option (Budget F) → ℕ → Type 0
  Owes bandwidth bytes = (b : Budget F) × (bandwidth ≡ some b) × (b.in_flight_bytes ≡ bytes)

  -- The client has a budget, whose bytes in flight are those of the pending packets.
  unfoldable pub IsAccounted : AckTracker F → Type 0
  IsAccounted t = Owes t.bandwidth (charged t.pending_packet_acks)

module _ {F : Type 0} (d : Doubles F) (options : BandwidthOptions F) where
  packet_lost-Owes :
      options.enabled ≡ true
      → (frame : ℕ) (p : PendingPacketAck) (bandwidth : Option (Budget F)) (rest : ℕ)
      → Owes bandwidth (p.charged_bytes + rest)
      → Owes (charge_lost d options frame p bandwidth) rest
  unfolding charge_lost
  packet_lost-Owes enabled frame p bandwidth rest (b, e, flight) = (
    packet_lost d options frame p.charged_bytes b,
    rw e (
        ap (λ on. if on then some (packet_lost d options frame p.charged_bytes b) else some b)
          enabled),
    packet_lost-in_flight d options frame p.charged_bytes rest b flight,
  )

  lose_if-Owes :
      options.enabled ≡ true
      → (lost : PendingPacketAck → Bool)
      → (frame : ℕ) (ps : List PendingPacketAck) (bandwidth : Option (Budget F)) (rest : ℕ)
      → Owes bandwidth (charged ps + rest)
      → Owes (lose_if d options lost frame ps bandwidth) (charged (remove_if lost ps) + rest)
  unfolding lose_if charged
  lose_if-Owes enabled lost frame [] bandwidth rest o = o
  lose_if-Owes enabled lost frame (p ∷ ps) bandwidth rest (b, e, flight) =
      elim (Bool-cases (lost p)) [
        | inl hit ↦ rw hit (
            lose_if-Owes enabled lost frame ps _ rest
              (packet_lost-Owes enabled frame p bandwidth (charged ps + rest) (b, e, omega arith)))
        | inr kept ↦
            let (c, e2, flight2) =
              lose_if-Owes enabled lost frame ps bandwidth (p.charged_bytes + rest)
                (b, e, omega arith) in
            rw kept (c, e2, omega arith)
      ]

  -- With an adaptive budget whose bytes in flight are those of the pending packets, they still are
  -- after the packets are dropped of which no record is pending any more.
  pub cleanup_packet_acks-IsAccounted :
      {S : Type 0}
      → options.enabled ≡ true
      → (sink : RecordSink S) (server : S) (server_frame : ℕ) (t : AckTracker F) → IsAccounted t
      → IsAccounted (cleanup_packet_acks d options sink server server_frame t)
  unfolding cleanup_packet_acks IsAccounted
  cleanup_packet_acks-IsAccounted enabled sink server server_frame t (b, e, flight) =
      let (c, e2, flight2) =
        lose_if-Owes enabled _ server_frame t.pending_packet_acks t.bandwidth 0
          (b, e, omega arith) in
      (c, e2, omega arith)

  -- With an adaptive budget whose bytes in flight are those of the pending packets, they still are
  -- after a packet id is allocated, which drops the packets that had the id.
  pub allocate_packet_id-IsAccounted :
      options.enabled ≡ true
      → (max_pending server_frame : ℕ) (t : AckTracker F) → IsAccounted t
      → IsAccounted ((allocate_packet_id d options max_pending server_frame t).1)
  unfolding allocate_packet_id IsAccounted
  allocate_packet_id-IsAccounted enabled max_pending server_frame t (b, e, flight) =
      let (c, e2, flight2) =
        lose_if-Owes enabled _ server_frame t.pending_packet_acks t.bandwidth 0
          (b, e, omega arith) in
      (c, e2, omega arith)

  remove_all : (ps : List PendingPacketAck) → charged (remove_if (λ p. true) ps) ≡ 0
  unfolding charged
  remove_all [] = refl
  remove_all (p ∷ ps) = remove_all ps

  -- With an adaptive budget whose bytes in flight are those of the pending packets, they still are
  -- after the oldest packets beyond the limit are dropped.
  pub enforce_pending_packet_ack_limit-IsAccounted :
      options.enabled ≡ true
      → (max_pending server_frame : ℕ) (t : AckTracker F) → IsAccounted t
      → IsAccounted (enforce_pending_packet_ack_limit d options max_pending server_frame t)
  unfolding enforce_pending_packet_ack_limit IsAccounted
  enforce_pending_packet_ack_limit-IsAccounted enabled max_pending server_frame t (b, e, flight) =
      elim (Bool-cases (leb (length t.pending_packet_acks) max_pending)) [
        | inl fits ↦ rw fits (b, e, flight)
        | inr over ↦
            let n = length t.pending_packet_acks - max_pending in
            let split : charged (take n t.pending_packet_acks)
                  + charged (drop n t.pending_packet_acks)
                ≡ charged t.pending_packet_acks =
              sym (charged-append (take n t.pending_packet_acks) (drop n t.pending_packet_acks))
              ∙ ap charged (take-append-drop n t.pending_packet_acks) in
            let (c, e2, flight2) =
              lose_if-Owes enabled (λ p. true) server_frame (take n t.pending_packet_acks)
                t.bandwidth (charged (drop n t.pending_packet_acks)) (b, e, omega arith) in
            rw over (c, e2, omega (arith, remove_all (take n t.pending_packet_acks)))
      ]

  -- When a budget's bytes in flight are those of the pending packets, and with the new packet's
  -- they fit 64 bits, they still are after the packet is tracked, whether or not it has records to
  -- acknowledge.
  pub track_packet_ack-IsAccounted :
      (packet_id sent_frame charged_bytes : ℕ) (records : List PacketAckRecord) (t : AckTracker F)
      → charged t.pending_packet_acks + charged_bytes < 2 ^ 64
      → IsAccounted t
      → IsAccounted (track_packet_ack d options packet_id sent_frame charged_bytes records t)
  unfolding track_packet_ack IsAccounted charged
  track_packet_ack-IsAccounted packet_id sent_frame charged_bytes [] t lt o = o
  track_packet_ack-IsAccounted packet_id sent_frame charged_bytes (r ∷ records) t lt
        (b, e, flight) =
      let total = charged-append t.pending_packet_acks (
        record {
          packet_id = packet_id;
          sent_frame = sent_frame;
          charged_bytes = charged_bytes;
          records = r ∷ records;
        }
        ∷ []) in
      elim (Bool-cases (charged_bytes == 0)) [
        | inl free ↦ rw (e, free) (b, refl, omega (arith, ==→eq charged_bytes 0 free))
        | inr paid ↦
            let sent = packet_sent-in_flight d charged_bytes _ b flight lt in
            rw (e, paid) (_, refl, omega arith)
      ]

  charged-erase_first :
      (packet_id : ℕ) (ps : List PendingPacketAck) (found : PendingPacketAck)
      → find (same_packet packet_id) ps ≡ some found
      → charged ps ≡ found.charged_bytes + charged (erase_first (same_packet packet_id) ps)
  unfolding charged
  charged-erase_first packet_id [] found h = absurd (cc)
  charged-erase_first packet_id (p ∷ ps) found h = elim (Bool-cases (same_packet packet_id p)) [
    | inl hit ↦ let this : p ≡ found = cc (rw hit at h) in rw (hit, ← this) refl
    | inr miss ↦
        let ih = charged-erase_first packet_id ps found (cc (rw miss at h)) in rw miss (omega arith)
  ]

  -- With an adaptive budget whose bytes in flight are those of the pending packets, they still are
  -- after an acknowledgement arrives, whether or not its packet was pending.
  pub acknowledge_packet-IsAccounted :
      {S : Type 0}
      → options.enabled ≡ true
      → (sink : RecordSink S) (server_frame packet_id : ℕ) (t : AckTracker F) (server : S)
      → IsAccounted t
      → IsAccounted ((acknowledge_packet d options sink server_frame packet_id t server).1)
  unfolding acknowledge_packet IsAccounted
  acknowledge_packet-IsAccounted enabled sink server_frame packet_id t server (b, e, flight) =
      elim (Option-cases (find (same_packet packet_id) t.pending_packet_acks)) [
        | inl absent ↦ rw (absent, acknowledge_packet) (b, e, flight)
        | inr (found, hit) ↦
            let acked =
              packet_acked-in_flight d options found.sent_frame server_frame found.charged_bytes _ b
                (flight ∙ charged-erase_first packet_id t.pending_packet_acks found hit) in
            let arrived =
              packet_acked d options found.sent_frame server_frame found.charged_bytes b in
            rw (hit, e, acknowledge_packet)
              (arrived, ap (λ on. if on then some arrived else some b) enabled, acked)
      ]

charged-remove_if :
    (lost : PendingPacketAck → Bool) (ps : List PendingPacketAck)
    → charged (remove_if lost ps) ≤ charged ps
unfolding charged
charged-remove_if lost [] = omega arith
charged-remove_if lost (p ∷ ps) = ground (arith, charged-remove_if lost ps)

module _ {F : Type 0} (d : Doubles F) (options : BandwidthOptions F) where
  -- With an adaptive budget whose bytes in flight are those of the pending packets, and room in 64
  -- bits for the bytes of one more, they still are after a packet is sent: its id may take the place
  -- of a packet that is still pending, and the oldest packets are dropped when there are too many.
  pub send_packet-IsAccounted :
      (has_transport : Bool) (overhead max_pending server_frame frame entity_count byte_size : ℕ)
      (records : List PacketAckRecord) (t : AckTracker F)
      → options.enabled ≡ true
      → charged t.pending_packet_acks + charged_packet_bytes d options overhead byte_size < 2 ^ 64
      → IsAccounted t
      → IsAccounted (
          (send_packet d options has_transport overhead max_pending server_frame frame entity_count
            byte_size records t).1)
  unfolding send_packet allocate_packet_id IsAccounted
  send_packet-IsAccounted has_transport overhead max_pending server_frame frame entity_count
        byte_size records t on room v =
      elim (Bool-cases (not has_transport || entity_count == 0)) [
        | inl idle ↦ rw (idle, send_packet) v
        | inr sent ↦
            let allocated = allocate_packet_id d options max_pending server_frame t in
            let bytes = charged_packet_bytes d options overhead byte_size in
            let tracked = track_packet_ack d options allocated.0 frame bytes records allocated.1 in
            let (b, there, flight) =
              track_packet_ack-IsAccounted d options allocated.0 frame bytes records allocated.1
                (omega (arith, charged-remove_if (same_packet allocated.0) t.pending_packet_acks))
                (allocate_packet_id-IsAccounted d options on max_pending server_frame t v) in
            rw (sent, send_packet)
              (enforce_pending_packet_ack_limit-IsAccounted d options on max_pending server_frame _
                (rw (there, send_packet)
                  (spend d bytes b, refl, spend-in_flight d bytes b ∙ flight)))
      ]
