-- ===== src/Server/PacketAcks/Ids.antt =====
-- The invariant on the ids of the pending packets.
use ashiato_sync.Base.{
  ℕ, zero, suc, ◌+◌, ◌-◌, ◌^◌, ◌≤◌, ◌<◌, ◌≡◌, refl, sym, subst, Bool, not, ◌||◌, List, [], ◌∷◌,
  ◌++◌, ◌==◌, leb, if◌then◌else◌, length, drop, remove_if, arith, Bool-cases, inl, inr, length-drop,
}
use ashiato_sync.Protocol.{packet_id_mask, packet_id_bits_for_max_pending}
use ashiato_sync.Protocol.Widths.{packet_id_mask-ge, allocate_packet_id-range}
use ashiato_sync.Bandwidth.{Doubles, BandwidthOptions}
use ashiato_sync.Server.PacketAcks.{
  PacketAckRecord, PendingPacketAck, AckTracker, same_packet, allocate_packet_id,
  enforce_pending_packet_ack_limit, track_packet_ack, send_packet,
}

-- How many of the pending packets have an id.
unfoldable pub occurrences : ℕ → List PendingPacketAck → ℕ
occurrences packet_id [] = 0
occurrences packet_id (p ∷ ps) =
    (if p.packet_id == packet_id then 1 else 0) + occurrences packet_id ps

-- Each id is in 1 to `max_id`, and no two packets have the same.
abbrev pub Distinct : (max_id : ℕ) → List PendingPacketAck → Type 0
Distinct max_id ps =
    (id : ℕ) → (occurrences id ps ≤ 1) × (0 < occurrences id ps → (1 ≤ id) × (id ≤ max_id))

-- The largest id that `max_pending` allows.
abbrev pub max_packet_id : ℕ → ℕ
max_packet_id max_pending = packet_id_mask (packet_id_bits_for_max_pending max_pending)

unfoldable pub IsValid : {F : Type 0} → (max_pending : ℕ) → AckTracker F → Type 0
IsValid max_pending t =
    (length t.pending_packet_acks ≤ max_pending)
    × Distinct (max_packet_id max_pending) t.pending_packet_acks

occurrences-append :
    (id : ℕ) (ps qs : List PendingPacketAck)
    → occurrences id (ps ++ qs) ≡ occurrences id ps + occurrences id qs
unfolding occurrences
occurrences-append id [] qs = omega arith
occurrences-append id (p ∷ ps) qs = omega (arith, occurrences-append id ps qs)

occurrences-drop :
    (id n : ℕ) (ps : List PendingPacketAck) → occurrences id (drop n ps) ≤ occurrences id ps
unfolding occurrences
occurrences-drop id zero ps = omega arith
occurrences-drop id (suc n) [] = omega arith
occurrences-drop id (suc n) (p ∷ ps) = omega (arith, occurrences-drop id n ps)

occurrences-removed :
    (id q : ℕ) (ps : List PendingPacketAck)
    → occurrences id (remove_if (same_packet q) ps) ≡ (if id == q then 0 else occurrences id ps)
unfolding occurrences same_packet
occurrences-removed id q [] = ground arith
occurrences-removed id q (p ∷ ps) = let ih = occurrences-removed id q ps in ground arith

Distinct-drop :
    (max_id n : ℕ) (ps : List PendingPacketAck) → Distinct max_id ps → Distinct max_id (drop n ps)
Distinct-drop max_id n ps v id =
    let le = occurrences-drop id n ps in
    let (one, range) = v id in (omega arith, λ pos. range (omega arith))

Distinct-allocate :
    (max_id q : ℕ) (ps : List PendingPacketAck) (p : PendingPacketAck)
    → Distinct max_id ps
    → 1 ≤ q
    → q ≤ max_id
    → p.packet_id ≡ q
    → Distinct max_id (remove_if (same_packet q) ps ++ (p ∷ []))
unfolding occurrences
Distinct-allocate max_id q ps p v low high e id =
    let total = occurrences-append id (remove_if (same_packet q) ps) (p ∷ []) in
    let removed = occurrences-removed id q ps in
    let (one, range) = v id in
    elim (Bool-cases (id == q)) [
      | inl same ↦ (ground arith, λ pos. ground arith)
      | inr other ↦ (ground arith, λ pos. range (ground arith))
    ]

occurrences-removed-le :
    (id q : ℕ) (ps : List PendingPacketAck)
    → occurrences id (remove_if (same_packet q) ps) ≤ occurrences id ps
occurrences-removed-le id q ps = let removed = occurrences-removed id q ps in ground arith

Distinct-removed :
    (max_id q : ℕ) (ps : List PendingPacketAck)
    → Distinct max_id ps
    → Distinct max_id (remove_if (same_packet q) ps)
Distinct-removed max_id q ps v id =
    let le = occurrences-removed-le id q ps in
    let (one, range) = v id in (omega arith, λ pos. range (omega arith))

module _ {F : Type 0} (d : Doubles F) (options : BandwidthOptions F) where
  enforce-IsValid :
      (max_pending server_frame : ℕ) (t : AckTracker F)
      → Distinct (max_packet_id max_pending) t.pending_packet_acks
      → IsValid max_pending (enforce_pending_packet_ack_limit d options max_pending server_frame t)
  unfolding enforce_pending_packet_ack_limit IsValid
  enforce-IsValid max_pending server_frame t v =
      elim (Bool-cases (leb (length t.pending_packet_acks) max_pending)) [
        | inl fits ↦ rw fits (ground arith, v)
        | inr over ↦
            let n = length t.pending_packet_acks - max_pending in
            rw over (
              ground (arith, length-drop n t.pending_packet_acks),
              Distinct-drop _ n t.pending_packet_acks v,
            )
      ]

  tracked-Distinct :
      (max_id q sent_frame charged_bytes : ℕ) (records : List PacketAckRecord) (t : AckTracker F)
      (ps : List PendingPacketAck)
      → Distinct max_id ps
      → 1 ≤ q
      → q ≤ max_id
      → t.pending_packet_acks ≡ remove_if (same_packet q) ps
      → Distinct max_id
          ((track_packet_ack d options q sent_frame charged_bytes records t).pending_packet_acks)
  unfolding track_packet_ack
  tracked-Distinct max_id q sent_frame charged_bytes [] t ps v low high e =
      subst (Distinct max_id) (sym e) (Distinct-removed max_id q ps v)
  tracked-Distinct max_id q sent_frame charged_bytes (r ∷ records) t ps v low high e =
      let p : PendingPacketAck = record {
        packet_id = q;
        sent_frame = sent_frame;
        charged_bytes = charged_bytes;
        records = r ∷ records;
      } in
      subst (λ (qs : List PendingPacketAck). Distinct max_id (qs ++ (p ∷ []))) (sym e)
        (Distinct-allocate max_id q ps p v low high refl)

  -- With a limit of 1 to 2 ^ 32 - 1 pending packets: when the pending packets are within the limit,
  -- and their ids differ and are in 1 to the largest id, all that still holds after a packet is
  -- sent.
  pub send_packet-IsValid :
      (has_transport : Bool) (overhead max_pending server_frame frame entity_count byte_size : ℕ)
      (records : List PacketAckRecord) (t : AckTracker F)
      → 1 ≤ max_pending
      → max_pending < 2 ^ 32
      → IsValid max_pending t
      → IsValid max_pending (
          (send_packet d options has_transport overhead max_pending server_frame frame entity_count
            byte_size records t).1)
  unfolding send_packet allocate_packet_id IsValid
  send_packet-IsValid has_transport overhead max_pending server_frame frame entity_count byte_size
        records t one lt v =
      let (enough, _) = packet_id_mask-ge max_pending one lt in
      let (low, high, _, _) =
        allocate_packet_id-range (max_packet_id max_pending) t.next_packet_id (omega arith) in
      elim (Bool-cases (not has_transport || entity_count == 0)) [
        | inl idle ↦ rw idle v
        | inr busy ↦ rw busy (
            enforce-IsValid max_pending server_frame _
              (tracked-Distinct _ _ frame _ records _ t.pending_packet_acks v.1 low high refl))
      ]
