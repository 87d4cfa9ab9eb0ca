-- ===== src/Client/AckQueue/Packets.antt =====
-- The packets that the queue is drained into.
use native.Mathlib.Nat.{mul-le-mul_right, mod-add-div', mod-lt, suc-mul}
use ashiato_sync.Base.{
  ℕ, zero, suc, ◌+◌, ◌*◌, ◌/◌, ◌%◌, ◌^◌, ◌-◌, ◌≤◌, ◌<◌, ◌≡◌, ◌≢◌, refl, sym, ap, ap₂, subst, ◌∙◌,
  min, Bool, false, List, [], ◌∷◌, ◌++◌, append-nil, append_assoc, ltb, ◌==◌, length, concat,
  concat-append_end, length-append, arith, Bool-cases, inl, inr, ==→eq, ==_false→ne, ne→==_false,
}
use ashiato_sync.Capacity.{sub64}
use ashiato_sync.Protocol.{bytes_for_bits}
use ashiato_sync.Wire.{BitSource, BitSink, IsBitBuffer}
use ashiato_sync.Client.AckQueue.{
  PacketBuilder, Drained, AckWriter, message_bits, client_ack_message, ack_count_bits,
  max_ack_count, client_ack_header_bits, one_ack_bytes, max_acks_per_packet, begin_packet,
  finish_packet, write_ack, make_room, write_acks, drain_ack_packets,
}

min_le_right : (a b : ℕ) → min a b ≤ b
min_le_right a b = omega arith

-- What building a packet relies on: the empty buffer has no bits, the size counts them, and a field
-- is written over in its place.
pub record IsPacketBuilder {B : Type 0} {source : BitSource B} {sink : BitSink B}
    (w : IsBitBuffer source sink) (builder : PacketBuilder B) : Type 0 where
  pub cleared_unread : w.unread builder.cleared ≡ []
  pub bit_size_unread : (b : B) → builder.bit_size b ≡ length (w.unread b)
  pub overwrite_unread :
      (front rest : List Bool) (before value bits : ℕ) (b : B)
      → w.unread b ≡ front ++ (w.code bits before ++ rest)
      → w.unread (builder.overwrite_unsigned_bits (length front) value bits b)
        ≡ front ++ (w.code bits value ++ rest)

module _ {B : Type 0} {source : BitSource B} {sink : BitSink B} (w : IsBitBuffer source sink)
    {builder : PacketBuilder B} (laws : IsPacketBuilder w builder) (packet_id_bits : ℕ) where
  -- The bits of packet ids.
  abbrev pub codes : List ℕ → List Bool
  codes [] = []
  codes (packet_id ∷ acks) = w.code packet_id_bits packet_id ++ codes acks

  -- The bits of a packet with a count and acknowledgements.
  abbrev pub packet_code : (count : ℕ) → List ℕ → List Bool
  packet_code count acks =
      w.code message_bits client_ack_message ++ (w.code ack_count_bits count ++ codes acks)

  codes-append : (xs ys : List ℕ) → codes (xs ++ ys) ≡ codes xs ++ codes ys
  codes-append [] ys = refl
  codes-append (x ∷ xs) ys =
      ap (λ r. w.code packet_id_bits x ++ r) (codes-append xs ys)
      ∙ sym (append_assoc (w.code packet_id_bits x) (codes xs) (codes ys))

  length-codes : (acks : List ℕ) → length (codes acks) ≡ length acks * packet_id_bits
  length-codes [] = omega arith
  length-codes (x ∷ acks) = omega (
    arith,
    length-append (w.code packet_id_bits x) (codes acks),
    w.code_length packet_id_bits x,
    length-codes acks,
  )

  length-packet_code :
      (count : ℕ) (acks : List ℕ)
      → length (packet_code count acks) ≡ client_ack_header_bits + length acks * packet_id_bits
  length-packet_code count acks = omega (
    arith,
    length-append (w.code message_bits client_ack_message)
        (w.code ack_count_bits count ++ codes acks),
    length-append (w.code ack_count_bits count) (codes acks),
    w.code_length message_bits client_ack_message,
    w.code_length ack_count_bits count,
    length-codes acks,
  )

  -- A packet carries some acknowledgements, at most as many as its
  -- count can say, and it fits the MTU.
  abbrev pub Carries : (mtu_bytes : ℕ) → B → List ℕ → Type 0
  Carries mtu_bytes packet acks =
      (w.unread packet ≡ packet_code (length acks) acks)
      × (1 ≤ length acks)
      × (length acks ≤ max_ack_count)
      × (bytes_for_bits (length (w.unread packet)) ≤ mtu_bytes)

  -- Each packet carries the acknowledgements of its trace.
  abbrev pub AllCarry : (mtu_bytes : ℕ) → List B → List (List ℕ) → Type 0
  AllCarry mtu_bytes [] [] = Unit
  AllCarry mtu_bytes [] (acks ∷ traces) = ⊥
  AllCarry mtu_bytes (packet ∷ packets) [] = ⊥
  AllCarry mtu_bytes (packet ∷ packets) (acks ∷ traces) =
      Carries mtu_bytes packet acks × AllCarry mtu_bytes packets traces

  AllCarry-append_end :
      (mtu_bytes : ℕ) (packets : List B) (traces : List (List ℕ)) (packet : B) (acks : List ℕ)
      → AllCarry mtu_bytes packets traces
      → Carries mtu_bytes packet acks
      → AllCarry mtu_bytes (packets ++ (packet ∷ [])) (traces ++ (acks ∷ []))
  AllCarry-append_end mtu_bytes [] [] packet acks all one = (one, tt)
  AllCarry-append_end mtu_bytes [] (t ∷ traces) packet acks all one = absurd all
  AllCarry-append_end mtu_bytes (p ∷ packets) [] packet acks all one = absurd all
  AllCarry-append_end mtu_bytes (p ∷ packets) (t ∷ traces) packet acks all one =
      (all.0, AllCarry-append_end mtu_bytes packets traces packet acks all.1 one)

  -- The packets and traces were extended by packets that carry what was sent.
  pub record Extended (mtu_bytes : ℕ) (packets : List B) (traces : List (List ℕ)) (sent : List ℕ)
      (packets_after : List B) (traces_after : List (List ℕ)) : Type 0 where
    pub new_packets : List B
    pub new_traces : List (List ℕ)
    pub packets_end : packets_after ≡ packets ++ new_packets
    pub traces_end : traces_after ≡ traces ++ new_traces
    pub sent_all : concat new_traces ≡ sent
    pub carried : AllCarry mtu_bytes new_packets new_traces

  -- A packet is being written.
  record Open (max_acks : ℕ) (st : AckWriter B) : Type 0 where
    bits : w.unread st.packet ≡ packet_code 0 st.acks
    offset : st.packet_count_offset ≡ message_bits
    counted : st.packet_ack_count ≡ length st.acks
    bounded : length st.acks ≤ max_acks

  begin_packet-Open :
      (max_acks : ℕ) (st : AckWriter B) → Open max_acks (begin_packet sink builder st)
  unfolding begin_packet
  begin_packet-Open max_acks st =
      let message : B = sink.write_unsigned_bits client_ack_message message_bits builder.cleared in
      let header : w.unread message ≡ w.code message_bits client_ack_message =
        w.write_bits_unread client_ack_message message_bits builder.cleared
        ∙ ap (λ (r : List Bool). r ++ w.code message_bits client_ack_message) laws.cleared_unread in
      record {
        bits =
            w.write_bits_unread 0 ack_count_bits message
            ∙ ap (λ (r : List Bool). r ++ w.code ack_count_bits 0) header
            ∙ ap (λ (r : List Bool). w.code message_bits client_ack_message ++ r)
                (sym (append-nil (w.code ack_count_bits 0)));
        offset =
            laws.bit_size_unread message
            ∙ ap (λ (r : List Bool). length r) header
            ∙ w.code_length message_bits client_ack_message;
        counted = refl;
        bounded = omega arith;
      }

  write_ack-Open :
      (max_acks packet_id : ℕ) (st : AckWriter B)
      → max_acks < 2 ^ 16
      → Open max_acks st
      → length st.acks < max_acks
      → Open max_acks (write_ack sink builder packet_id_bits packet_id st)
  unfolding write_ack
  write_ack-Open max_acks packet_id st small o room =
      let count = length-append st.acks (packet_id ∷ []) in
      record {
        bits =
            w.write_bits_unread packet_id packet_id_bits st.packet
            ∙ ap (λ (r : List Bool). r ++ w.code packet_id_bits packet_id) o.bits
            ∙ append_assoc (w.code message_bits client_ack_message)
                (w.code ack_count_bits 0 ++ codes st.acks) (w.code packet_id_bits packet_id)
            ∙ ap (λ (r : List Bool). w.code message_bits client_ack_message ++ r)
                (append_assoc (w.code ack_count_bits 0) (codes st.acks)
                    (w.code packet_id_bits packet_id)
                  ∙ ap (λ (r : List Bool). w.code ack_count_bits 0 ++ r)
                      (ap (λ (r : List Bool). codes st.acks ++ r)
                          (sym (append-nil (w.code packet_id_bits packet_id)))
                        ∙ sym (codes-append st.acks (packet_id ∷ []))));
        offset = o.offset;
        counted = omega (arith, o.counted, count);
        bounded = omega (arith, count);
      }

  -- The packet that is finished carries its acknowledgements.
  finish_packet-Extended :
      (mtu_bytes max_acks : ℕ) (packets : List B) (traces : List (List ℕ)) (sent : List ℕ)
      (st : AckWriter B)
      → client_ack_header_bits + max_acks * packet_id_bits ≤ mtu_bytes * 8
      → max_acks ≤ max_ack_count
      → Open max_acks st
      → 1 ≤ length st.acks
      → Extended mtu_bytes packets traces sent st.packets st.traces
      → Extended mtu_bytes packets traces
          (sent ++ st.acks)
          (finish_packet sink builder st).packets
          (finish_packet sink builder st).traces
  unfolding finish_packet bytes_for_bits
  finish_packet-Extended mtu_bytes max_acks packets traces sent st fits few o some_acks e =
      let packet : B =
        builder.overwrite_unsigned_bits st.packet_count_offset st.packet_ack_count ack_count_bits
          st.packet in
      let nonempty : (st.packet_ack_count == 0) ≡ false =
        ne→==_false st.packet_ack_count 0 (λ q. absurd (omega (arith, o.counted))) in
      let front = w.code message_bits client_ack_message in
      let bits : w.unread packet ≡ packet_code (length st.acks) st.acks =
        ap₂ (λ n m. w.unread (builder.overwrite_unsigned_bits n m ack_count_bits st.packet))
          (o.offset ∙ sym (w.code_length message_bits client_ack_message)) o.counted
        ∙ laws.overwrite_unread front (codes st.acks) 0 (length st.acks) ack_count_bits st.packet
            o.bits in
      let total = length-packet_code (length st.acks) st.acks in
      let whole : bytes_for_bits (length (w.unread packet)) ≤ mtu_bytes =
        subst (λ (r : List Bool). bytes_for_bits (length r) ≤ mtu_bytes) (sym bits)
          (omega (arith, total, mul-le-mul_right packet_id_bits o.bounded)) in
      rw (nonempty, finish_packet)
        record {
          new_packets = e.new_packets ++ (packet ∷ []);
          new_traces = e.new_traces ++ (st.acks ∷ []);
          packets_end =
              ap (λ (r : List B). r ++ (packet ∷ [])) e.packets_end
              ∙ append_assoc packets e.new_packets (packet ∷ []);
          traces_end =
              ap (λ (r : List (List ℕ)). r ++ (st.acks ∷ [])) e.traces_end
              ∙ append_assoc traces e.new_traces (st.acks ∷ []);
          sent_all =
              concat-append_end e.new_traces st.acks ∙ ap (λ (r : List ℕ). r ++ st.acks) e.sent_all;
          carried =
              AllCarry-append_end mtu_bytes e.new_packets e.new_traces packet st.acks e.carried
                (bits, some_acks, omega (arith, o.bounded), whole);
        }

  -- While the queue is drained: what was sent and what the open packet has are the acknowledgements
  -- so far.
  record Progress (mtu_bytes max_acks : ℕ) (packets : List B) (traces : List (List ℕ))
      (done : List ℕ) (st : AckWriter B) : Type 0 where
    sent : List ℕ
    extended : Extended mtu_bytes packets traces sent st.packets st.traces
    current : Open max_acks st
    so_far : sent ++ st.acks ≡ done

  module _ (mtu_bytes max_acks : ℕ) (packets : List B) (traces : List (List ℕ))
      (fits : client_ack_header_bits + max_acks * packet_id_bits ≤ mtu_bytes * 8)
      (few : max_acks ≤ max_ack_count) (some_room : 1 ≤ max_acks) where
    make_room-Progress :
        (done : List ℕ) (st : AckWriter B)
        → Progress mtu_bytes max_acks packets traces done st
        → Progress mtu_bytes max_acks packets traces done (make_room sink builder max_acks st)
          × (length (make_room sink builder max_acks st).acks < max_acks)
    unfolding make_room begin_packet
    make_room-Progress done st p = elim (Bool-cases (st.packet_ack_count == max_acks)) [
      | inr room ↦
          let ne = ==_false→ne st.packet_ack_count max_acks room in
          rw (room, make_room) (p, omega (arith, p.current.bounded, p.current.counted))
      | inl full ↦
          let e = ==→eq st.packet_ack_count max_acks full in
          let finished =
            finish_packet-Extended mtu_bytes max_acks packets traces p.sent st fits few p.current
              (omega (arith, p.current.counted)) p.extended in
          rw (full, make_room)
            (
              record {
                sent = p.sent ++ st.acks;
                extended = finished;
                current = begin_packet-Open max_acks (finish_packet sink builder st);
                so_far = append-nil (p.sent ++ st.acks) ∙ p.so_far;
              },
              omega arith,
            )
    ]

    write_acks-Progress :
        (pending done : List ℕ) (st : AckWriter B)
        → Progress mtu_bytes max_acks packets traces done st
        → Progress mtu_bytes max_acks packets traces
            (done ++ pending)
            (write_acks sink builder max_acks packet_id_bits pending st)
    unfolding write_acks write_ack
    write_acks-Progress [] done st p =
        subst (λ (r : List ℕ). Progress mtu_bytes max_acks packets traces r st)
          (sym (append-nil done)) p
    write_acks-Progress (packet_id ∷ pending) done st p =
        let (room, less) = make_room-Progress done st p in
        let roomy : AckWriter B = make_room sink builder max_acks st in
        subst
          (λ (r : List ℕ).
            Progress mtu_bytes max_acks packets traces r
              (write_acks sink builder max_acks packet_id_bits (packet_id ∷ pending) st))
          (append_assoc done (packet_id ∷ []) pending)
          (write_acks-Progress pending (done ++ (packet_id ∷ []))
            (write_ack sink builder packet_id_bits packet_id roomy)
            record {
              sent = room.sent;
              extended = room.extended;
              current = write_ack-Open max_acks packet_id roomy (omega arith) room.current less;
              so_far =
                  sym (append_assoc room.sent roomy.acks (packet_id ∷ []))
                  ∙ ap (λ (r : List ℕ). r ++ (packet_id ∷ [])) room.so_far;
            })

  one_fits : (most : ℕ) → 1 * packet_id_bits < suc most * packet_id_bits → 1 ≤ most
  one_fits zero lt = absurd (omega arith)
  one_fits (suc most) lt = omega arith

  max_acks-fits :
      (mtu_bytes : ℕ)
      → 1 ≤ packet_id_bits
      → mtu_bytes * 8 < 2 ^ 64
      → one_ack_bytes packet_id_bits ≤ mtu_bytes
      → (client_ack_header_bits + max_acks_per_packet mtu_bytes packet_id_bits * packet_id_bits
          ≤ mtu_bytes * 8)
        × (1 ≤ max_acks_per_packet mtu_bytes packet_id_bits)
  unfolding one_ack_bytes max_acks_per_packet bytes_for_bits
  max_acks-fits mtu_bytes pos small room =
      let space = sub64 (mtu_bytes * 8 % 2 ^ 64) client_ack_header_bits in
      let most = space / packet_id_bits in
      let exact : space ≡ mtu_bytes * 8 - 8 = omega arith in
      let split : space % packet_id_bits + most * packet_id_bits ≡ space =
        mod-add-div' space packet_id_bits in
      let below : space % packet_id_bits < packet_id_bits = mod-lt space (omega arith) in
      let within : min max_ack_count most * packet_id_bits ≤ most * packet_id_bits =
        mul-le-mul_right packet_id_bits (min_le_right max_ack_count most) in
      let one : 1 ≤ most = one_fits most (omega (arith, suc-mul most packet_id_bits)) in
      (omega arith, omega arith)

  no_elements : (acks : List ℕ) → length acks ≡ 0 → acks ≡ []
  no_elements [] e = refl
  no_elements (x ∷ acks) e = absurd (omega arith)

  few_acks : (mtu_bytes : ℕ) → max_acks_per_packet mtu_bytes packet_id_bits ≤ max_ack_count
  unfolding max_acks_per_packet
  few_acks mtu_bytes = omega arith

  -- The writer before the first packet.
  abbrev start : List B → List (List ℕ) → AckWriter B
  start packets traces = record {
    packet = builder.cleared;
    packet_count_offset = 0;
    packet_ack_count = 0;
    acks = [];
    packets = packets;
    traces = traces;
  }

  -- The open packet has an acknowledgement when one was written.
  write_acks-some :
      (max_acks packet_id : ℕ) (pending : List ℕ) (st : AckWriter B)
      → 1 ≤ length (write_acks sink builder max_acks packet_id_bits (packet_id ∷ pending) st).acks
  unfolding write_acks write_ack
  write_acks-some max_acks packet_id [] st =
      omega (arith, length-append (make_room sink builder max_acks st).acks (packet_id ∷ []))
  write_acks-some max_acks packet_id (next ∷ pending) st =
      write_acks-some max_acks next pending
        (write_ack sink builder packet_id_bits packet_id (make_room sink builder max_acks st))

  write_acks-Extended :
      (mtu_bytes max_acks : ℕ) (packets : List B) (traces : List (List ℕ))
      → client_ack_header_bits + max_acks * packet_id_bits ≤ mtu_bytes * 8
      → max_acks ≤ max_ack_count
      → 1 ≤ max_acks
      → (pending : List ℕ) → length pending ≢ 0
      → let done = finish_packet sink builder (
          write_acks sink builder max_acks packet_id_bits pending
            (begin_packet sink builder (start packets traces))) in
        Extended mtu_bytes packets traces pending done.packets done.traces
  unfolding begin_packet
  write_acks-Extended mtu_bytes max_acks packets traces fits few some_room [] ne = absurd (ne refl)
  write_acks-Extended mtu_bytes max_acks packets traces fits few some_room (packet_id ∷ pending)
        ne =
      let begun : AckWriter B = begin_packet sink builder (start packets traces) in
      let last : AckWriter B =
        write_acks sink builder max_acks packet_id_bits (packet_id ∷ pending) begun in
      let p =
        write_acks-Progress mtu_bytes max_acks packets traces fits few some_room
          (packet_id ∷ pending) [] begun
          record {
            sent = [];
            extended = record {
              new_packets = [];
              new_traces = [];
              packets_end = sym (append-nil packets);
              traces_end = sym (append-nil traces);
              sent_all = refl;
              carried = tt;
            };
            current = begin_packet-Open max_acks (start packets traces);
            so_far = refl;
          } in
      subst
        (λ (r : List ℕ).
          Extended mtu_bytes packets traces r (finish_packet sink builder last).packets
            (finish_packet sink builder last).traces)
        p.so_far
        (finish_packet-Extended mtu_bytes max_acks packets traces p.sent last fits few p.current
          (write_acks-some max_acks packet_id pending begun) p.extended)

  -- With a buffer that keeps its promises, packet ids of at least one bit, an MTU of less than 2 ^ 61
  -- bytes in which one acknowledgement fits, draining the queue empties it and adds packets that carry
  -- its acknowledgements in order, none lost, none twice. Each packet has its message, the right
  -- count and that many ids, from 1 to 31, and fits the MTU; the traces list the same ids.
  pub drain_ack_packets-Extended :
      (mtu_bytes : ℕ) (q : Drained B)
      → 1 ≤ packet_id_bits
      → mtu_bytes * 8 < 2 ^ 64
      → one_ack_bytes packet_id_bits ≤ mtu_bytes
      → let after = drain_ack_packets sink builder mtu_bytes packet_id_bits q in
        (after.pending ≡ [])
        × Extended mtu_bytes q.packets q.traces q.pending after.packets after.traces
  unfolding drain_ack_packets begin_packet
  drain_ack_packets-Extended mtu_bytes q pos small room =
      elim (Bool-cases (length q.pending == 0)) [
        | inl idle ↦
            rw (idle, drain_ack_packets)
              (
                refl,
                record {
                  new_packets = [];
                  new_traces = [];
                  packets_end = sym (append-nil q.packets);
                  traces_end = sym (append-nil q.traces);
                  sent_all = sym (no_elements q.pending (==→eq (length q.pending) 0 idle));
                  carried = tt;
                },
              )
        | inr busy ↦
            let max_acks = max_acks_per_packet mtu_bytes packet_id_bits in
            let (fits, some_room) = max_acks-fits mtu_bytes pos small room in
            let roomy : ltb mtu_bytes (one_ack_bytes packet_id_bits) ≡ false =
              ground (arith, room) in
            let some_acks : (max_acks == 0) ≡ false = ground (arith, some_room) in
            rw (busy, roomy, some_acks, drain_ack_packets)
              (
                refl,
                write_acks-Extended mtu_bytes max_acks q.packets q.traces fits (few_acks mtu_bytes)
                    some_room q.pending (==_false→ne (length q.pending) 0 busy),
              )
      ]
