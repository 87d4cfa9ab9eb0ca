-- ===== src/Server/InputBuffer/Stored.antt =====
-- The inputs that the buffer holds after a packet.
use ashiato_sync.Base.{
  ℕ, zero, suc, ◌+◌, ◌-◌, ◌%◌, ◌^◌, ◌≤◌, ◌≡◌, sym, ap, subst, ◌∙◌, max, true, ◌||◌, List, Option,
  none, some, ltb, ◌==◌, if◌then◌else◌, length, get_elem?, set, replicate, arith, Bool-cases,
  Option-cases, inl, inr, ◌⊎◌, length-set, get_elem?-set_inv, get_elem?_lt, get_elem?-replicate,
  length-replicate,
}
use ashiato_sync.Capacity.{slot_for}
use ashiato_sync.Wire.{BitSource}
use ashiato_sync.Server.InputBuffer.{
  InputFrame, InputBuffer, InputHeader, Deserialize, blank_input, store_input, ensure_inputs,
  set_local_frame, receive_input, raise_ack, previous_input, first_input_frame, process_inputs,
  max_input_count, read_header, process_payload, process_packet_payload,
}

-- A stored input stands in its frame's slot, and its frame is acknowledged.
abbrev pub Placed : (acknowledged : ℕ) → List InputFrame → Type 0
Placed acknowledged frames =
    (i : ℕ) (input : InputFrame)
    → get_elem? frames i ≡ some input
    → input.valid ≡ true
    → (slot_for (length frames) input.frame ≡ i) × (input.frame ≤ acknowledged)

-- The buffer is empty or has its capacity, and its inputs are placed.
pub record IsValid (capacity : ℕ) (b : InputBuffer) : Type 0 where
  pub sized : (length b.input_frames ≡ 0) ⊎ (length b.input_frames ≡ capacity)
  pub placed : Placed b.input_ack_frame b.input_frames

-- The state after is valid, and acknowledges no less.
abbrev pub Later : (capacity : ℕ) → (before after : InputBuffer) → Type 0
Later capacity before after =
    IsValid capacity after × (before.input_ack_frame ≤ after.input_ack_frame)

store_input-Placed :
    (frame acknowledged : ℕ) (bytes : List ℕ) (frames : List InputFrame)
    → Placed acknowledged frames
    → Placed (max acknowledged frame) (store_input frame bytes frames)
unfolding store_input
store_input-Placed frame acknowledged bytes frames v i input here valid =
    let entry : InputFrame = record { frame = frame; valid = true; bytes = bytes } in
    let size : length (set frames (slot_for (length frames) frame) entry) ≡ length frames =
      length-set frames (slot_for (length frames) frame) entry in
    elim (get_elem?-set_inv frames (slot_for (length frames) frame) i here) [
      | inl (e, q) ↦ (
        ap (λ n. slot_for n input.frame) size
            ∙ ap (λ (r : InputFrame). slot_for (length frames) r.frame) (sym q)
            ∙ e,
        omega (arith, ap (λ (r : InputFrame). r.frame) q),
      )
      | inr (ne, q) ↦
          let (slot, le) = v i input q valid in
          (ap (λ n. slot_for n input.frame) size ∙ slot, omega arith)
    ]

Placed-mono : (a c : ℕ) (frames : List InputFrame) → a ≤ c → Placed a frames → Placed c frames
Placed-mono a c frames le v i input here valid =
    let (slot, old) = v i input here valid in (slot, omega arith)

ensure_inputs-Placed :
    (capacity acknowledged : ℕ) (frames : List InputFrame)
    → Placed acknowledged frames
    → Placed acknowledged (ensure_inputs capacity frames)
unfolding ensure_inputs
ensure_inputs-Placed capacity acknowledged frames v = elim (Bool-cases (length frames == 0)) [
  | inr there ↦ rw there v
  | inl empty ↦ rw empty blanks
]
  where
    blanks : Placed acknowledged (replicate capacity blank_input)
    blanks i input here valid =
        let lt = get_elem?_lt (replicate capacity blank_input) i here in
        let same : some blank_input ≡ some input =
          sym (
            get_elem?-replicate capacity i blank_input
              (omega (arith, length-replicate capacity blank_input)))
          ∙ here in
        absurd (cc)

ensure_inputs-sized :
    (capacity : ℕ) (frames : List InputFrame)
    → (length frames ≡ 0) ⊎ (length frames ≡ capacity)
    → length (ensure_inputs capacity frames) ≡ capacity
unfolding ensure_inputs
ensure_inputs-sized capacity frames sized = ground (arith, length-replicate capacity blank_input)

store_input-length :
    (frame : ℕ) (bytes : List ℕ) (frames : List InputFrame)
    → length (store_input frame bytes frames) ≡ length frames
unfolding store_input
store_input-length frame bytes frames = length-set frames _ _

receive_input-Later :
    (capacity frame : ℕ) (decoded : List ℕ) (b : InputBuffer)
    → IsValid capacity b
    → Later capacity b (receive_input frame decoded b)
unfolding receive_input
receive_input-Later capacity frame decoded b v = elim (Bool-cases (ltb b.input_ack_frame frame)) [
  | inr old ↦ rw old (v, omega arith)
  | inl newer ↦
      let stored = store_input-Placed frame b.input_ack_frame decoded b.input_frames v.placed in
      let top : max b.input_ack_frame frame ≡ frame = ground arith in
      let size = store_input-length frame decoded b.input_frames in
      rw newer (
        record {
          sized = ground arith;
          placed = subst (λ a. Placed a (store_input frame decoded b.input_frames)) top stored;
        },
        ground arith,
      )
]

raise_ack-Later :
    (capacity baseline_frame : ℕ) (b : InputBuffer)
    → IsValid capacity b
    → Later capacity b (raise_ack baseline_frame b)
unfolding raise_ack
raise_ack-Later capacity baseline_frame b v =
    elim (Bool-cases (ltb b.input_ack_frame baseline_frame)) [
      | inr old ↦ rw old (v, omega arith)
      | inl newer ↦ rw newer (
        record {
          sized = v.sized;
          placed =
              Placed-mono b.input_ack_frame baseline_frame b.input_frames (ground arith) v.placed;
        },
        ground arith,
      )
    ]

module _ {B : Type 0} (source : BitSource B) (deserialize : Deserialize B) where
  process_inputs-Later :
      (capacity count frame : ℕ) (previous : Option (List ℕ)) (packet : B) (b : InputBuffer)
      → IsValid capacity b
      → Later capacity b ((process_inputs source deserialize count frame previous packet b).1)
  unfolding process_inputs
  process_inputs-Later capacity zero frame previous packet b v = (v, omega arith)
  process_inputs-Later capacity (suc count) frame previous packet b v =
      elim (Option-cases (
        deserialize packet previous frame
          (elim previous [ none ↦ 0 | some bytes ↦ (frame + (2 ^ 32 - 1)) % 2 ^ 32 ]))) [
            | inl failed ↦ rw (failed, process_inputs) (v, omega arith)
            | inr (result, read) ↦
                elim (Bool-cases
                  (source.read_offset_bits result.1 == source.read_offset_bits packet)) [
                    | inl stuck ↦ rw (read, stuck, process_inputs) (v, omega arith)
                    | inr moved ↦
                        let (w, le) = receive_input-Later capacity frame result.0 b v in
                        let (x, more) =
                          process_inputs-Later capacity count ((frame + 1) % 2 ^ 32) (some result.0)
                            result.1 (receive_input frame result.0 b) w in
                        rw (read, moved, process_inputs) (x, omega arith)
                  ]
          ]

  process_payload-Later :
      (capacity quantized_size : ℕ) (header : InputHeader) (rest : B) (b : InputBuffer)
      → IsValid capacity b
      → Later capacity b
          ((process_payload source deserialize quantized_size capacity header rest b).1)
  unfolding process_payload
  process_payload-Later capacity quantized_size header rest b v =
      let known = raise_ack header.baseline_frame b in
      let (raised, le) = raise_ack-Later capacity header.baseline_frame b v in
      let filled = record known { input_frames = ensure_inputs capacity known.input_frames } in
      let ready : IsValid capacity filled = record {
        sized = inr (ensure_inputs-sized capacity known.input_frames raised.sized);
        placed =
            ensure_inputs-Placed capacity known.input_ack_frame known.input_frames raised.placed;
      } in
      elim (Bool-cases (ltb max_input_count header.input_count)) [
        | inl many ↦ rw (many, process_payload) (v, omega arith)
        | inr few ↦ elim (Option-cases (previous_input quantized_size header known)) [
          | inl lacking ↦ rw (few, lacking, process_payload) (raised, le)
          | inr (previous, found) ↦
              elim (Bool-cases (first_input_frame header == 0 || header.input_count == 0)) [
                | inl idle ↦ rw (few, found, idle, process_payload) (raised, le)
                | inr busy ↦
                    let (x, more) =
                      process_inputs-Later capacity header.input_count (first_input_frame header)
                        (if header.first_input_relative then some previous else none) rest filled
                        ready in
                    rw (few, found, busy, process_payload) (x, omega arith)
              ]
        ]
      ]

  -- When each stored input is in the slot of its frame and none is newer than the acknowledged
  -- frame, that still holds after any packet is processed, however the deserializer answers, and
  -- the acknowledged frame is never lowered.
  pub process_packet_payload-IsValid :
      (capacity quantized_size : ℕ) (packet : B) (b : InputBuffer)
      → IsValid capacity b
      → Later capacity b
          ((process_packet_payload source deserialize quantized_size capacity packet b).1)
  unfolding process_packet_payload
  process_packet_payload-IsValid capacity quantized_size packet b v =
      elim (Option-cases (read_header source deserialize packet)) [
        | inl bad ↦ rw (bad, process_packet_payload) (v, omega arith)
        | inr (result, read) ↦
            rw (read, process_packet_payload)
              (process_payload-Later capacity quantized_size result.0 result.1 b v)
      ]

-- When each stored input is in the slot of its frame and none is newer than the acknowledged frame,
-- that still holds after a local input is set, and the acknowledged frame is never lowered.
pub set_local_frame-IsValid :
    (frame : ℕ) (bytes : Option (List ℕ)) (quantized_size capacity : ℕ) (b : InputBuffer)
    → IsValid capacity b
    → Later capacity b ((set_local_frame frame bytes quantized_size capacity b).1)
unfolding set_local_frame
set_local_frame-IsValid frame none quantized_size capacity b v = (v, omega arith)
set_local_frame-IsValid frame (some bytes) quantized_size capacity b v =
    elim (Bool-cases (frame == 0 || quantized_size == 0 || capacity == 0)) [
      | inl refused ↦ rw (refused, set_local_frame) (v, omega arith)
      | inr accepted ↦
          let ready = ensure_inputs capacity b.input_frames in
          let size = ensure_inputs-sized capacity b.input_frames v.sized in
          rw (accepted, set_local_frame)
            (
              record {
                sized = inr (store_input-length frame bytes ready ∙ size);
                placed =
                    store_input-Placed frame b.input_ack_frame bytes ready
                      (ensure_inputs-Placed capacity b.input_ack_frame b.input_frames v.placed);
              },
              omega arith,
            )
    ]
