-- ===== src/Wire/RoundTrip.antt =====
-- Reading on one side what the other side writes.
use ashiato_sync.Base.{
  ℕ, ◌-◌, ◌^◌, ◌%◌, ◌≤◌, ◌<◌, ◌≡◌, ap, ◌∙◌, Bool, true, false, ◌&&◌, List, [], ◌++◌, some, ltb, leb,
  if◌then◌else◌, length, arith, pow_pos, Bool-cases, inl, inr,
}
use native.Mathlib.Nat.{pow-le-pow_right, mod-eq_of_lt}
use ashiato_sync.Wire.{
  BitSource, BitSink, IsBitBuffer, read_delta_frame, write_delta_frame, serialize_varint2_raw,
  serialize_varint3_raw, read_network_entity_id, write_network_entity_id,
  network_entity_id_encoded_bits, network_entity_id_tier0_max,
}
use ashiato_sync.Wire.Varints.{
  Reads, read_varint2_raw-serialize, read_short-Reads, read_wide-Reads, written_flag, written_flags,
}

module _ {B : Type 0} {source : BitSource B} {sink : BitSink B} (w : IsBitBuffer source sink) where
  -- With a buffer that keeps its promises and a delta of 1 to 32 bits, a frame of 32 bits written
  -- relative to the current frame is read back, whether the delta fits or the frame is written in
  -- full; the bits after it are left to read.
  pub read_delta_frame-write :
      (delta_bits current_frame frame : ℕ) (rest : List Bool) (out b : B)
      → 1 ≤ delta_bits
      → delta_bits ≤ 32
      → frame < 2 ^ 32
      → current_frame < 2 ^ 32
      → w.unread out ≡ []
      → w.unread b ≡ w.unread (write_delta_frame sink delta_bits current_frame frame out) ++ rest
      → Reads w (read_delta_frame source delta_bits current_frame b) frame rest
  unfolding read_delta_frame write_delta_frame
  read_delta_frame-write delta_bits current_frame frame rest out b pos fits lt current empty e =
      elim (Bool-cases
        (leb frame current_frame && leb (current_frame - frame) (2 ^ delta_bits - 1))) [
          | inl near ↦
              let power = pow-le-pow_right {n = 2} (omega arith) fits in
              let small : current_frame - frame < 2 ^ delta_bits =
                ground (arith, pow_pos delta_bits) in
              let (b1, reading, left) =
                read_varint2_raw-serialize w true (current_frame - frame) delta_bits frame 32 rest
                  out b pos (omega arith) small empty
                  (e
                    ∙ ap
                        (λ fits_delta.
                          w.unread (
                            serialize_varint2_raw sink fits_delta
                              (if fits_delta then current_frame - frame else 0) delta_bits frame 32
                              out)
                          ++ rest)
                        near) in
              let exact : (current_frame - frame) % 2 ^ 32 ≡ current_frame - frame =
                mod-eq_of_lt (omega arith) in
              let below : ltb current_frame (current_frame - frame) ≡ false = ground arith in
              let back : current_frame - (current_frame - frame) % 2 ^ 32 ≡ frame = ground arith in
              (b1, rw (reading, below, read_delta_frame) (ap (λ f. some (f, b1)) back), left)
          | inr far ↦
              let (b1, reading, left) =
                read_varint2_raw-serialize w false 0 delta_bits frame 32 rest out b (omega arith)
                  (omega arith) lt empty
                  (e
                    ∙ ap
                        (λ fits_delta.
                          w.unread (
                            serialize_varint2_raw sink fits_delta
                              (if fits_delta then current_frame - frame else 0) delta_bits frame 32
                              out)
                          ++ rest)
                        far) in
              (b1, rw (reading, read_delta_frame) (ap (λ f. some (f, b1)) (mod-eq_of_lt lt)), left)
        ]

  -- With a buffer that keeps its promises and a tier 0 of 1 to 22 bits, a network entity id of 32
  -- bits is read back from whichever of the three tiers it was written in; the bits after it are
  -- left to read.
  pub read_network_entity_id-write :
      (tier0_bits network_id : ℕ) (rest : List Bool) (out b : B)
      → 1 ≤ tier0_bits
      → tier0_bits ≤ 22
      → network_id < 2 ^ 32
      → w.unread out ≡ []
      → w.unread b ≡ w.unread (write_network_entity_id sink network_id tier0_bits out) ++ rest
      → Reads w (read_network_entity_id source tier0_bits b) network_id rest
  unfolding read_network_entity_id write_network_entity_id serialize_varint3_raw
  read_network_entity_id-write tier0_bits network_id rest out b pos fits lt empty e =
      let exact : network_id % 2 ^ 32 ≡ network_id = mod-eq_of_lt lt in
      elim (Bool-cases (leb network_id (2 ^ tier0_bits - 1))) [
        | inl short ↦
            let (b1, reading, left) =
              read_short-Reads w network_id tier0_bits 23 32 rest b pos (omega arith)
                (ground (arith, pow_pos tier0_bits))
                (e
                  ∙ rw short (
                      ap (λ front. front ++ rest)
                        (written_flag w false network_id tier0_bits out empty))) in
            (b1, rw (reading, read_network_entity_id) (ap (λ v. some (v, b1)) exact), left)
        | inr wide ↦ elim (Bool-cases (leb network_id (2 ^ 23 - 1))) [
          | inl medium ↦
              let (b1, reading, left) =
                read_wide-Reads w false network_id tier0_bits 23 32 rest b (omega arith)
                  (omega arith) (ground arith)
                  (e
                    ∙ rw (wide, medium)
                        (ap (λ front. front ++ rest)
                          (written_flags w false network_id 23 out empty))) in
              (b1, rw (reading, read_network_entity_id) (ap (λ v. some (v, b1)) exact), left)
          | inr large ↦
              let (b1, reading, left) =
                read_wide-Reads w true network_id tier0_bits 23 32 rest b (omega arith)
                  (omega arith) lt
                  (e
                    ∙ rw (wide, large)
                        (ap (λ front. front ++ rest)
                          (written_flags w true network_id 32 out empty))) in
              (b1, rw (reading, read_network_entity_id) (ap (λ v. some (v, b1)) exact), left)
        ]
      ]

  -- With a buffer that keeps its promises and has nothing to read, an entity id is written in as many
  -- bits as `network_entity_id_encoded_bits` announces, whatever its tier.
  pub network_entity_id_encoded_bits-write :
      (tier0_bits network_id : ℕ) (out : B)
      → w.unread out ≡ []
      → length (w.unread (write_network_entity_id sink network_id tier0_bits out))
        ≡ network_entity_id_encoded_bits network_id tier0_bits
  unfolding write_network_entity_id serialize_varint3_raw network_entity_id_encoded_bits
      network_entity_id_tier0_max
  network_entity_id_encoded_bits-write tier0_bits network_id out empty =
      elim (Bool-cases (leb network_id (2 ^ tier0_bits - 1))) [
        | inl short ↦ rw short (
            omega (
              arith,
              ap length (written_flag w false network_id tier0_bits out empty),
              w.code_length tier0_bits network_id,
            ))
        | inr wide ↦ elim (Bool-cases (leb network_id (2 ^ 23 - 1))) [
          | inl medium ↦
              rw (wide, medium)
                (omega (
                  arith,
                  ap length (written_flags w false network_id 23 out empty),
                  w.code_length 23 network_id,
                ))
          | inr large ↦
              rw (wide, large)
                (omega (
                  arith,
                  ap length (written_flags w true network_id 32 out empty),
                  w.code_length 32 network_id,
                ))
        ]
      ]
