-- ===== src/Client/InputBuffer/Writer/Suffix.antt =====
-- The loop over shorter and shorter ends of a range of inputs.
use ashiato_sync.Base.{
  ℕ, zero, suc, ◌+◌, ◌-◌, ◌%◌, ◌^◌, ◌≤◌, ◌<◌, ◌≡◌, refl, ap, subst, true, false, List, Option, none,
  some, ltb, ◌==◌, arith, Bool-cases, inl, inr, ◌⊎◌, ==→eq, ==_false→ne, ne→==_false,
}
use ashiato_sync.Protocol.{bytes_for_bits}
use ashiato_sync.Server.InputBuffer.{input_count_bits}
use ashiato_sync.Client.PayloadRing.{ring_slot_for}
use ashiato_sync.Client.InputBuffer.{
  ClientInputBuffer, InputFrameRange, has_frame, frame_bytes, range_count, trailing,
}
use ashiato_sync.Client.InputBuffer.Writer.{
  InputSink, InputWriteResult, serialize_input_frame, write_frames, write_input_attempt,
  try_suffixes, append_newest_input_suffix,
}
use ashiato_sync.Client.InputBuffer.Writer.Attempt.{
  Attempted, Attempted-IsSuffix, IsSuffix, Went, Went-Attempted, stays, stored_suc,
  trailing-Shorter,
}

next_number : (n : ℕ) → suc n ≡ n + 1
next_number n = omega arith

chained : (a c d : ℕ) → a < c → c < d → a < d
chained a c d h k = omega arith

below_suc : (a c d : ℕ) → a < c → c < suc d → a < d
below_suc a c d h k = omega arith

module _ {B : Type 0} (out : InputSink B) (mtu_bytes packet_id_bits : ℕ)
    (b : ClientInputBuffer) where
  write_frames-Went :
      (count frame : ℕ) (previous : Option (List ℕ)) (packet : B) (result : InputWriteResult)
      → result.count + count < 2 ^ 16
      → Went b count frame result
          ((write_frames out mtu_bytes packet_id_bits b count frame previous packet result).1)
  unfolding write_frames
  write_frames-Went zero frame previous packet result small = stays b zero frame result
  write_frames-Went (suc count) frame previous packet result small =
      let bytes = frame_bytes b (ring_slot_for b.frames frame) in
      let longer : B =
        serialize_input_frame out mtu_bytes packet_id_bits b frame previous bytes packet in
      let next : InputWriteResult = record result {
        last_frame = frame;
        count = (result.count + 1) % 2 ^ 16;
      } in
      elim (Bool-cases (has_frame b frame)) [
        | inr lacking ↦ rw (lacking, write_frames) (stays b (suc count) frame result)
        | inl here ↦
            elim (Bool-cases (ltb mtu_bytes (bytes_for_bits (out.builder.bit_size longer)))) [
              | inl full ↦ rw (here, full, write_frames) (stays b (suc count) frame result)
              | inr fits ↦
                  let w =
                    write_frames-Went count (frame + 1) (some bytes) longer next (omega arith) in
                  let last =
                    (write_frames out mtu_bytes packet_id_bits b count (frame + 1) (some bytes)
                      longer next).1 in
                  rw (here, fits, write_frames)
                    record {
                      steps = w.steps + 1;
                      bounded = omega (arith, w.bounded);
                      counted = omega (arith, w.counted);
                      first_kept = w.first_kept;
                      last_written = inr (elim w.last_written [
                        | inl (none_more, same) ↦ omega arith
                        | inr e ↦ omega arith
                      ]);
                      stored = stored_suc b frame w.steps here w.stored;
                    }
            ]
      ]

  write_input_attempt-Attempted :
      (range : InputFrameRange) (packet : B)
      → 1 ≤ range.first
      → range.last + 1 - range.first < 2 ^ 16
      → Attempted b range ((write_input_attempt out mtu_bytes packet_id_bits b range packet).1)
  unfolding write_input_attempt
  write_input_attempt-Attempted range packet pos small =
      let nonzero : (range.first == 0) ≡ false =
        ne→==_false range.first 0 (λ e. absurd (omega arith)) in
      rw (nonzero, write_input_attempt)
        (Went-Attempted b range _ _ refl refl
          (write_frames-Went (range.last + 1 - range.first) range.first _ _ _ (omega arith)))

  abbrev pub Ends : InputFrameRange → Option (B × InputWriteResult) → Type 0
  Ends desired result =
      (written : B × InputWriteResult) × (result ≡ some written)
      × ((written.1.count ≡ 0) ⊎ IsSuffix b desired written.1)

  try_suffixes-Ends :
      (fuel section_offset : ℕ) (desired candidate : InputFrameRange) (packet : B)
      → candidate.last ≡ desired.last
      → desired.last < 2 ^ 32
      → 1 ≤ desired.first
      → desired.first ≤ candidate.first
      → candidate.first ≤ desired.last
      → desired.last + 1 - candidate.first < 2 ^ 16
      → desired.last + 1 - candidate.first < fuel
      → Ends desired
          (try_suffixes out mtu_bytes packet_id_bits b fuel section_offset desired candidate packet)
  unfolding try_suffixes trailing
  try_suffixes-Ends zero section_offset desired candidate packet same small pos within below few
        enough =
      absurd (omega arith)
  try_suffixes-Ends (suc fuel) section_offset desired candidate packet same small pos within below
        few enough =
      let cut : B = out.truncate_bits section_offset packet in
      let attempt : B × InputWriteResult =
        write_input_attempt out mtu_bytes packet_id_bits b candidate cut in
      let a = write_input_attempt-Attempted candidate cut (omega arith) (omega arith) in
      elim (Bool-cases (attempt.1.count == 0)) [
        | inl nothing ↦
            rw (nothing, try_suffixes) (attempt, refl, inl (==→eq attempt.1.count 0 nothing))
        | inr something ↦
            let ne = ==_false→ne attempt.1.count 0 something in
            elim (Bool-cases (attempt.1.last_frame == desired.last)) [
              | inl ended ↦
                  rw (something, ended, try_suffixes)
                    (
                      attempt,
                      refl,
                      inr (
                          Attempted-IsSuffix b desired candidate attempt.1 a within ne
                            (==→eq attempt.1.last_frame desired.last ended)),
                    )
              | inr early ↦
                  let next =
                    trailing-Shorter b desired candidate attempt.1 a same small (omega arith) within
                      below ne (==_false→ne attempt.1.last_frame desired.last early) in
                  rw (something, early, try_suffixes)
                    (try_suffixes-Ends fuel section_offset desired
                      (trailing desired attempt.1.count) attempt.0 refl small pos next.within
                      next.below (chained _ _ _ next.fewer few) (below_suc _ _ _ next.fewer enough))
            ]
      ]

  nothing_attempted :
      (range : InputFrameRange) (packet : B)
      → range.first ≡ 0
      → (write_input_attempt out mtu_bytes packet_id_bits b range packet).1.count ≡ 0
  unfolding write_input_attempt write_frames
  nothing_attempted range packet none_there =
      let zero_first : (range.first == 0) ≡ true = ap (λ n. n == 0) none_there in
      rw (zero_first, write_input_attempt, write_frames) refl

  one_attempt :
      (fuel section_offset : ℕ) (desired : InputFrameRange) (packet : B)
      → desired.first ≡ 0
      → Ends desired (
          try_suffixes out mtu_bytes packet_id_bits b
            (suc fuel)
            section_offset
            desired
            desired
            packet)
  unfolding try_suffixes
  one_attempt fuel section_offset desired packet none_there =
      let cut : B = out.truncate_bits section_offset packet in
      let attempt : B × InputWriteResult =
        write_input_attempt out mtu_bytes packet_id_bits b desired cut in
      let none_written = nothing_attempted desired cut none_there in
      let nothing : (attempt.1.count == 0) ≡ true = ap (λ n. n == 0) none_written in
      rw (nothing, try_suffixes) (attempt, refl, inl none_written)

  overwritten-Ends :
      (desired : InputFrameRange) (tried : Option (B × InputWriteResult))
      → Ends desired tried
      → Ends desired (elim tried [
        | none ↦ none
        | some (written, result) ↦ some (
          out.builder.overwrite_unsigned_bits result.count_offset result.count input_count_bits
              written,
          result,
        )
      ])
  overwritten-Ends desired tried (written, e, good) = rw e (
    (
      out.builder.overwrite_unsigned_bits written.1.count_offset written.1.count input_count_bits
          written.0,
      written.1,
    ),
    refl,
    good,
  )

  -- A range is empty, or its frames are frames of 32 bits and at most as many as a count of 16 bits
  -- says.
  abbrev pub IsRange : InputFrameRange → Type 0
  IsRange desired =
      (desired.first ≡ 0)
      ⊎ ((1 ≤ desired.first)
          × (desired.first ≤ desired.last)
          × (desired.last < 2 ^ 32)
          × (desired.last + 1 - desired.first < 2 ^ 16))

  -- However long the inputs are in the packet, the loop over shorter and shorter ends of a range
  -- ends, after at most one attempt more than the range has frames. It gives no input, or inputs that
  -- the buffer has, one for each frame up to the last of the range.
  pub append_newest_input_suffix-Ends :
      (desired : InputFrameRange) (packet : B)
      → IsRange desired
      → Ends desired (append_newest_input_suffix out mtu_bytes packet_id_bits b desired packet)
  unfolding append_newest_input_suffix range_count try_suffixes
  append_newest_input_suffix-Ends desired packet (inl none_there) = overwritten-Ends desired _ (
      subst
        (λ n. Ends desired (
          try_suffixes out mtu_bytes packet_id_bits b n (out.builder.bit_size packet) desired
            desired packet))
        (next_number (range_count desired))
        (one_attempt (range_count desired) (out.builder.bit_size packet) desired packet none_there))
  append_newest_input_suffix-Ends desired packet (inr (pos, le, small, few)) =
      let nonzero : (desired.first == 0) ≡ false =
        ne→==_false desired.first 0 (λ e. absurd (omega arith)) in
      let count : range_count desired ≡ desired.last + 1 - desired.first =
        rw (nonzero, range_count) (omega arith) in
      overwritten-Ends desired _ (
        try_suffixes-Ends (range_count desired + 1) (out.builder.bit_size packet) desired desired
          packet refl small pos (omega arith) le few (omega (arith, count)))
