-- ===== src/Client/InputBuffer/Range.antt =====
-- The range of inputs that the client wants to send.
use ashiato_sync.Base.{
  ℕ, zero, suc, ◌+◌, ◌-◌, ◌^◌, ◌≤◌, ◌<◌, ◌≡◌, refl, ap, subst, ◌∙◌, Bool, true, false, ◌&&◌, ◌||◌,
  not, List, [], ◌∷◌, ◌==◌, length, get_or, arith, Bool-cases, inl, inr, ◌⊎◌, max, eq-or-ne,
}
use ashiato_sync.Client.PayloadRing.{is_empty, ring_slot_for}
use ashiato_sync.Client.InputBuffer.{
  ClientInputBuffer, InputFrameRange, InputFrameSlot, blank_slot, no_range, slot_at, has_frame,
  extend_range, oldest_frame, find_newest_contiguous_input_range,
}

test_fails : (v e s : Bool) → (not v || not e) ≡ true → v && e && s ≡ false
test_fails true true s h = absurd (cc)
test_fails true false s h = refl
test_fails false e s h = refl

test_holds : (v e s : Bool) → (not v || not e) ≡ false → s ≡ true → v && e && s ≡ true
test_holds true true s h t = t
test_holds true false s h t = absurd (cc)
test_holds false e s h t = absurd (cc)

before_first : (first frame : ℕ) → first ≡ frame + 1 → first - 1 ≡ frame
before_first first frame e = omega arith

same_oldest : (first frame count : ℕ) → first ≡ frame + 1 → frame - count ≡ first - suc count
same_oldest first frame count e = omega arith

-- The run of stored frames up to the last recorded one, as far down as `oldest` or a frame that is
-- missing.
pub record IsNewest (b : ClientInputBuffer) (oldest : ℕ) (range : InputFrameRange) : Type 0 where
  pub last : range.last ≡ b.last_recorded_frame
  pub first_ge : oldest ≤ range.first
  pub first_le : range.first ≤ b.last_recorded_frame
  pub stored :
      (frame : ℕ) → range.first ≤ frame → frame ≤ b.last_recorded_frame → has_frame b frame ≡ true
  pub longest : (range.first ≡ oldest) ⊎ (has_frame b (range.first - 1) ≡ false)

module _ (b : ClientInputBuffer) (wide : (b.frames.payload_stride == b.quantized_size) ≡ true) where
  extend_range-IsNewest :
      (count frame first : ℕ)
      → first ≡ frame + 1
      → count ≤ frame
      → first ≤ b.last_recorded_frame
      → ((f : ℕ) → first ≤ f → f ≤ b.last_recorded_frame → has_frame b f ≡ true)
      → IsNewest b
          (first - count)
          (extend_range b count frame (record { first = first; last = b.last_recorded_frame }))
  unfolding extend_range has_frame
  extend_range-IsNewest zero frame first next le below stored = record {
    last = refl;
    first_ge = omega arith;
    first_le = below;
    stored = stored;
    longest = inl (omega arith);
  }
  extend_range-IsNewest (suc count) frame first next le below stored =
      let slot : InputFrameSlot = slot_at b frame in
      elim (Bool-cases (not slot.valid || not (slot.frame == frame))) [
        | inl missing ↦
            rw (missing, extend_range)
              record {
                last = refl;
                first_ge = omega arith;
                first_le = below;
                stored = stored;
                longest = inr (
                    ap (λ f. has_frame b f) (before_first first frame next)
                    ∙ test_fails slot.valid (slot.frame == frame) _ missing);
              }
        | inr there ↦
            let here : has_frame b frame ≡ true =
              test_holds slot.valid (slot.frame == frame) _ there wide in
            let down =
              extend_range-IsNewest count (frame - 1) frame (omega arith) (omega arith)
                (omega arith)
                (λ f low high. elim (eq-or-ne f frame) [
                  | inl e ↦ ap (λ n. has_frame b n) e ∙ here
                  | inr ne ↦ stored f (omega arith) high
                ]) in
            rw (there, extend_range)
              (subst
                (λ n. IsNewest b n (
                  extend_range b count (frame - 1)
                    (record { first = frame; last = b.last_recorded_frame })))
                (same_oldest first frame count next) down)
      ]

-- Either nothing is sent because the last recorded input is missing, or the newest inputs are.
abbrev pub EmptyOrNewest : ClientInputBuffer → (oldest : ℕ) → InputFrameRange → Type 0
EmptyOrNewest b oldest range =
    ((range ≡ no_range) × (has_frame b b.last_recorded_frame ≡ false)) ⊎ IsNewest b oldest range

extend_start :
    (b : ClientInputBuffer) (n : ℕ)
    → (b.frames.payload_stride == b.quantized_size) ≡ true
    → n < b.last_recorded_frame
    → EmptyOrNewest b
        (b.last_recorded_frame - n)
        (extend_range b (suc n) b.last_recorded_frame no_range)
unfolding extend_range has_frame
extend_start b n wide lt =
    let last = b.last_recorded_frame in
    let slot : InputFrameSlot = slot_at b last in
    elim (Bool-cases (not slot.valid || not (slot.frame == last))) [
      | inl missing ↦
          rw (missing, extend_range)
            (inl (refl, test_fails slot.valid (slot.frame == last) _ missing))
      | inr there ↦
          let here : has_frame b last ≡ true =
            test_holds slot.valid (slot.frame == last) _ there wide in
          rw (there, extend_range)
            (inr (
              extend_range-IsNewest b wide n (last - 1) last (omega arith) (omega arith)
                (omega arith)
                (λ f low high. ap (λ k. has_frame b k) (squeeze f last low high) ∙ here)))
    ]
  where
    squeeze : (f last : ℕ) → last ≤ f → f ≤ last → f ≡ last
    squeeze f last low high = omega arith

no_entries :
    (frames : List InputFrameSlot) (i : ℕ)
    → length frames ≡ 0
    → get_or frames i blank_slot ≡ blank_slot
no_entries [] i e = refl
no_entries (x ∷ frames) i e = absurd (omega arith)

oldest_frame_lem :
    (transmit_floor last : ℕ)
    → transmit_floor < last
    → last < 2 ^ 32
    → oldest_frame transmit_floor last ≡ max (transmit_floor + 1) (last - 30)
unfolding oldest_frame
oldest_frame_lem transmit_floor last above small = ground arith

frame_count : (last oldest : ℕ) → oldest ≤ last → suc (last - oldest) ≡ last + 1 - oldest
frame_count last oldest le = omega arith

sub_back : (last oldest : ℕ) → oldest ≤ last → last - (last - oldest) ≡ oldest
sub_back last oldest le = omega arith

wide_enough : (none_there s : Bool) → (none_there || not s) ≡ false → s ≡ true
wide_enough true s h = absurd (cc)
wide_enough false true h = refl
wide_enough false false h = absurd (cc)

no_width : (v e s : Bool) → s ≡ false → v && e && s ≡ false
no_width true true s h = h
no_width true false s h = refl
no_width false e s h = refl

-- Without slots, or with payloads of another size, the ring has no input.
nothing_stored :
    (b : ClientInputBuffer) (frame : ℕ)
    → (is_empty b.frames || not (b.frames.payload_stride == b.quantized_size)) ≡ true
    → has_frame b frame ≡ false
unfolding has_frame slot_at is_empty
nothing_stored b frame h = elim (Bool-cases (b.frames.payload_stride == b.quantized_size)) [
  | inr other ↦ no_width (slot_at b frame).valid ((slot_at b frame).frame == frame) _ other
  | inl wide ↦
      let gone : length b.frames.metadata ≡ 0 = ground arith in
      ap
        (λ (slot : InputFrameSlot).
          slot.valid && (slot.frame == frame) && (b.frames.payload_stride == b.quantized_size))
        (no_entries b.frames.metadata (ring_slot_for b.frames frame) gone)
]

-- When the last recorded frame is above the transmit floor and below 2 ^ 32, the range to send is
-- empty only if the last recorded input is not stored. Otherwise it is the run of stored inputs
-- that ends with the last recorded one, at most 31 of them, all above the floor; it goes down to the
-- floor, to the limit of 31, or to a frame that is missing.
pub find_newest_contiguous_input_range-IsNewest :
    (b : ClientInputBuffer) (transmit_floor : ℕ)
    → transmit_floor < b.last_recorded_frame
    → b.last_recorded_frame < 2 ^ 32
    → let range = find_newest_contiguous_input_range b transmit_floor in
      EmptyOrNewest b (max (transmit_floor + 1) (b.last_recorded_frame - 30)) range
unfolding find_newest_contiguous_input_range
find_newest_contiguous_input_range-IsNewest b transmit_floor above small =
    let last = b.last_recorded_frame in
    let oldest = oldest_frame transmit_floor last in
    let e = oldest_frame_lem transmit_floor last above small in
    elim (Bool-cases (is_empty b.frames || not (b.frames.payload_stride == b.quantized_size))) [
      | inl nothing ↦
          rw (nothing, find_newest_contiguous_input_range)
            (inl (refl, nothing_stored b last nothing))
      | inr there ↦
          let n = last - oldest in
          let wide : (b.frames.payload_stride == b.quantized_size) ≡ true =
            wide_enough (is_empty b.frames) _ there in
          rw (there, find_newest_contiguous_input_range)
            (subst
              (λ k.
                EmptyOrNewest b (max (transmit_floor + 1) (last - 30))
                  (extend_range b k last no_range))
              (frame_count last oldest (omega (arith, e)))
              (subst (λ k. EmptyOrNewest b k (extend_range b (suc n) last no_range))
                (sub_back last oldest (omega (arith, e)) ∙ e)
                (extend_start b n wide (omega (arith, e)))))
    ]
