-- ===== src/Server/InputBuffer/Select.antt =====
-- The input that is applied for a frame.
use ashiato_sync.Base.{
  ℕ, zero, suc, ◌+◌, ◌-◌, ◌%◌, ◌^◌, leb, ◌≤◌, ◌<◌, ◌≡◌, refl, sym, ap, ◌∙◌, Bool, true, false, ◌&&◌,
  List, Option, none, some, ◌==◌, length, arith, Bool-cases, inl, inr, ◌⊎◌, le-or-lt,
}
use ashiato_sync.Server.InputBuffer.{
  InputFrame, InputBuffer, input_at, best_input, window_begin, select_input_for_frame, apply_input,
}

-- The buffer has the input of a frame, in the size that is asked for.
pub has_input : (quantized_size : ℕ) → List InputFrame → ℕ → Bool
has_input quantized_size frames frame =
    let input = input_at frames frame in
    input.valid && input.frame == frame && length input.bytes == quantized_size

-- A run of frames from `low` to before `high` has none that the buffer has.
abbrev pub Missing : (quantized_size : ℕ) → List InputFrame → (low high : ℕ) → Type 0
Missing quantized_size frames low high =
    (g : ℕ) → low ≤ g → g < high → has_input quantized_size frames g ≡ false

-- An input of the run that the buffer has, with none after it.
abbrev pub Newest : (quantized_size : ℕ) → List InputFrame → (low high : ℕ) → InputFrame → Type 0
Newest quantized_size frames low high input =
    (low ≤ input.frame)
    × (input.frame < high)
    × (has_input quantized_size frames input.frame ≡ true)
    × (input_at frames input.frame ≡ input)
    × Missing quantized_size frames (input.frame + 1) high

best_input-Newest :
    (quantized_size due_frame : ℕ) (frames : List InputFrame) (count frame : ℕ)
    (best : Option InputFrame)
    → due_frame < 2 ^ 32 - 1
    → count ≡ due_frame + 1 - frame
    → ((best_input quantized_size due_frame frames (suc count) frame best ≡ some best)
        × Missing quantized_size frames frame (frame + count))
      ⊎ ((input : InputFrame) × (best_input quantized_size due_frame frames (suc count) frame best
            ≡ some (some input))
          × Newest quantized_size frames frame (frame + count) input)
unfolding best_input has_input
best_input-Newest quantized_size due_frame frames zero frame best bound left =
    let over : leb frame due_frame ≡ false = ground arith in
    inl (rw (over, best_input) refl, λ g low high. absurd (omega arith))
best_input-Newest quantized_size due_frame frames (suc count) frame best bound left =
    let input = input_at frames frame in
    let within : leb frame due_frame ≡ true = ground arith in
    let next : (frame + 1) % 2 ^ 32 ≡ frame + 1 = omega arith in
    let later : (b : Option InputFrame) → _ = λ b.
      best_input-Newest quantized_size due_frame frames count (frame + 1) b bound (omega arith) in
    elim (Bool-cases (has_input quantized_size frames frame)) [
      | inr absent ↦ elim (later best) [
        | inl (same, missing) ↦ inl (
          rw (absent, within, next, best_input) same,
          λ g low high. elim (le-or-lt (frame + 1) g) [
            | inl after ↦ missing g after (omega arith)
            | inr now ↦
                let e : frame ≡ g = omega arith in
                ap (has_input quantized_size frames) (sym e) ∙ absent
          ],
        )
        | inr (found, eq, (low, high, has, at, missing)) ↦ inr (
          found,
          rw (absent, within, next, best_input) eq,
          (omega arith, omega arith, has, at, λ g above below. missing g above (omega arith)),
        )
      ]
      | inl present ↦
          let here : input.frame ≡ frame = ground arith in
          elim (later (some input)) [
            | inl (same, missing) ↦ inr (
              input,
              rw (present, within, next, best_input) same,
              (
                omega arith,
                omega arith,
                ap (has_input quantized_size frames) here ∙ present,
                ap (input_at frames) here,
                λ g above below. missing g (omega arith) (omega arith),
              ),
            )
            | inr (found, eq, (low, high, has, at, missing)) ↦ inr (
              found,
              rw (present, within, next, best_input) eq,
              (omega arith, omega arith, has, at, λ g above below. missing g above (omega arith)),
            )
          ]
    ]

-- What is applied for a frame: the newest input that the window has, or none, and then the last
-- applied frame stays.
abbrev pub Applied :
    (due_frame quantized_size : ℕ) → InputBuffer → (Option (List ℕ) × ℕ) × InputBuffer → Type 0
Applied due_frame quantized_size b (due, after) =
    let begin = window_begin due_frame b in
    let end = begin + (due_frame + 1 - begin) in
    ((input : InputFrame) × Newest quantized_size b.input_frames begin end input
      × (due ≡ (some input.bytes, input.frame))
      × (after.latest_applied_input_frame ≡ input.frame))
    ⊎ (Missing quantized_size b.input_frames begin end
        × (after.latest_applied_input_frame ≡ b.latest_applied_input_frame))

-- For a buffer with slots and a due frame below 2 ^ 32 - 1, the search ends. When the window, which
-- begins after the last applied frame, has an input of the size asked for, the newest such input is
-- applied, and its bytes and its frame are given. Otherwise the last applied frame stays as it is.
pub select_input_for_frame-Newest :
    (due_frame quantized_size : ℕ) (b : InputBuffer)
    → 0 < length b.input_frames
    → due_frame < 2 ^ 32 - 1
    → (result : (Option (List ℕ) × ℕ) × InputBuffer) × (select_input_for_frame due_frame
          quantized_size b
        ≡ some result)
      × Applied due_frame quantized_size b result
unfolding select_input_for_frame apply_input
select_input_for_frame-Newest due_frame quantized_size b pos bound =
    let filled : (length b.input_frames == 0) ≡ false = ground arith in
    let begin = window_begin due_frame b in
    elim (best_input-Newest quantized_size due_frame b.input_frames (due_frame + 1 - begin) begin
      none bound refl) [
        | inr (input, found, newest) ↦ (
          apply_input due_frame quantized_size b (some input),
          rw (filled, found, select_input_for_frame) refl,
          inl (input, newest, refl, refl),
        )
        | inl (nothing, missing) ↦ (
          apply_input due_frame quantized_size b none,
          rw (filled, nothing, select_input_for_frame) refl,
          inr (
            missing,
            elim (Bool-cases
                (b.has_latest_applied_input && length b.latest_applied_input == quantized_size)) [
                  | inl reused ↦ rw (reused, apply_input) refl
                  | inr starved ↦ rw (starved, apply_input) refl
                ],
          ),
        )
      ]

-- The search for the input of frame 2 ^ 32 - 1 does not end: no fuel is enough.
best_input_stuck :
    (quantized_size : ℕ) (frames : List InputFrame) (fuel frame : ℕ) (best : Option InputFrame)
    → frame < 2 ^ 32
    → best_input quantized_size (2 ^ 32 - 1) frames fuel frame best ≡ none
unfolding best_input
best_input_stuck quantized_size frames zero frame best small = refl
best_input_stuck quantized_size frames (suc fuel) frame best small =
    let within : leb frame (2 ^ 32 - 1) ≡ true = ground arith in
    rw (within, best_input)
      (best_input_stuck quantized_size frames fuel ((frame + 1) % 2 ^ 32) _ (omega arith))
