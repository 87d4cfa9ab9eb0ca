-- ===== src/Client/InputBuffer/Writer/Attempt.antt =====
-- What one attempt at a range of inputs writes.
use ashiato_sync.Base.{
  ℕ, zero, suc, ◌+◌, ◌-◌, ◌^◌, ◌≤◌, ◌<◌, ◌≡◌, ◌≢◌, refl, sym, ap, subst, ◌∙◌, true, arith, inl, inr,
  ◌⊎◌, eq-or-ne,
}
use ashiato_sync.Client.InputBuffer.{ClientInputBuffer, InputFrameRange, has_frame, trailing}
use ashiato_sync.Client.InputBuffer.Writer.{InputWriteResult}

-- The ring has `count` inputs from `first` on.
abbrev pub Stored : ClientInputBuffer → (first count : ℕ) → Type 0
Stored b first count = (i : ℕ) → i < count → has_frame b (first + i) ≡ true

-- The loop went over some of its `count` frames from `frame` on, all of them stored.
pub record Went (b : ClientInputBuffer) (count frame : ℕ) (before after : InputWriteResult)
    : Type 0 where
  pub steps : ℕ
  pub bounded : steps ≤ count
  pub counted : after.count ≡ before.count + steps
  pub first_kept : after.first_frame ≡ before.first_frame
  pub last_written :
      ((steps ≡ 0) × (after.last_frame ≡ before.last_frame))
      ⊎ (after.last_frame + 1 ≡ frame + steps)
  pub stored : Stored b frame steps

pub stays :
    (b : ClientInputBuffer) (count frame : ℕ) (result : InputWriteResult)
    → Went b count frame result result
stays b count frame result = record {
  steps = 0;
  bounded = omega arith;
  counted = omega arith;
  first_kept = refl;
  last_written = inl (refl, refl);
  stored = λ i lt. absurd (omega arith);
}

pub stored_suc :
    (b : ClientInputBuffer) (frame steps : ℕ)
    → has_frame b frame ≡ true
    → Stored b (frame + 1) steps
    → Stored b frame (steps + 1)
stored_suc b frame steps here rest zero lt = ap (λ n. has_frame b n) (omega arith) ∙ here
stored_suc b frame steps here rest (suc i) lt = ap (λ n. has_frame b n) shift ∙ rest i (omega arith)
  where
    shift : frame + suc i ≡ frame + 1 + i
    shift = omega arith

-- What an attempt at a range writes: some frames from its first on, all of them stored.
pub record Attempted (b : ClientInputBuffer) (range : InputFrameRange) (r : InputWriteResult)
    : Type 0 where
  pub bounded : r.count ≤ range.last + 1 - range.first
  pub starts : r.first_frame ≡ range.first
  pub last : (r.count ≡ 0) ⊎ (r.last_frame + 1 ≡ range.first + r.count)
  pub stored : Stored b range.first r.count

pub Went-Attempted :
    (b : ClientInputBuffer) (range : InputFrameRange) (before after : InputWriteResult)
    → before.count ≡ 0
    → before.first_frame ≡ range.first
    → Went b (range.last + 1 - range.first) range.first before after
    → Attempted b range after
Went-Attempted b range before after none_yet starts w =
    let e : w.steps ≡ after.count = omega (arith, w.counted) in
    record {
      bounded = omega (arith, w.bounded);
      starts = w.first_kept ∙ starts;
      last = elim w.last_written [
        | inl (zero_steps, kept) ↦ inl (omega arith)
        | inr written ↦ inr (omega arith)
      ];
      stored = subst (Stored b range.first) e w.stored;
    }

-- What the loop over the suffixes gives: frames up to the last of the desired range, all of them
-- stored.
pub record IsSuffix (b : ClientInputBuffer) (desired : InputFrameRange) (result : InputWriteResult)
    : Type 0 where
  pub ends_at_last : result.last_frame ≡ desired.last
  pub contiguous : result.first_frame + result.count ≡ desired.last + 1
  pub within : desired.first ≤ result.first_frame
  pub stored : Stored b result.first_frame result.count

pub Attempted-IsSuffix :
    (b : ClientInputBuffer) (desired candidate : InputFrameRange) (r : InputWriteResult)
    → Attempted b candidate r
    → desired.first ≤ candidate.first
    → r.count ≢ 0
    → r.last_frame ≡ desired.last
    → IsSuffix b desired r
Attempted-IsSuffix b desired candidate r a within some_frames e = elim a.last [
  | inl none_written ↦ absurd (some_frames none_written)
  | inr last ↦ record {
    ends_at_last = e;
    contiguous = omega (arith, a.starts);
    within = omega (arith, a.starts);
    stored = subst (λ n. Stored b n r.count) (sym a.starts) a.stored;
  }
]

-- The range that is tried after an attempt that ended early is shorter, and not empty.
pub record Shorter (desired candidate next : InputFrameRange) : Type 0 where
  pub within : desired.first ≤ next.first
  pub below : next.first ≤ desired.last
  pub fewer : desired.last + 1 - next.first < desired.last + 1 - candidate.first

pub trailing-Shorter :
    (b : ClientInputBuffer) (desired candidate : InputFrameRange) (r : InputWriteResult)
    → Attempted b candidate r
    → candidate.last ≡ desired.last
    → desired.last < 2 ^ 32
    → 1 ≤ candidate.first
    → desired.first ≤ candidate.first
    → candidate.first ≤ desired.last
    → r.count ≢ 0
    → r.last_frame ≢ desired.last
    → Shorter desired candidate (trailing desired r.count)
unfolding trailing
trailing-Shorter b desired candidate r a same small pos within below some_frames early =
    let n = r.count in
    elim a.last [
      | inl none_written ↦ absurd (some_frames none_written)
      | inr last ↦
          let less : n < desired.last + 1 - candidate.first =
            elim (eq-or-ne n (desired.last + 1 - candidate.first)) [
              | inl whole ↦ absurd (early (omega arith))
              | inr ne ↦ omega (arith, a.bounded)
            ] in
          let positive : 1 ≤ n = omega arith in
          record { within = omega arith; below = omega arith; fewer = omega arith }
    ]
