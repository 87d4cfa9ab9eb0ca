-- ===== src/Bandwidth/Window.antt =====
-- The window of samples, and the counters over it.
use ashiato_sync.Base.{
  ℕ, ◌+◌, ◌-◌, ◌^◌, ◌%◌, ◌≤◌, ◌≡◌, refl, Bool, List, [], ◌∷◌, ◌++◌, ltb, if◌then◌else◌, arith,
  Bool-cases, inl, inr,
}
use ashiato_sync.Bandwidth.{
  Sample, SampleWindow, enter_sample, drop_samples, first_retained_frame, push_sample, decrease,
}

unfoldable pub total_bytes : List Sample → ℕ
total_bytes [] = 0
total_bytes (s ∷ samples) = s.bytes + total_bytes samples

unfoldable pub count_delivered : List Sample → ℕ
count_delivered [] = 0
count_delivered (s ∷ samples) = (if s.lost then 0 else 1) + count_delivered samples

unfoldable pub count_lost : List Sample → ℕ
count_lost [] = 0
count_lost (s ∷ samples) = (if s.lost then 1 else 0) + count_lost samples

-- The frames rise from `low` to `high`.
abbrev pub Between : (low high : ℕ) → List Sample → Type 0
Between low high [] = low ≤ high
Between low high (s ∷ samples) = (low ≤ s.frame) × Between s.frame high samples

-- The samples lie in the window, and each counter is its sum, in its width.
pub record InWindow (low high : ℕ) (w : SampleWindow) : Type 0 where
  pub between : Between low high w.samples
  pub bytes_exact : w.delivered_bytes ≡ total_bytes w.samples % 2 ^ 64
  pub delivered_exact : w.delivered_packets ≡ count_delivered w.samples % 2 ^ 32
  pub lost_exact : w.lost_packets ≡ count_lost w.samples % 2 ^ 32

Between-append :
    (low high frame : ℕ) (samples : List Sample) (s : Sample)
    → Between low high samples
    → high ≤ frame
    → s.frame ≡ frame
    → Between low frame (samples ++ (s ∷ []))
Between-append low high frame [] s b h e = (omega arith, omega arith)
Between-append low high frame (r ∷ samples) s b h e =
    (b.0, Between-append r.frame high frame samples s b.1 h e)

total_bytes-append :
    (samples : List Sample) (s : Sample)
    → total_bytes (samples ++ (s ∷ [])) ≡ total_bytes samples + s.bytes
unfolding total_bytes
total_bytes-append [] s = omega arith
total_bytes-append (r ∷ samples) s = omega (arith, total_bytes-append samples s)

count_delivered-append :
    (samples : List Sample) (s : Sample)
    → count_delivered (samples ++ (s ∷ [])) ≡ count_delivered samples + (if s.lost then 0 else 1)
unfolding count_delivered
count_delivered-append [] s = omega arith
count_delivered-append (r ∷ samples) s = omega (arith, count_delivered-append samples s)

count_lost-append :
    (samples : List Sample) (s : Sample)
    → count_lost (samples ++ (s ∷ [])) ≡ count_lost samples + (if s.lost then 1 else 0)
unfolding count_lost
count_lost-append [] s = omega arith
count_lost-append (r ∷ samples) s = omega (arith, count_lost-append samples s)

enter_sample-InWindow :
    (low high frame bytes : ℕ) (lost : Bool) (w : SampleWindow)
    → InWindow low high w
    → high ≤ frame
    → InWindow low frame (enter_sample (record { frame = frame; bytes = bytes; lost = lost }) w)
unfolding enter_sample
enter_sample-InWindow low high frame bytes lost w v le =
    let s : Sample = record { frame = frame; bytes = bytes; lost = lost } in
    record {
      between = Between-append low high frame w.samples s v.between le refl;
      bytes_exact = omega (arith, v.bytes_exact, total_bytes-append w.samples s);
      delivered_exact = ground (arith, v.delivered_exact, count_delivered-append w.samples s);
      lost_exact = ground (arith, v.lost_exact, count_lost-append w.samples s);
    }

drop_samples-InWindow :
    (low high first : ℕ) (samples : List Sample) (bytes delivered lost : ℕ)
    → Between low high samples
    → first ≤ high
    → bytes ≡ total_bytes samples % 2 ^ 64
    → delivered ≡ count_delivered samples % 2 ^ 32
    → lost ≡ count_lost samples % 2 ^ 32
    → InWindow first high (drop_samples first samples bytes delivered lost)
unfolding drop_samples total_bytes count_delivered count_lost
drop_samples-InWindow low high first [] bytes delivered lost b le eb ed el = record {
  between = le;
  bytes_exact = eb;
  delivered_exact = ed;
  lost_exact = el;
}
drop_samples-InWindow low high first (old ∷ samples) bytes delivered lost b le eb ed el =
    elim (Bool-cases (ltb old.frame first)) [
      | inl before ↦
          let bytes_after : decrease (2 ^ 64) bytes old.bytes ≡ total_bytes samples % 2 ^ 64 =
            omega arith in
          let delivered_after : (if old.lost then delivered else decrease (2 ^ 32) delivered 1)
              ≡ count_delivered samples % 2 ^ 32 =
            ground arith in
          let lost_after : (if old.lost then decrease (2 ^ 32) lost 1 else lost)
              ≡ count_lost samples % 2 ^ 32 =
            ground arith in
          let ih =
            drop_samples-InWindow old.frame high first samples _ _ _ b.1 le bytes_after
              delivered_after lost_after in
          rw before ih
      | inr kept ↦ rw kept (record {
        between = (ground arith, b.1);
        bytes_exact = eb;
        delivered_exact = ed;
        lost_exact = el;
      })
    ]

-- When the samples are in order and the counters are their sums, then after a sample is pushed at a
-- frame not before the newest, the window holds, in order, only frames of the last
-- `sample_window_frames` up to this one, and the three counters are the sums over the samples held,
-- in 64 and in 32 bits.
pub push_sample-InWindow :
    (low high size frame bytes : ℕ) (lost : Bool) (w : SampleWindow)
    → InWindow low high w
    → high ≤ frame
    → InWindow (frame - size) frame (push_sample size frame bytes lost w)
unfolding push_sample first_retained_frame
push_sample-InWindow low high size frame bytes lost w v le =
    let entered = enter_sample-InWindow low high frame bytes lost w v le in
    let first : (if ltb size frame then frame - size else 0) ≡ frame - size = ground arith in
    let dropped =
      drop_samples-InWindow low frame (frame - size) _ _ _ _ entered.between (omega arith)
        entered.bytes_exact entered.delivered_exact entered.lost_exact in
    rw first dropped
