-- ===== src/Bandwidth/Tests.antt =====
-- The window of samples on concrete inputs.
use ashiato_sync.Base.{refl, false, true, [], ◌∷◌, arith}
use ashiato_sync.Bandwidth.{SampleWindow, push_sample}
use ashiato_sync.Bandwidth.Window.{
  InWindow, push_sample-InWindow, total_bytes, count_delivered, count_lost,
}

-- A packet delivered at frame 4 and one lost at frame 9.
abbrev two_samples : SampleWindow
two_samples = record {
  samples =
      record { frame = 4; bytes = 100; lost = false }
      ∷ record { frame = 9; bytes = 0; lost = true }
      ∷ [];
  delivered_bytes = 100;
  delivered_packets = 1;
  lost_packets = 1;
}

two_samples-InWindow : InWindow 4 9 two_samples
unfolding total_bytes count_delivered count_lost
two_samples-InWindow = record {
  between = (omega arith, (omega arith, omega arith));
  bytes_exact = refl;
  delivered_exact = refl;
  lost_exact = refl;
}

push_sample-InWindow_example : InWindow 6 12 (push_sample 6 12 50 false two_samples)
push_sample-InWindow_example =
    push_sample-InWindow 4 9 6 12 50 false two_samples two_samples-InWindow (omega arith)
