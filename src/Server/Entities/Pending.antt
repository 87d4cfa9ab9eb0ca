-- ===== src/Server/Entities/Pending.antt =====
-- The handles of the pending frames, and giving back those up to an acknowledged frame.
use ashiato_sync.Base.{
  count, count-append, ℕ, ◌≡◌, sym, ◌∙◌, List, [], ◌∷◌, ◌++◌, arith, leb, Bool-cases, inl, inr,
}
use ashiato_sync.Server.Frames.{FrameStore, release_quantized_frame}
use ashiato_sync.Server.Frames.Counts.{Counted}
use ashiato_sync.Server.Frames.Handles.{release-Counted}
use ashiato_sync.Server.Frames.Leaks.{NoneLeft, release-NoneLeft}
use ashiato_sync.Server.Entities.{PendingQuantizedFrame, release_pending_through}

abbrev pub pending_handles : List PendingQuantizedFrame → List ℕ
pending_handles [] = []
pending_handles (p ∷ ps) = p.quantized_frame ∷ pending_handles ps

-- The counts see a list of handles only through how often each is in it.
pub Counted-ext :
    {s : FrameStore} (refs refs' : List ℕ)
    → ((q : ℕ) → count q refs' ≡ count q refs)
    → Counted s refs
    → Counted s refs'
Counted-ext refs refs' same v = record {
  counted = λ q f at on. v.counted q f at on ∙ sym (same q);
  held = λ q ok pos. v.held q ok (omega (arith, same q));
  free = v.free;
  small = v.small;
}

pub count_middle : (q r : ℕ) (rs ts : List ℕ) → count q (rs ++ (r ∷ ts)) ≡ count q (r ∷ (rs ++ ts))
count_middle q r rs ts = omega (arith, count-append q rs (r ∷ ts), count-append q rs ts)

pub release_pending_through-Counted :
    (s : FrameStore) (frame : ℕ) (ps : List PendingQuantizedFrame) (refs : List ℕ)
    → Counted s (pending_handles ps ++ refs)
    → let (s', kept) = release_pending_through s frame ps in
      Counted s' (pending_handles kept ++ refs)
unfolding release_pending_through
release_pending_through-Counted s frame [] refs v = v
release_pending_through-Counted s frame (p ∷ ps) refs v = elim (Bool-cases (leb p.frame frame)) [
  | inl old ↦
      rw (old, release_pending_through)
        (release_pending_through-Counted (release_quantized_frame s p.quantized_frame) frame ps refs
          (release-Counted s p.quantized_frame (pending_handles ps ++ refs) v))
  | inr kept ↦
      rw (kept, release_pending_through)
        (Counted-ext _ _
          (λ q. sym (
            count_middle q p.quantized_frame
              (pending_handles (release_pending_through s frame ps).1) refs))
          (release_pending_through-Counted s frame ps (p.quantized_frame ∷ refs)
            (Counted-ext _ _ (λ q. count_middle q p.quantized_frame (pending_handles ps) refs) v)))
]

-- A handle may be read at the front or after others.
pub NoneLeft-middle :
    (s t : FrameStore) (r : ℕ) (xs ys refs : List ℕ)
    → NoneLeft s (xs ++ (r ∷ refs)) t (ys ++ (r ∷ refs))
    → NoneLeft s (r ∷ (xs ++ refs)) t (r ∷ (ys ++ refs))
NoneLeft-middle s t r xs ys refs left q (on, zero) =
    let (before, none_before) = left q (on, count_middle q r ys refs ∙ zero) in
    (before, sym (count_middle q r xs refs) ∙ none_before)

pub release_pending_through-NoneLeft :
    (s : FrameStore) (frame : ℕ) (ps : List PendingQuantizedFrame) (refs : List ℕ)
    → Counted s (pending_handles ps ++ refs)
    → let (s', kept) = release_pending_through s frame ps in
      NoneLeft s (pending_handles ps ++ refs) s' (pending_handles kept ++ refs)
unfolding release_pending_through
release_pending_through-NoneLeft s frame [] refs v = λ q unheld. unheld
release_pending_through-NoneLeft s frame (p ∷ ps) refs v = elim (Bool-cases (leb p.frame frame)) [
  | inl old ↦
      let rest = pending_handles ps ++ refs in
      let w = release-Counted s p.quantized_frame rest v in
      let first = release-NoneLeft s p.quantized_frame rest v in
      let others =
        release_pending_through-NoneLeft (release_quantized_frame s p.quantized_frame) frame ps refs
          w in
      rw (old, release_pending_through) (λ q unheld. first q (others q unheld))
  | inr kept ↦
      let w = Counted-ext _ _ (λ q. count_middle q p.quantized_frame (pending_handles ps) refs) v in
      rw (kept, release_pending_through)
        (NoneLeft-middle s (release_pending_through s frame ps).0 p.quantized_frame
          (pending_handles ps) (pending_handles (release_pending_through s frame ps).1) refs
          (release_pending_through-NoneLeft s frame ps (p.quantized_frame ∷ refs) w))
]
