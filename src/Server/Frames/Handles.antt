-- ===== src/Server/Frames/Handles.antt =====
-- The counts when a handle on a frame is taken or given back.
use ashiato_sync.Base.{
  count-le-length, count-cons_ne, count-cons_self, ℕ, ◌+◌, ◌-◌, ◌%◌, ◌^◌, ◌<◌, ◌≡◌, ◌≢◌, refl, sym,
  ◌∙◌, inl, inr, true, false, some, arith, ◌==◌, length, get_elem?, set, get_elem?_lt, List, ◌∷◌,
  [], le-or-lt, ==→eq, ==_false→ne, Bool-cases, Option-cases, subst,
}
use ashiato_sync.Server.Frames.{
  QuantizedFrame, FrameStore, invalid_quantized_frame_id, retain_quantized_frame,
  release_quantized_frame, retire, clear_data, quantized_frame_active,
}
use ashiato_sync.Server.Frames.Counts.{Counted, recount-Counted, retire-Counted}

pub retire_frames :
    (s : FrameStore) (q : ℕ) (f : QuantizedFrame) (n : ℕ)
    → (retire s q f n).quantized_frames
      ≡ set s.quantized_frames q (record f {
        ref_count = n;
        active = false;
        contents = clear_data f.contents;
        dirty_generations = [];
      })
unfolding retire
retire_frames s q f n = refl

retire_free :
    (s : FrameStore) (q : ℕ) (f : QuantizedFrame) (n : ℕ)
    → (retire s q f n).free_quantized_frames ≡ q ∷ s.free_quantized_frames
unfolding retire
retire_free s q f n = refl

pub retain_eq :
    (s : FrameStore) (q : ℕ) (f : QuantizedFrame)
    → get_elem? s.quantized_frames q ≡ some f
    → f.active ≡ true
    → q ≢ invalid_quantized_frame_id
    → retain_quantized_frame s q ≡ record s {
      quantized_frames =
          set s.quantized_frames q (record f { ref_count = (f.ref_count + 1) % 2 ^ 32 });
    }
unfolding retain_quantized_frame
retain_eq s q f at on valid = ground arith

pub release_more :
    (s : FrameStore) (q : ℕ) (f : QuantizedFrame)
    → get_elem? s.quantized_frames q ≡ some f
    → f.active ≡ true
    → q ≢ invalid_quantized_frame_id
    → 1 < f.ref_count
    → release_quantized_frame s q ≡ record s {
      quantized_frames = set s.quantized_frames q (record f { ref_count = f.ref_count - 1 });
    }
unfolding release_quantized_frame
release_more s q f at on valid more = ground arith

pub release_last :
    (s : FrameStore) (q : ℕ) (f : QuantizedFrame)
    → get_elem? s.quantized_frames q ≡ some f
    → f.active ≡ true
    → q ≢ invalid_quantized_frame_id
    → f.ref_count ≡ 1
    → release_quantized_frame s q ≡ retire s q f 0
unfolding release_quantized_frame
release_last s q f at on valid one = ground arith

pub release_invalid : (s : FrameStore) → release_quantized_frame s invalid_quantized_frame_id ≡ s
unfolding release_quantized_frame
release_invalid s = ground arith

-- When the counts match the handles held, fewer than 2 ^ 32 - 1 of them, they still match after a
-- handle on an active frame is taken.
pub retain-Counted :
    (s : FrameStore) (q : ℕ) (refs : List ℕ)
    → Counted s refs
    → quantized_frame_active s q ≡ true
    → length refs < 2 ^ 32 - 1
    → Counted (retain_quantized_frame s q) (q ∷ refs)
unfolding quantized_frame_active
retain-Counted s q refs v on room = elim (Option-cases (get_elem? s.quantized_frames q)) [
  | inl e ↦ absurd (ground arith)
  | inr (f, e) ↦
      let act : f.active ≡ true = ground arith in
      let valid : q ≢ invalid_quantized_frame_id =
        omega (arith, get_elem?_lt s.quantized_frames q e, v.small) in
      subst (λ k. Counted k (q ∷ refs)) (sym (retain_eq s q f e act valid))
        (recount-Counted s q f (record f { ref_count = (f.ref_count + 1) % 2 ^ 32 }) refs (q ∷ refs)
          v e act act
          (omega (arith, v.counted q f e act, count-cons_self q refs, count-le-length q refs))
          (λ p ne. count-cons_ne q p refs ne))
]

-- The handle that stands for no frame counts nowhere.
forget_invalid :
    (s : FrameStore) (refs : List ℕ)
    → Counted s (invalid_quantized_frame_id ∷ refs)
    → Counted s refs
forget_invalid s refs v = record {
  counted = λ p f at on.
      v.counted p f at on
      ∙ count-cons_ne invalid_quantized_frame_id p refs
          (omega (arith, get_elem?_lt s.quantized_frames p at, v.small));
  held =
      λ p ok pos. v.held p ok (omega (arith, count-cons_ne invalid_quantized_frame_id p refs ok));
  free = v.free;
  small = v.small;
}

-- When the counts match the handles held, they match the remaining handles after one is given back:
-- the frame is retired only with its last handle.
pub release-Counted :
    (s : FrameStore) (q : ℕ) (refs : List ℕ)
    → Counted s (q ∷ refs)
    → Counted (release_quantized_frame s q) refs
release-Counted s q refs v = elim (Bool-cases (q == invalid_quantized_frame_id)) [
  | inl e ↦
      let none_there = ==→eq q invalid_quantized_frame_id e in
      subst (λ k. Counted (release_quantized_frame s k) refs) (sym none_there)
        (subst (λ k. Counted k refs) (sym (release_invalid s))
          (forget_invalid s refs (subst (λ k. Counted s (k ∷ refs)) none_there v)))
  | inr ne ↦
      let valid = ==_false→ne q invalid_quantized_frame_id ne in
      let (f, at, on) = v.held q valid (omega (arith, count-cons_self q refs)) in
      let counts = v.counted q f at on ∙ count-cons_self q refs in
      elim (le-or-lt f.ref_count 1) [
        | inl last ↦
            let one : f.ref_count ≡ 1 = omega arith in
            subst (λ k. Counted k refs) (sym (release_last s q f at on valid one))
              (retire-Counted s q f
                (record f {
                  ref_count = 0;
                  active = false;
                  contents = clear_data f.contents;
                  dirty_generations = [];
                })
                (q ∷ refs) refs (retire s q f 0) v at on refl (omega arith)
                (λ p other. sym (count-cons_ne q p refs other)) (retire_frames s q f 0)
                (retire_free s q f 0))
        | inr more ↦
            subst (λ k. Counted k refs) (sym (release_more s q f at on valid more))
              (recount-Counted s q f (record f { ref_count = f.ref_count - 1 }) (q ∷ refs) refs v at
                on on (omega arith) (λ p other. sym (count-cons_ne q p refs other)))
      ]
]
