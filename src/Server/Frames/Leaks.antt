-- ===== src/Server/Frames/Leaks.antt =====
-- The frames that are active without a handle, when one is taken or given back.
use ashiato_sync.Base.{
  count, count-cons_ne, count-cons_self, ℕ, ◌+◌, ◌-◌, ◌%◌, ◌^◌, ◌≡◌, ◌≢◌, refl, sym, ap, ◌∙◌, inl,
  inr, true, some, arith, ◌==◌, get_elem?, set, get_elem?-set_self, get_elem?-set_ne, get_elem?_lt,
  List, ◌∷◌, le-or-lt, ==→eq, ==_false→ne, Bool-cases, Option-cases, subst,
}
use ashiato_sync.Server.Frames.{
  QuantizedFrame, FrameStore, invalid_quantized_frame_id, retain_quantized_frame,
  release_quantized_frame, retire, quantized_frame_active,
}
use ashiato_sync.Server.Frames.Counts.{Counted}
use ashiato_sync.Server.Frames.Handles.{
  retire_frames, retain_eq, release_more, release_last, release_invalid,
}

-- A frame that is active although there is no handle on it.
abbrev pub Unheld : FrameStore → List ℕ → ℕ → Type 0
Unheld s refs q = (quantized_frame_active s q ≡ true) × (count q refs ≡ 0)

-- The frames that are active without a handle were so before.
abbrev pub NoneLeft : FrameStore → List ℕ → FrameStore → List ℕ → Type 0
NoneLeft s refs s' refs' = (q : ℕ) → Unheld s' refs' q → Unheld s refs q

active_frame :
    (s : FrameStore) (q : ℕ)
    → quantized_frame_active s q ≡ true
    → (f : QuantizedFrame) × (get_elem? s.quantized_frames q ≡ some f) × (f.active ≡ true)
unfolding quantized_frame_active
active_frame s q h = elim (Option-cases (get_elem? s.quantized_frames q)) [
  | inl e ↦ absurd (ground arith)
  | inr (f, e) ↦ (f, e, ground arith)
]

active_valid :
    (s : FrameStore) (refs : List ℕ) (q : ℕ)
    → Counted s refs
    → quantized_frame_active s q ≡ true
    → q ≢ invalid_quantized_frame_id
active_valid s refs q v h =
    let (f, at, on) = active_frame s q h in
    omega (arith, get_elem?_lt s.quantized_frames q at, v.small)

-- Setting one frame leaves the others as active as they are.
active-set_ne :
    (s t : FrameStore) (q k : ℕ) (g : QuantizedFrame)
    → t.quantized_frames ≡ set s.quantized_frames q g
    → q ≢ k
    → quantized_frame_active t k ≡ quantized_frame_active s k
unfolding quantized_frame_active
active-set_ne s t q k g e ne =
    rw (quantized_frame_active, e, get_elem?-set_ne s.quantized_frames q k g ne) refl

active-set_self :
    (s t : FrameStore) (q : ℕ) (f g : QuantizedFrame)
    → t.quantized_frames ≡ set s.quantized_frames q g
    → get_elem? s.quantized_frames q ≡ some f
    → quantized_frame_active t q ≡ g.active
unfolding quantized_frame_active
active-set_self s t q f g e at =
    rw
      (
        quantized_frame_active,
        e,
        get_elem?-set_self s.quantized_frames q g (get_elem?_lt s.quantized_frames q at),
      )
      refl

-- One frame is set and its handles change; it is not left active without a handle.
set-NoneLeft :
    (s t : FrameStore) (q : ℕ) (g : QuantizedFrame) (refs refs' : List ℕ)
    → t.quantized_frames ≡ set s.quantized_frames q g
    → ((p : ℕ) → p ≢ q → count p refs' ≡ count p refs)
    → (Unheld t refs' q → ⊥)
    → NoneLeft s refs t refs'
set-NoneLeft s t q g refs refs' e same gone k (on, zero) = elim (Bool-cases (q == k)) [
  | inl here ↦ absurd (gone (subst (λ (j : ℕ). Unheld t refs' j) (sym (==→eq q k here)) (on, zero)))
  | inr there ↦
      let ne = ==_false→ne q k there in
      (sym (active-set_ne s t q k g e ne) ∙ on, sym (same k (λ h. ne (sym h))) ∙ zero)
]

-- The frame of a handle that is given back is retired if no other handle is left.
pub release-NoneLeft :
    (s : FrameStore) (q : ℕ) (refs : List ℕ)
    → Counted s (q ∷ refs)
    → NoneLeft s (q ∷ refs) (release_quantized_frame s q) refs
release-NoneLeft s q refs v = elim (Bool-cases (q == invalid_quantized_frame_id)) [
  | inl e ↦
      let none_there = ==→eq q invalid_quantized_frame_id e in
      λ k (on, zero).
        let kept : release_quantized_frame s q ≡ s =
          subst (λ (j : ℕ). release_quantized_frame s j ≡ s) (sym none_there) (release_invalid s) in
        let still = ap (λ t. quantized_frame_active t k) (sym kept) ∙ on in
        let valid = active_valid s (q ∷ refs) k v still in
        (still, count-cons_ne q k refs (λ h. valid (h ∙ none_there)) ∙ zero)
  | inr ne ↦
      let valid = ==_false→ne q invalid_quantized_frame_id ne in
      let (f, at, on) = v.held q valid (omega (arith, count-cons_self q refs)) in
      let counts = v.counted q f at on ∙ count-cons_self q refs in
      let same : (p : ℕ) → p ≢ q → count p refs ≡ count p (q ∷ refs) =
        λ p other. sym (count-cons_ne q p refs other) in
      elim (le-or-lt f.ref_count 1) [
        | inl last ↦
            let one : f.ref_count ≡ 1 = omega arith in
            subst (λ t. NoneLeft s (q ∷ refs) t refs) (sym (release_last s q f at on valid one))
              (set-NoneLeft s (retire s q f 0) q _ (q ∷ refs) refs (retire_frames s q f 0) same
                (λ (still, zero).
                  let off = active-set_self s (retire s q f 0) q f _ (retire_frames s q f 0) at in
                  absurd (cc)))
        | inr more ↦
            subst (λ t. NoneLeft s (q ∷ refs) t refs) (sym (release_more s q f at on valid more))
              (set-NoneLeft s _ q (record f { ref_count = f.ref_count - 1 }) (q ∷ refs) refs refl
                same (λ (still, zero). absurd (omega arith)))
      ]
]

-- A frame that a handle is taken on has one.
pub retain-NoneLeft :
    (s : FrameStore) (q : ℕ) (refs : List ℕ)
    → Counted s refs
    → quantized_frame_active s q ≡ true
    → NoneLeft s refs (retain_quantized_frame s q) (q ∷ refs)
retain-NoneLeft s q refs v on =
    let (f, at, act) = active_frame s q on in
    subst (λ t. NoneLeft s refs t (q ∷ refs))
      (sym (retain_eq s q f at act (active_valid s refs q v on)))
      (set-NoneLeft s _ q (record f { ref_count = (f.ref_count + 1) % 2 ^ 32 }) refs (q ∷ refs) refl
        (λ p other. count-cons_ne q p refs other)
        (λ (still, zero). absurd (omega (arith, count-cons_self q refs))))
