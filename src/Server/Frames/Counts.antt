-- ===== src/Server/Frames/Counts.antt =====
-- The reference counts: `refs` lists the handles that clients hold, as often as they hold them.
use ashiato_sync.Base.{
  count, ℕ, ◌-◌, ◌^◌, ◌≤◌, ◌<◌, ◌≡◌, ◌≢◌, refl, sym, ap, ◌∙◌, inl, inr, true, false, some, arith,
  ◌==◌, length, get_elem?, set, get_elem?-set_self, length-set, get_elem?_lt, List, ◌∷◌, [], ==→eq,
  ==_false→ne, get_elem?-set_inv, Bool-cases, get_elem?-set_ne, subst,
}
use ashiato_sync.Server.Frames.{
  QuantizedFrame, FrameStore, invalid_quantized_frame_id, quantized_frame_active,
}

-- Indices of the free list are of retired frames, each listed once.
abbrev pub FreeOf : List QuantizedFrame → List ℕ → Type 0
FreeOf frames [] = Unit {0}
FreeOf frames (q ∷ qs) =
    ((f : QuantizedFrame) × (get_elem? frames q ≡ some f) × (f.active ≡ false))
    × (count q qs ≡ 0)
    × FreeOf frames qs

-- Each count is the number of handles, and no handle is of a retired frame.
pub record Counted (s : FrameStore) (refs : List ℕ) : Type 0 where
  pub counted :
      (q : ℕ) (f : QuantizedFrame)
      → get_elem? s.quantized_frames q ≡ some f
      → f.active ≡ true
      → f.ref_count ≡ count q refs
  pub held :
      (q : ℕ)
      → q ≢ invalid_quantized_frame_id
      → 0 < count q refs
      → (f : QuantizedFrame) × (get_elem? s.quantized_frames q ≡ some f) × (f.active ≡ true)
  pub free : FreeOf s.quantized_frames s.free_quantized_frames
  pub small : length s.quantized_frames ≤ 2 ^ 32 - 1

pub FreeOf-set :
    (frames : List QuantizedFrame) (q : ℕ) (f : QuantizedFrame) (qs : List ℕ)
    → count q qs ≡ 0
    → FreeOf frames qs
    → FreeOf (set frames q f) qs
FreeOf-set frames q f [] off v = tt
FreeOf-set frames q f (p ∷ qs) off ((g, at, idle), once, rest) = (
  (g, get_elem?-set_ne frames q p f (λ e. ground arith) ∙ at, idle),
  once,
  FreeOf-set frames q f qs (ground arith) rest,
)

-- A frame that is active is not on the free list.
pub active_not_free :
    (frames : List QuantizedFrame) (q : ℕ) (f : QuantizedFrame) (qs : List ℕ)
    → get_elem? frames q ≡ some f
    → f.active ≡ true
    → FreeOf frames qs
    → count q qs ≡ 0
active_not_free frames q f [] at on v = refl
active_not_free frames q f (p ∷ qs) at on ((g, at', idle), once, rest) =
    elim (Bool-cases (p == q)) [
      | inl e ↦ absurd (clash (ground arith))
      | inr ne ↦ rw ne (omega (arith, active_not_free frames q f qs at on rest))
    ]
  where
    clash : p ≡ q → ⊥
    clash e =
        let same : some g ≡ some f = sym at' ∙ ap (λ k. get_elem? frames k) e ∙ at in ground arith

-- A new count for an active frame, when the handles on the other frames stay.
pub recount-Counted :
    (s : FrameStore) (q : ℕ) (f g : QuantizedFrame) (refs refs' : List ℕ)
    → Counted s refs
    → get_elem? s.quantized_frames q ≡ some f
    → f.active ≡ true
    → g.active ≡ true
    → g.ref_count ≡ count q refs'
    → ((p : ℕ) → p ≢ q → count p refs' ≡ count p refs)
    → Counted (record s { quantized_frames = set s.quantized_frames q g }) refs'
recount-Counted s q f g refs refs' v at on on' fits same = record {
  counted = λ p h found act. elim (get_elem?-set_inv s.quantized_frames q p found) [
    | inl (e, same_frame) ↦
        ap (λ (k : QuantizedFrame). k.ref_count) (sym same_frame) ∙ fits ∙ ap (λ k. count k refs') e
    | inr (ne, found') ↦ v.counted p h found' act ∙ sym (same p (λ e. ne (sym e)))
  ];
  held = λ p ok pos. elim (Bool-cases (q == p)) [
    | inl e ↦ (
      g,
      ap (λ k. get_elem? (set s.quantized_frames q g) k) (sym (==→eq q p e))
          ∙ get_elem?-set_self s.quantized_frames q g (get_elem?_lt s.quantized_frames q at),
      on',
    )
    | inr ne ↦
        let other = ==_false→ne q p ne in
        let (h, found, act) = v.held p ok (omega (arith, same p (λ e. other (sym e)))) in
        (h, get_elem?-set_ne s.quantized_frames q p g other ∙ found, act)
  ];
  free =
      FreeOf-set s.quantized_frames q g s.free_quantized_frames
        (active_not_free s.quantized_frames q f s.free_quantized_frames at on v.free) v.free;
  small = omega (arith, length-set s.quantized_frames q g, v.small);
}

-- An active frame without handles is retired to the free list.
pub retire-Counted :
    (s : FrameStore) (q : ℕ) (f g : QuantizedFrame) (refs refs' : List ℕ) (store : FrameStore)
    → Counted s refs
    → get_elem? s.quantized_frames q ≡ some f
    → f.active ≡ true
    → g.active ≡ false
    → count q refs' ≡ 0
    → ((p : ℕ) → p ≢ q → count p refs' ≡ count p refs)
    → store.quantized_frames ≡ set s.quantized_frames q g
    → store.free_quantized_frames ≡ q ∷ s.free_quantized_frames
    → Counted store refs'
retire-Counted s q f g refs refs' store v at on off none_left same eq_frames eq_free = record {
  counted = λ p h found act.
      elim (get_elem?-set_inv s.quantized_frames q p
        (subst (λ k. get_elem? k p ≡ some h) eq_frames found)) [
          | inl (e, same_frame) ↦ absurd (ground arith)
          | inr (ne, found') ↦ v.counted p h found' act ∙ sym (same p (λ e. ne (sym e)))
        ];
  held = λ p ok pos. elim (Bool-cases (q == p)) [
    | inl e ↦ absurd (gone p (==→eq q p e) pos)
    | inr ne ↦
        let other = ==_false→ne q p ne in
        let (h, found, act) = v.held p ok (omega (arith, same p (λ e. other (sym e)))) in
        (
          h,
          ap (λ k. get_elem? k p) eq_frames
              ∙ get_elem?-set_ne s.quantized_frames q p g other
              ∙ found,
          act,
        )
  ];
  free =
      rw (eq_frames, eq_free)
        (here, off_list, FreeOf-set s.quantized_frames q g s.free_quantized_frames off_list v.free);
  small = rw eq_frames (omega (arith, length-set s.quantized_frames q g, v.small));
}
  where
    gone : (p : ℕ) → q ≡ p → 0 < count p refs' → ⊥
    gone p e pos = omega (arith, ap (λ k. count k refs') e)

    off_list : count q s.free_quantized_frames ≡ 0
    off_list = active_not_free s.quantized_frames q f s.free_quantized_frames at on v.free

    here :
        (h : QuantizedFrame) × (get_elem? (set s.quantized_frames q g) q ≡ some h)
        × (h.active ≡ false)
    here =
        (g, get_elem?-set_self s.quantized_frames q g (get_elem?_lt s.quantized_frames q at), off)

pub active_at_index :
    (s : FrameStore) (q : ℕ) (f : QuantizedFrame)
    → get_elem? s.quantized_frames q ≡ some f
    → f.active ≡ true
    → quantized_frame_active s q ≡ true
unfolding quantized_frame_active
active_at_index s q f at on = ground arith
