-- ===== src/Server/Frames/Create.antt =====
-- A frame that `find_or_create_quantized_frame` makes.
use ashiato_sync.Base.{
  count, ℕ, ◌-◌, ◌^◌, ◌≤◌, ◌<◌, ◌≡◌, ◌≢◌, refl, sym, ap, ◌∙◌, inl, inr, true, false, some, arith,
  ◌==◌, length, get_elem?, set, get_elem?-set_self, length-set, get_elem?_lt, List, ◌∷◌, [], ◌++◌,
  le-or-lt, ==→eq, ==_false→ne, Bool-cases, length-append, get_elem?-set_ne, subst,
  get_elem?-append_left, get_elem?-append_ne,
}
use ashiato_sync.Server.Frames.{
  QuantizedFrame, QuantizedFrameData, FrameStore, invalid_quantized_frame_id,
  create_quantized_frame, quantized_frame_active, blank_frame,
}
use ashiato_sync.Server.Frames.Counts.{FreeOf, Counted, FreeOf-set}

-- A frame that no handle is on takes an index that is not in use.
place-Counted :
    (s t : FrameStore) (q : ℕ) (g : QuantizedFrame) (refs : List ℕ)
    → Counted s refs
    → ((p : ℕ) (f : QuantizedFrame)
        → p ≢ q
        → get_elem? t.quantized_frames p ≡ some f
        → get_elem? s.quantized_frames p ≡ some f)
    → ((p : ℕ) (f : QuantizedFrame)
        → p ≢ q
        → get_elem? s.quantized_frames p ≡ some f
        → get_elem? t.quantized_frames p ≡ some f)
    → get_elem? t.quantized_frames q ≡ some g
    → ((f : QuantizedFrame) → get_elem? s.quantized_frames q ≡ some f → f.active ≡ false)
    → g.ref_count ≡ 0
    → FreeOf t.quantized_frames t.free_quantized_frames
    → length t.quantized_frames ≤ 2 ^ 32 - 1
    → Counted t refs
place-Counted s t q g refs v old new here idle zero_count free small = record {
  counted = λ p f found on. elim (Bool-cases (p == q)) [
    | inl e ↦
        let same = ==→eq p q e in
        counted_here p f same (ap (λ k. get_elem? t.quantized_frames k) (sym same) ∙ found)
    | inr ne ↦ let other = ==_false→ne p q ne in v.counted p f (old p f other found) on
  ];
  held = λ p ok pos.
      let (f, found, on) = v.held p ok pos in
      elim (Bool-cases (p == q)) [
        | inl e ↦ absurd (held_here p (==→eq p q e) pos)
        | inr ne ↦ let other = ==_false→ne p q ne in (f, new p f other found, on)
      ];
  free = free;
  small = small;
}
  where
    unheld : count q refs ≡ 0
    unheld = elim (le-or-lt (count q refs) 0) [
      | inl z ↦ omega arith
      | inr pos ↦
          let valid : q ≢ invalid_quantized_frame_id =
            omega (arith, get_elem?_lt t.quantized_frames q here) in
          let (f, found, on) = v.held q valid pos in absurd (clash f on (idle f found))
    ]
      where
        clash : (f : QuantizedFrame) → f.active ≡ true → f.active ≡ false → ⊥
        clash f on off = cc

    counted_here :
        (p : ℕ) (f : QuantizedFrame)
        → p ≡ q
        → get_elem? t.quantized_frames q ≡ some f
        → f.ref_count ≡ count p refs
    counted_here p f e found =
        let counts = unheld in
        let moved = ap (λ k. count k refs) e in
        let same : f ≡ g = cc in
        ap (λ (k : QuantizedFrame). k.ref_count) same ∙ zero_count ∙ sym counts ∙ sym moved

    held_here : (p : ℕ) → p ≡ q → 0 < count p refs → ⊥
    held_here p e pos = omega (arith, unheld, ap (λ k. count k refs) e)

-- What the two sources of an index give.
create_reused :
    (s : FrameStore) (slot frame archetype : ℕ) (d : QuantizedFrameData) (gens rest : List ℕ)
    (index : ℕ) {made : ℕ × FrameStore}
    → s.free_quantized_frames ≡ index ∷ rest
    → create_quantized_frame s slot frame archetype d gens ≡ some made
    → (made.0 ≡ index)
      × (made.1.quantized_frames
          ≡ set s.quantized_frames index (record {
            slot = slot;
            frame = frame;
            archetype = archetype;
            ref_count = 0;
            active = true;
            contents = d;
            dirty_generations = gens;
          }))
      × (made.1.free_quantized_frames ≡ rest)
unfolding create_quantized_frame
create_reused s slot frame archetype d gens rest index e h = ground arith

create_fresh :
    (s : FrameStore) (slot frame archetype : ℕ) (d : QuantizedFrameData) (gens : List ℕ)
    {made : ℕ × FrameStore}
    → s.free_quantized_frames ≡ []
    → create_quantized_frame s slot frame archetype d gens ≡ some made
    → (made.0 ≡ length s.quantized_frames)
      × (made.1.quantized_frames
          ≡ set (s.quantized_frames ++ (blank_frame ∷ [])) (length s.quantized_frames) (record {
            slot = slot;
            frame = frame;
            archetype = archetype;
            ref_count = 0;
            active = true;
            contents = d;
            dirty_generations = gens;
          }))
      × (made.1.free_quantized_frames ≡ [])
unfolding create_quantized_frame
create_fresh s slot frame archetype d gens e h = ground arith

FreeOf-append :
    (frames : List QuantizedFrame) (f : QuantizedFrame) (qs : List ℕ)
    → FreeOf frames qs
    → FreeOf (frames ++ (f ∷ [])) qs
FreeOf-append frames f [] v = tt
FreeOf-append frames f (q ∷ qs) ((g, at, idle), once, rest) = (
  (g, get_elem?-append_left frames (f ∷ []) q (get_elem?_lt frames q at) ∙ at, idle),
  once,
  FreeOf-append frames f qs rest,
)

reused-Counted :
    (s t : FrameStore) (q : ℕ) (g : QuantizedFrame) (rest refs : List ℕ)
    → Counted s refs
    → s.free_quantized_frames ≡ q ∷ rest
    → t.quantized_frames ≡ set s.quantized_frames q g
    → t.free_quantized_frames ≡ rest
    → g.ref_count ≡ 0
    → Counted t refs
reused-Counted s t q g rest refs v listed frames free zero_count =
    let ((f, at, idle), once, others) = subst (FreeOf s.quantized_frames) listed v.free in
    place-Counted s t q g refs v
      (λ p h ne found.
        sym (get_elem?-set_ne s.quantized_frames q p g (λ e. ne (sym e)))
        ∙ sym (ap (λ k. get_elem? k p) frames)
        ∙ found)
      (λ p h ne found.
        ap (λ k. get_elem? k p) frames
        ∙ get_elem?-set_ne s.quantized_frames q p g (λ e. ne (sym e))
        ∙ found)
      (ap (λ k. get_elem? k q) frames
        ∙ get_elem?-set_self s.quantized_frames q g (get_elem?_lt s.quantized_frames q at))
      (λ h found. let same : h ≡ f = cc in ap (λ (k : QuantizedFrame). k.active) same ∙ idle)
      zero_count (rw (frames, free) (FreeOf-set s.quantized_frames q g rest once others))
      (rw frames (omega (arith, length-set s.quantized_frames q g, v.small)))

fresh-Counted :
    (s t : FrameStore) (g : QuantizedFrame) (refs : List ℕ)
    → Counted s refs
    → length s.quantized_frames < 2 ^ 32 - 1
    → s.free_quantized_frames ≡ []
    → t.quantized_frames
      ≡ set (s.quantized_frames ++ (blank_frame ∷ [])) (length s.quantized_frames) g
    → t.free_quantized_frames ≡ []
    → g.ref_count ≡ 0
    → Counted t refs
fresh-Counted s t g refs v room unused frames free zero_count =
    let n = length s.quantized_frames in
    let grown = s.quantized_frames ++ (blank_frame ∷ []) in
    let size = length-append s.quantized_frames (blank_frame ∷ []) in
    place-Counted s t n g refs v
      (λ p h ne found.
        sym (get_elem?-append_ne s.quantized_frames blank_frame p ne)
        ∙ sym (get_elem?-set_ne grown n p g (λ e. ne (sym e)))
        ∙ sym (ap (λ k. get_elem? k p) frames)
        ∙ found)
      (λ p h ne found.
        ap (λ k. get_elem? k p) frames
        ∙ get_elem?-set_ne grown n p g (λ e. ne (sym e))
        ∙ get_elem?-append_ne s.quantized_frames blank_frame p ne
        ∙ found)
      (ap (λ k. get_elem? k n) frames ∙ get_elem?-set_self grown n g (omega arith))
      (λ h found. absurd (omega (arith, get_elem?_lt s.quantized_frames n found))) zero_count
      (rw free tt) (rw frames (omega (arith, length-set grown n g)))

active_at :
    (t : FrameStore) (frames : List QuantizedFrame) (q i : ℕ) (g : QuantizedFrame)
    → t.quantized_frames ≡ set frames q g
    → q < length frames
    → i ≡ q
    → g.active ≡ true
    → quantized_frame_active t i ≡ true
unfolding quantized_frame_active
active_at t frames q i g eq lt same on =
    let here =
      ap (λ k. get_elem? t.quantized_frames k) same
      ∙ ap (λ k. get_elem? k q) eq
      ∙ get_elem?-set_self frames q g lt in
    ground arith

-- When the counts match the handles held and there are fewer than 2 ^ 32 - 1 frames, a frame that
-- is made is active and has a valid
-- index, and the counts still match the handles held.
pub create-Counted :
    (s : FrameStore) (slot frame archetype : ℕ) (d : QuantizedFrameData) (gens refs : List ℕ)
    {index : ℕ} {s' : FrameStore}
    → Counted s refs
    → length s.quantized_frames < 2 ^ 32 - 1
    → create_quantized_frame s slot frame archetype d gens ≡ some (index, s')
    → Counted s' refs
      × (quantized_frame_active s' index ≡ true)
      × (index ≢ invalid_quantized_frame_id)
unfolding quantized_frame_active
create-Counted s slot frame archetype d gens refs {index} {s'} v room h =
    split s.free_quantized_frames refl
  where
    Goal : Type 0
    Goal =
        Counted s' refs
        × (quantized_frame_active s' index ≡ true)
        × (index ≢ invalid_quantized_frame_id)

    split : (free : List ℕ) → s.free_quantized_frames ≡ free → Goal
    split [] e =
        let (at, frames, free) = create_fresh s slot frame archetype d gens e h in
        (
          fresh-Counted s s' _ refs v room e frames free refl,
          active_at s' _ (length s.quantized_frames) index _ frames
              (omega (arith, length-append s.quantized_frames (blank_frame ∷ []))) at refl,
          omega arith,
        )
    split (q ∷ rest) e =
        let (at, frames, free) = create_reused s slot frame archetype d gens rest q e h in
        let ((f, there, idle), _, _) = subst (FreeOf s.quantized_frames) e v.free in
        (
          reused-Counted s s' q _ rest refs v e frames free refl,
          active_at s' s.quantized_frames q index _ frames (get_elem?_lt s.quantized_frames q there)
              at refl,
          omega (arith, get_elem?_lt s.quantized_frames q there, v.small),
        )
