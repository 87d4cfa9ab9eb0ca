-- ===== src/Server/DirtyQueue/Listing.antt =====
-- The list of dirty indices, against the entries that are marked as listed.
use ashiato_sync.Base.{
  ℕ, zero, suc, ◌-◌, ◌≤◌, ◌<◌, ◌≡◌, ◌≢◌, refl, sym, ap, ◌∙◌, true, List, [], ◌∷◌, ◌++◌, Option,
  some, arith, ◌==◌, ltb, leb, if◌then◌else◌, length, get_elem?, set, Option-cases, Bool-cases, inl,
  inr, ◌⊎◌, ==→eq, ==_false→ne, count, count-append, count-cons_ne, count-cons_self, replicate,
  length-append, length-replicate, length-set, get_elem?-set_inv, get_elem?_lt, get_elem?-some,
  leb_false→lt, ltb→lt, ltb_false→le, le-or-lt,
}
use ashiato_sync.Server.Frames.{FrameStore}
use ashiato_sync.Server.Entities.{ClientEntityState}
use ashiato_sync.Server.DirtyQueue.{
  Entry, DirtyQueue, Floats, blank_entry, ensure_entries, marked, list_index, mark_dirty,
  clear_dirty, acknowledge_entry, acknowledge_dirty,
}

abbrev pub listings : {F : Type 0} → Entry F → ℕ
listings entry = if entry.listed then 1 else 0

pub record IsValid {F : Type 0} (queue : DirtyQueue F) : Type 0 where
  pub listed :
      (i : ℕ) (e : Entry F)
      → get_elem? queue.entries i ≡ some e
      → count i queue.dirty_replicated_indices ≡ listings e
  pub in_table : (i : ℕ) → 0 < count i queue.dirty_replicated_indices → i < length queue.entries

module _ {F : Type 0} where
  pub length-ensure_entries :
      (c : Floats F) (n : ℕ) (entries : List (Entry F))
      → (length entries ≤ length (ensure_entries c n entries))
        × (n ≤ length (ensure_entries c n entries))
  unfolding ensure_entries
  length-ensure_entries c n entries = elim (Bool-cases (ltb (length entries) n)) [
    | inl short ↦ rw short (
        omega (
          arith,
          ltb→lt _ _ short,
          length-append entries (replicate (n - length entries) (blank_entry c)),
          length-replicate (n - length entries) (blank_entry c),
        ))
    | inr long ↦ rw long (omega (arith, ltb_false→le _ _ long))
  ]

  replicated_entry :
      (c : Floats F) (n i : ℕ) {e : Entry F}
      → get_elem? (replicate n (blank_entry c)) i ≡ some e
      → e ≡ blank_entry c
  replicated_entry c zero i h = absurd (cc)
  replicated_entry c (suc n) zero h = cc
  replicated_entry c (suc n) (suc i) h = replicated_entry c n i h

  -- A larger table has the old entries and then blank ones.
  appended_entry :
      (c : Floats F) (entries : List (Entry F)) (n i : ℕ) {e : Entry F}
      → get_elem? (entries ++ replicate n (blank_entry c)) i ≡ some e
      → (get_elem? entries i ≡ some e) ⊎ ((e ≡ blank_entry c) × (length entries ≤ i))
  appended_entry c [] n i h = inr (replicated_entry c n i h, omega arith)
  appended_entry c (x ∷ xs) n zero h = inl h
  appended_entry c (x ∷ xs) n (suc i) h = elim (appended_entry c xs n i h) [
    | inl old ↦ inl old
    | inr (fresh, out) ↦ inr (fresh, omega arith)
  ]

  blank_listings : (c : Floats F) → listings (blank_entry c) ≡ 0
  unfolding blank_entry
  blank_listings c = refl

  ensure_entries-IsValid :
      (c : Floats F) (n : ℕ) (queue : DirtyQueue F)
      → IsValid queue
      → IsValid (record queue { entries = ensure_entries c n queue.entries })
  unfolding ensure_entries
  ensure_entries-IsValid c n queue v = elim (Bool-cases (ltb (length queue.entries) n)) [
    | inl short ↦ rw (short, ensure_entries) (grown (n - length queue.entries))
    | inr long ↦ rw (long, ensure_entries) v
  ]
    where
      grown :
          (k : ℕ)
          → IsValid (record queue { entries = queue.entries ++ replicate k (blank_entry c) })
      grown k = record {
        listed = λ i e found. elim (appended_entry c queue.entries k i found) [
          | inl old ↦ v.listed i e old
          | inr (fresh, out) ↦ unlisted i out ∙ sym (ap listings fresh ∙ blank_listings c)
        ];
        in_table = λ i pos.
            omega
              (arith, v.in_table i pos, length-append queue.entries (replicate k (blank_entry c)));
      }
        where
          unlisted : (i : ℕ) → length queue.entries ≤ i → count i queue.dirty_replicated_indices ≡ 0
          unlisted i out = elim (le-or-lt (count i queue.dirty_replicated_indices) 0) [
            | inl none_there ↦ omega arith
            | inr pos ↦ absurd (omega (arith, v.in_table i pos))
          ]

  -- A write that keeps the flag of the entry in step with the list.
  write-IsValid :
      (queue : DirtyQueue F) (index : ℕ) (old new : Entry F) (indices : List ℕ)
      → IsValid queue
      → get_elem? queue.entries index ≡ some old
      → count index indices ≡ listings new
      → ((i : ℕ) → i ≢ index → count i indices ≡ count i queue.dirty_replicated_indices)
      → IsValid
          (record { entries = set queue.entries index new; dirty_replicated_indices = indices })
  write-IsValid queue index old new indices v at here others = record {
    listed = λ i e found. elim (get_elem?-set_inv queue.entries index i found) [
      | inl (same, is_new) ↦ ap (λ k. count k indices) (sym same) ∙ here ∙ ap listings is_new
      | inr (ne, found') ↦ others i (λ q. ne (sym q)) ∙ v.listed i e found'
    ];
    in_table = λ i pos. elim (Bool-cases (i == index)) [
      | inl same ↦ omega (
        arith,
        ==→eq i index same,
        get_elem?_lt queue.entries index at,
        length-set queue.entries index new,
      )
      | inr ne ↦ omega (
        arith,
        v.in_table i (omega (arith, others i (==_false→ne i index ne))),
        length-set queue.entries index new,
      )
    ];
  }

  self-list_index :
      (index : ℕ) (entry : Entry F) (indices : List ℕ)
      → count index indices ≡ listings entry
      → count index (list_index index entry indices) ≡ 1
  unfolding list_index
  self-list_index index entry indices h =
      ground (arith, count-append index indices (index ∷ []), count-cons_self index [])

  others-list_index :
      (index : ℕ) (entry : Entry F) (indices : List ℕ) (i : ℕ)
      → i ≢ index
      → count i (list_index index entry indices) ≡ count i indices
  unfolding list_index
  others-list_index index entry indices i ne =
      ground (arith, count-append i indices (index ∷ []), count-cons_ne index i [] ne)

  -- Clearing an entry keeps its place in the list.
  pub clear_dirty-IsValid :
      (c : Floats F) (queue : DirtyQueue F) (index : ℕ)
      → IsValid queue
      → IsValid (clear_dirty c queue index)
  unfolding clear_dirty
  clear_dirty-IsValid c queue index v = elim (Option-cases (get_elem? queue.entries index)) [
    | inl out ↦ rw (out, clear_dirty) v
    | inr (entry, at) ↦
        rw (at, clear_dirty)
          (write-IsValid queue index entry (record (blank_entry c) { listed = entry.listed })
            queue.dirty_replicated_indices v at (v.listed index entry at) (λ i ne. refl))
  ]

  acknowledge_entry-listed :
      (c : Floats F) (frame : ℕ) (entry : Entry F)
      → (acknowledge_entry c frame entry).listed ≡ entry.listed
  unfolding acknowledge_entry
  acknowledge_entry-listed c frame entry = ground arith

  pub acknowledge_dirty-IsValid :
      (c : Floats F) (queue : DirtyQueue F) (index frame : ℕ)
      → IsValid queue
      → IsValid (acknowledge_dirty c queue index frame)
  unfolding acknowledge_dirty
  acknowledge_dirty-IsValid c queue index frame v =
      elim (Option-cases (get_elem? queue.entries index)) [
        | inl out ↦ rw (out, acknowledge_dirty) v
        | inr (entry, at) ↦
            rw (at, acknowledge_dirty)
              (write-IsValid queue index entry (acknowledge_entry c frame entry)
                queue.dirty_replicated_indices v at
                (v.listed index entry at
                  ∙ sym (ap (λ b. if b then 1 else 0) (acknowledge_entry-listed c frame entry)))
                (λ i ne. refl))
      ]

module _ {F P : Type 0} where
  marked-listed :
      (c : Floats F) (s : FrameStore) (state : Option (ClientEntityState F P)) (frame : ℕ)
      (entry : Entry F)
      → (marked c s state frame entry).listed ≡ true
  unfolding marked
  marked-listed c s state frame entry = ground arith

  -- When the list of dirty indices holds each listed entry once and no other index, it still does
  -- after any index is marked dirty.
  pub mark_dirty-IsValid :
      (c : Floats F) (s : FrameStore) (n : ℕ) (states : List (ClientEntityState F P))
      (queue : DirtyQueue F) (index frame : ℕ)
      → IsValid queue
      → IsValid (mark_dirty c s n states queue index frame)
  unfolding mark_dirty
  mark_dirty-IsValid c s n states queue index frame v = elim (Bool-cases (leb n index)) [
    | inl out ↦ rw (mark_dirty, out) v
    | inr inside ↦
        let entries = ensure_entries c n queue.entries in
        let lt : index < length entries =
          omega (arith, leb_false→lt _ _ inside, length-ensure_entries c n queue.entries) in
        let (entry, at) = get_elem?-some entries index lt in
        rw (mark_dirty, inside, at)
          (write-IsValid (record queue { entries = entries }) index entry
            (marked c s (get_elem? states index) frame entry)
            (list_index index entry queue.dirty_replicated_indices)
            (ensure_entries-IsValid c n queue v) at
            (listed_once entry at
              ∙ sym (
                  ap (λ b. if b then 1 else 0)
                    (marked-listed c s (get_elem? states index) frame entry)))
            (λ i ne. others-list_index index entry queue.dirty_replicated_indices i ne))
  ]
    where
      listed_once :
          (entry : Entry F)
          → get_elem? (ensure_entries c n queue.entries) index ≡ some entry
          → count index (list_index index entry queue.dirty_replicated_indices) ≡ 1
      listed_once entry at =
          self-list_index index entry queue.dirty_replicated_indices
            ((ensure_entries-IsValid c n queue v).listed index entry at)
