-- ===== src/Server/NetworkIds/Allocate.antt =====
-- The id that `allocate_for` hands out, and when it throws.
use ashiato_sync.Base.{
  ℕ, zero, suc, ◌≤◌, ◌<◌, ◌≡◌, ◌≢◌, refl, sym, ◌∙◌, ◌⊎◌, inl, inr, true, false, List, [], ◌∷◌, ◌++◌,
  Option, none, some, arith, ◌==◌, ltb, length, get_elem?, set, get_elem?-set_self,
  get_elem?-set_ne, get_elem?_lt, get_elem?-some, get_elem?-none, get_elem?-append_end, Bool-cases,
  get_or-some, get_elem?-append_ne, subst, ==_false→ne, ltb_false→le,
}
use ashiato_sync.Server.NetworkIds.{
  Entry, NetworkIds, blank, reserve_zero, allocate, max_client_local_wire_network_id,
}
use ashiato_sync.Server.NetworkIds.Invariant.{IsValid, FreeChain, Elem}
use ashiato_sync.Server.NetworkIds.Preserve.{
  reserve_zero-IsValid, FreeChain-head, reuse-IsValid, append-IsValid,
}

pub record Allocated (ids : NetworkIds) (slot network_id : ℕ) (ids' : NetworkIds) : Type 0 where
  pub valid : IsValid ids'
  pub in_range : (0 < network_id) × (network_id ≤ max_client_local_wire_network_id)
  pub was_idle :
      (e : Entry)
      → get_elem? ids.entries network_id ≡ some e
      → (e.active ≡ false) × (e.pending_destroy ≡ false)
  pub entry : Entry
  pub stored : get_elem? ids'.entries network_id ≡ some entry
  pub in_use : (entry.active ≡ true) × (entry.pending_destroy ≡ false)
  pub linked : entry.replicated_index_or_next_free_network_id ≡ slot
  pub others : (j : ℕ) → j ≢ 0 → j ≢ network_id → get_elem? ids'.entries j ≡ get_elem? ids.entries j

get_elem?-reserve_zero :
    (es : List Entry) (j : ℕ) → j ≢ 0 → get_elem? (reserve_zero es) j ≡ get_elem? es j
unfolding reserve_zero
get_elem?-reserve_zero [] zero ne = absurd (ne refl)
get_elem?-reserve_zero [] (suc j) ne = refl
get_elem?-reserve_zero (e ∷ es) j ne = refl

length-reserve_zero_pos : (es : List Entry) → 0 < length (reserve_zero es)
unfolding reserve_zero
length-reserve_zero_pos [] = omega arith
length-reserve_zero_pos (e ∷ es) = omega arith

-- The free list is not empty.
reuse-Allocated :
    (es : List Entry) (ids : NetworkIds) (slot : ℕ) (e new : Entry)
    → IsValid ids
    → ids.free_network_id ≢ 0
    → ((j : ℕ) → j ≢ 0 → get_elem? ids.entries j ≡ get_elem? es j)
    → get_elem? ids.entries ids.free_network_id ≡ some e
    → new ≡ record e {
      replicated_index_or_next_free_network_id = slot;
      active = true;
      pending_destroy = false;
    }
    → Allocated
        (record { entries = es; free_network_id = ids.free_network_id })
        slot
        ids.free_network_id
        (record {
          entries = set ids.entries ids.free_network_id new;
          free_network_id = e.replicated_index_or_next_free_network_id;
        })
reuse-Allocated es ids slot e new v ne same at shape =
    let (rest, e', listed, at', off, kept, chain) =
      FreeChain-head ids.entries ids.free_network_id v.idle ne v.chain in
    let one : e' ≡ e = cc in
    let in_table = get_elem?_lt ids.entries ids.free_network_id at in
    record {
      valid =
          reuse-IsValid ids e new rest v ne listed
            (subst
              (λ (k : Entry). FreeChain ids.entries k.replicated_index_or_next_free_network_id rest)
              one chain)
            at (ground arith) (ground arith);
      in_range = (omega arith, omega (arith, v.small));
      was_idle = λ f found. let here = same ids.free_network_id ne in (ground arith, ground arith);
      entry = new;
      stored = get_elem?-set_self ids.entries ids.free_network_id new in_table;
      in_use = ground arith;
      linked = ground arith;
      others = λ j nej other.
          get_elem?-set_ne ids.entries ids.free_network_id j new (λ q. other (sym q)) ∙ same j nej;
    }

append-Allocated :
    (es : List Entry) (ids : NetworkIds) (slot : ℕ) (new : Entry)
    → IsValid ids
    → 0 < length ids.entries
    → length ids.entries ≤ max_client_local_wire_network_id
    → ((j : ℕ) → j ≢ 0 → get_elem? ids.entries j ≡ get_elem? es j)
    → new ≡ record {
      replicated_index_or_next_free_network_id = slot;
      version = 1;
      active = true;
      pending_destroy = false;
    }
    → Allocated
        (record { entries = es; free_network_id = ids.free_network_id })
        slot
        (length ids.entries)
        (record ids { entries = ids.entries ++ (new ∷ []) })
append-Allocated es ids slot new v pos room same shape = record {
  valid = append-IsValid ids new v (omega arith) (ground arith) (ground arith);
  in_range = (omega arith, omega arith);
  was_idle = λ f found. absurd (none_there f found);
  entry = new;
  stored = get_elem?-append_end ids.entries new;
  in_use = ground arith;
  linked = ground arith;
  others = λ j nej other. get_elem?-append_ne ids.entries new j other ∙ same j nej;
}
  where
    none_there : (f : Entry) → get_elem? es (length ids.entries) ≡ some f → ⊥
    none_there f found =
        let here = same (length ids.entries) (omega arith) in
        let out = get_elem?-none ids.entries (length ids.entries) (omega arith) in cc

-- The branches of `allocate`.
allocate_full :
    (ids : NetworkIds) (slot : ℕ)
    → (ids.free_network_id == 0) ≡ true
    → ltb max_client_local_wire_network_id (length (reserve_zero ids.entries)) ≡ true
    → allocate ids slot ≡ none
unfolding allocate
allocate_full ids slot z over = ground arith

allocate_new :
    (ids : NetworkIds) (slot : ℕ)
    → (ids.free_network_id == 0) ≡ true
    → ltb max_client_local_wire_network_id (length (reserve_zero ids.entries)) ≡ false
    → allocate ids slot
      ≡ some (
        length (reserve_zero ids.entries),
        record ids {
          entries =
              reserve_zero ids.entries
              ++ (record {
                replicated_index_or_next_free_network_id = slot;
                version = 1;
                active = true;
                pending_destroy = false;
              }
                  ∷ []);
        },
      )
unfolding allocate
allocate_new ids slot z room = ground arith

pub allocate_reuse :
    (ids : NetworkIds) (slot : ℕ) (e : Entry)
    → (ids.free_network_id == 0) ≡ false
    → get_elem? (reserve_zero ids.entries) ids.free_network_id ≡ some e
    → allocate ids slot
      ≡ some (
        ids.free_network_id,
        record {
          entries = set (reserve_zero ids.entries) ids.free_network_id (record e {
            replicated_index_or_next_free_network_id = slot;
            active = true;
            pending_destroy = false;
          });
          free_network_id = e.replicated_index_or_next_free_network_id;
        },
      )
unfolding allocate
allocate_reuse ids slot e ne at =
    ground (arith, get_or-some (reserve_zero ids.entries) ids.free_network_id blank at)

allocate-none :
    (ids : NetworkIds) (slot : ℕ)
    → allocate ids slot ≡ none
    → (ids.free_network_id ≡ 0)
      × (max_client_local_wire_network_id < length (reserve_zero ids.entries))
unfolding allocate
allocate-none ids slot h = (ground arith, ground arith)

zero_chain : (es : List Entry) (h : ℕ) (is : List ℕ) → h ≡ 0 → FreeChain es h is → is ≡ []
zero_chain es h [] z c = refl
zero_chain es h (i ∷ is) z (q, ne, rest) = absurd (ne (sym q ∙ z))

-- What a result of `allocate` has to be.
abbrev Fits : NetworkIds → ℕ → Option (ℕ × NetworkIds) → Type 0
Fits ids slot none = Unit
Fits ids slot (some (network_id, ids')) = Allocated ids slot network_id ids'

allocate-Fits : (ids : NetworkIds) (slot : ℕ) → IsValid ids → Fits ids slot (allocate ids slot)
allocate-Fits ids slot v = elim (Bool-cases (ids.free_network_id == 0)) [
  | inl z ↦ elim (Bool-cases (ltb max_client_local_wire_network_id (length table.entries))) [
    | inl over ↦ subst (Fits ids slot) (sym (allocate_full ids slot z over)) tt
    | inr room ↦ subst (Fits ids slot) (sym (allocate_new ids slot z room)) (
        append-Allocated ids.entries table slot _ w (length-reserve_zero_pos ids.entries)
          (ltb_false→le _ _ room) (get_elem?-reserve_zero ids.entries) refl)
  ]
  | inr ne ↦
      let start = ==_false→ne ids.free_network_id 0 ne in
      let head = FreeChain-head table.entries table.free_network_id w.idle start w.chain in
      subst (Fits ids slot) (sym (allocate_reuse ids slot head.1 ne head.3)) (
        reuse-Allocated ids.entries table slot head.1 _ w start (get_elem?-reserve_zero ids.entries)
          head.3 refl)
]
  where
    table : NetworkIds
    table = record ids { entries = reserve_zero ids.entries }

    w : IsValid table
    w = reserve_zero-IsValid ids.entries ids.free_network_id v

-- An allocation from a well-formed table, when it gives an id, gives one in 1 to 2 ^ 20 - 1 that
-- was neither in use nor waiting; its entry is now in use for the slot, all other entries but 0 are
-- as they were, and the table stays well formed.
pub allocate-Allocated :
    (ids : NetworkIds) (slot : ℕ) {network_id : ℕ} {ids' : NetworkIds}
    → IsValid ids
    → allocate ids slot ≡ some (network_id, ids')
    → Allocated ids slot network_id ids'
allocate-Allocated ids slot v h = subst (Fits ids slot) h (allocate-Fits ids slot v)

-- The allocation throws only when each id of the range is in use or waits for its destruction.
pub allocate_exhausted :
    (ids : NetworkIds) (slot i : ℕ)
    → IsValid ids
    → allocate ids slot ≡ none
    → 0 < i
    → i ≤ max_client_local_wire_network_id
    → (e : Entry) × (get_elem? ids.entries i ≡ some e)
      × ((e.active ≡ true) ⊎ (e.pending_destroy ≡ true))
allocate_exhausted ids slot i v h pos le =
    let (z, full) = allocate-none ids slot h in
    let (e, found) = get_elem?-some (reserve_zero ids.entries) i (omega arith) in
    let here = sym (get_elem?-reserve_zero ids.entries i (omega arith)) ∙ found in
    (e, here, busy z e here)
  where
    busy :
        ids.free_network_id ≡ 0
        → (e : Entry) → get_elem? ids.entries i ≡ some e
        → (e.active ≡ true) ⊎ (e.pending_destroy ≡ true)
    busy z e here = elim (Bool-cases e.active) [
      | inl on ↦ inl on
      | inr off ↦ elim (Bool-cases e.pending_destroy) [
        | inl aside ↦ inr aside
        | inr kept ↦ absurd (
            subst (Elem i) (zero_chain ids.entries ids.free_network_id v.idle z v.chain)
              (v.complete i e (omega arith) here off kept))
      ]
    ]
