-- ===== src/Server/NetworkIds/Preserve.antt =====
-- The operations on the table of ids, and its invariant.
use ashiato_sync.Base.{
  ℕ, ◌^◌, ◌<◌, ◌≡◌, ◌≢◌, refl, sym, ap, ◌∙◌, ◌⊎◌, inl, inr, true, false, List, [], ◌∷◌, ◌++◌, some,
  arith, length, get_elem?, set, All, get_elem?-set_self, length-set, length-append, get_elem?_lt,
  Option-cases, Bool-cases, get_elem?-set_inv, get_elem?-append_inv, subst,
}
use ashiato_sync.Server.NetworkIds.{
  Entry, NetworkIds, blank, try_get, reserve_zero, free, mark_pending_destroy, next_version,
}
use ashiato_sync.Server.NetworkIds.Invariant.{
  IsValid, FreeChain, FreeChain-set, FreeChain-append, Distinct, Elem, busy_off_chain,
}

pub try_get_inv :
    (ids : NetworkIds) (i : ℕ) {e : Entry}
    → try_get ids i ≡ some e
    → (i ≢ 0) × (get_elem? ids.entries i ≡ some e)
unfolding try_get
try_get_inv ids i h = ground arith

pub try_get-some :
    (ids : NetworkIds) (i : ℕ) {e : Entry}
    → i ≢ 0
    → get_elem? ids.entries i ≡ some e
    → try_get ids i ≡ some e
unfolding try_get
try_get-some ids i ne h = ground (arith, get_elem?_lt ids.entries i h)

-- A write to entry `i` that keeps it off the chain.
pub set-IsValid :
    {ids : NetworkIds} (i : ℕ) (old new : Entry)
    → IsValid ids
    → get_elem? ids.entries i ≡ some old
    → (old.active ≡ true) ⊎ (old.pending_destroy ≡ true)
    → (new.active ≡ true) ⊎ (new.pending_destroy ≡ true)
    → (0 < new.version) × (new.version < 2 ^ 32)
    → IsValid (record ids { entries = set ids.entries i new })
set-IsValid {ids} i old new v found was stays version = record {
  idle = v.idle;
  chain = FreeChain-set ids.entries ids.free_network_id i new v.idle off v.chain;
  distinct = v.distinct;
  complete = λ j e ne at off kept. elim (get_elem?-set_inv ids.entries i j at) [
    | inl (_, q) ↦ ground arith
    | inr (_, at') ↦ v.complete j e ne at' off kept
  ];
  versioned = λ j e ne at. elim (get_elem?-set_inv ids.entries i j at) [
    | inl (_, q) ↦ ground arith
    | inr (_, at') ↦ v.versioned j e ne at'
  ];
  small = omega (arith, length-set ids.entries i new, v.small);
}
  where
    off : All (λ j. j ≢ i) v.idle
    off = busy_off_chain ids.entries ids.free_network_id i v.idle v.chain found was

-- Setting an id aside that is in use or already aside keeps a well-formed table well formed.
pub mark_pending_destroy-IsValid :
    {ids : NetworkIds} (i : ℕ) {e : Entry}
    → IsValid ids
    → try_get ids i ≡ some e
    → (e.active ≡ true) ⊎ (e.pending_destroy ≡ true)
    → IsValid (mark_pending_destroy ids i).1
unfolding mark_pending_destroy
mark_pending_destroy-IsValid {ids} i {e} v h busy =
    rw (h, mark_pending_destroy)
      (set-IsValid i e _ v at busy (inr refl) (v.versioned i e (try_get_inv ids i h).0 at))
  where
    at : get_elem? ids.entries i ≡ some e
    at = (try_get_inv ids i h).1

next_version-range : (n : ℕ) → (0 < next_version n) × (next_version n < 2 ^ 32)
unfolding next_version
next_version-range n = ground arith

release-IsValid :
    {ids : NetworkIds} (i : ℕ) (e : Entry) (version : ℕ)
    → IsValid ids
    → i ≢ 0
    → get_elem? ids.entries i ≡ some e
    → e.pending_destroy ≡ true
    → (0 < version) × (version < 2 ^ 32)
    → IsValid (record {
      entries = set ids.entries i (record {
        replicated_index_or_next_free_network_id = ids.free_network_id;
        version = version;
        active = false;
        pending_destroy = false;
      });
      free_network_id = i;
    })
release-IsValid {ids} i e version v ne at aside range = record {
  idle = i ∷ v.idle;
  chain = (
    refl,
    ne,
    (
      _,
      get_elem?-set_self ids.entries i _ (get_elem?_lt ids.entries i at),
      refl,
      refl,
      FreeChain-set ids.entries ids.free_network_id i _ v.idle off v.chain,
    ),
  );
  distinct = (off, v.distinct);
  complete = λ j f nej found idle kept. elim (get_elem?-set_inv ids.entries i j found) [
    | inl (q, _) ↦ inl q
    | inr (_, found') ↦ inr (v.complete j f nej found' idle kept)
  ];
  versioned = λ j f nej found. elim (get_elem?-set_inv ids.entries i j found) [
    | inl (_, q) ↦ ground arith
    | inr (_, found') ↦ v.versioned j f nej found'
  ];
  small = omega (arith, length-set ids.entries i _, v.small);
}
  where
    off : All (λ j. j ≢ i) v.idle
    off = busy_off_chain ids.entries ids.free_network_id i v.idle v.chain at (inr aside)

-- Giving any id back keeps a well-formed table well formed.
pub free-IsValid : {ids : NetworkIds} (i : ℕ) → IsValid ids → IsValid (free ids i)
unfolding free
free-IsValid {ids} i v = elim (Option-cases (try_get ids i)) [
  | inl e ↦ rw (e, free) v
  | inr (entry, e) ↦ elim (Bool-cases entry.pending_destroy) [
    | inl aside ↦
        rw (e, free)
          (rw aside (
            release-IsValid i entry (next_version entry.version) v (try_get_inv ids i e).0
              (try_get_inv ids i e).1 aside (next_version-range entry.version)))
    | inr other ↦ rw (e, free) (rw other v)
  ]
]

empty_chain : (h : ℕ) (is : List ℕ) → FreeChain [] h is → is ≡ []
empty_chain h [] c = refl
empty_chain h (i ∷ is) (_, _, (e, found, _, _, _)) = absurd (cc)

pub reserve_zero-IsValid :
    (es : List Entry) (h : ℕ)
    → IsValid (record { entries = es; free_network_id = h })
    → IsValid (record { entries = reserve_zero es; free_network_id = h })
unfolding reserve_zero
reserve_zero-IsValid [] h v = record {
  idle = [];
  chain = subst (λ l. FreeChain [] h l) (empty_chain h v.idle v.chain) v.chain;
  distinct = tt;
  complete =
      λ i e ne found off kept. absurd (ne (omega (arith, get_elem?_lt (blank ∷ []) i found)));
  versioned = λ i e ne found. absurd (ne (omega (arith, get_elem?_lt (blank ∷ []) i found)));
  small = omega arith;
}
reserve_zero-IsValid (e ∷ es) h v = v

-- A chain that does not start at 0 starts at an idle entry.
pub FreeChain-head :
    (es : List Entry) (h : ℕ) (is : List ℕ)
    → h ≢ 0
    → FreeChain es h is
    → (rest : List ℕ) × (e : Entry) × (is ≡ h ∷ rest)
      × (get_elem? es h ≡ some e)
      × (e.active ≡ false)
      × (e.pending_destroy ≡ false)
      × FreeChain es e.replicated_index_or_next_free_network_id rest
FreeChain-head es h [] ne c = absurd (ne c)
FreeChain-head es h (i ∷ is) ne (q, _, (e, found, off, kept, rest)) =
    (is, e, ap (λ k. k ∷ is) (sym q), ap (λ k. get_elem? es k) q ∙ found, off, kept, rest)

-- Taking the first entry off the chain.
pub reuse-IsValid :
    (ids : NetworkIds) (entry new : Entry) (rest : List ℕ) (v : IsValid ids)
    → ids.free_network_id ≢ 0
    → v.idle ≡ ids.free_network_id ∷ rest
    → FreeChain ids.entries entry.replicated_index_or_next_free_network_id rest
    → get_elem? ids.entries ids.free_network_id ≡ some entry
    → new.active ≡ true
    → new.version ≡ entry.version
    → IsValid (record {
      entries = set ids.entries ids.free_network_id new;
      free_network_id = entry.replicated_index_or_next_free_network_id;
    })
reuse-IsValid ids entry new rest v ne shape c at on same = record {
  idle = rest;
  chain = FreeChain-set ids.entries _ ids.free_network_id new rest apart.0 c;
  distinct = apart.1;
  complete = λ j e nej found off kept.
      elim (get_elem?-set_inv ids.entries ids.free_network_id j found) [
        | inl (_, q) ↦ ground arith
        | inr (nq, found') ↦ still nq (subst (Elem j) shape (v.complete j e nej found' off kept))
      ];
  versioned = λ j e nej found. elim (get_elem?-set_inv ids.entries ids.free_network_id j found) [
    | inl (_, q) ↦ ground (arith, v.versioned ids.free_network_id entry ne at)
    | inr (_, found') ↦ v.versioned j e nej found'
  ];
  small = omega (arith, length-set ids.entries ids.free_network_id new, v.small);
}
  where
    apart : Distinct (ids.free_network_id ∷ rest)
    apart = subst Distinct shape v.distinct

    still : {j : ℕ} → ids.free_network_id ≢ j → Elem j (ids.free_network_id ∷ rest) → Elem j rest
    still nq (inl q) = absurd (nq q)
    still nq (inr r) = r

pub append-IsValid :
    (ids : NetworkIds) (new : Entry)
    → IsValid ids
    → length ids.entries < 2 ^ 20
    → new.active ≡ true
    → new.version ≡ 1
    → IsValid (record ids { entries = ids.entries ++ (new ∷ []) })
append-IsValid ids new v room on one = record {
  idle = v.idle;
  chain = FreeChain-append ids.entries ids.free_network_id new v.idle v.chain;
  distinct = v.distinct;
  complete = λ j e nej found off kept. elim (get_elem?-append_inv ids.entries j found) [
    | inl (_, q) ↦ ground arith
    | inr found' ↦ v.complete j e nej found' off kept
  ];
  versioned = λ j e nej found. elim (get_elem?-append_inv ids.entries j found) [
    | inl (_, q) ↦ ground arith
    | inr found' ↦ v.versioned j e nej found'
  ];
  small = omega (arith, length-append ids.entries (new ∷ []));
}

pub mark_pending_destroy-taken :
    (ids : NetworkIds) (i : ℕ) {e : Entry}
    → try_get ids i ≡ some e
    → (mark_pending_destroy ids i).0 ≡ true
unfolding mark_pending_destroy
mark_pending_destroy-taken ids i h = rw (h, mark_pending_destroy) refl
