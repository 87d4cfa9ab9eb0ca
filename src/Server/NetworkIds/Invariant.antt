-- ===== src/Server/NetworkIds/Invariant.antt =====
-- The invariant of the table: a free list that is a chain of the idle entries, each once.
use ashiato_sync.Base.{
  ℕ, ◌^◌, ◌≤◌, ◌<◌, ◌≡◌, ◌≢◌, refl, sym, ap, ◌∙◌, ◌⊎◌, true, false, List, [], ◌∷◌, ◌++◌, some,
  arith, length, get_elem?, set, All, get_elem?-set_ne, get_elem?-append_left, get_elem?_lt,
}
use ashiato_sync.Server.NetworkIds.{Entry, NetworkIds, no_ids}

-- `ids` are the entries that the free list visits from `head` on.
abbrev pub FreeChain : List Entry → ℕ → List ℕ → Type 0
FreeChain es head [] = head ≡ 0
FreeChain es head (i ∷ is) =
    (head ≡ i)
    × (i ≢ 0)
    × ((e : Entry) × (get_elem? es i ≡ some e)
        × (e.active ≡ false)
        × (e.pending_destroy ≡ false)
        × FreeChain es e.replicated_index_or_next_free_network_id is)

abbrev pub Distinct : List ℕ → Type 0
Distinct [] = Unit {0}
Distinct (i ∷ is) = All (λ j. j ≢ i) is × Distinct is

abbrev pub Elem : ℕ → List ℕ → Type 0
Elem i [] = ⊥
Elem i (j ∷ is) = (j ≡ i) ⊎ Elem i is

pub FreeChain-set :
    (es : List Entry) (h i : ℕ) (v : Entry) (is : List ℕ)
    → All (λ j. j ≢ i) is
    → FreeChain es h is
    → FreeChain (set es i v) h is
FreeChain-set es h i v [] far c = c
FreeChain-set es h i v (j ∷ is) far (eh, ne, (e, found, off, kept, rest)) = (
  eh,
  ne,
  (
    e,
    get_elem?-set_ne es i j v (λ q. far.0 (sym q)) ∙ found,
    off,
    kept,
    FreeChain-set es e.replicated_index_or_next_free_network_id i v is far.1 rest,
  ),
)

pub FreeChain-append :
    (es : List Entry) (h : ℕ) (v : Entry) (is : List ℕ)
    → FreeChain es h is
    → FreeChain (es ++ (v ∷ [])) h is
FreeChain-append es h v [] c = c
FreeChain-append es h v (j ∷ is) (eh, ne, (e, found, off, kept, rest)) = (
  eh,
  ne,
  (
    e,
    get_elem?-append_left es (v ∷ []) j (get_elem?_lt es j found) ∙ found,
    off,
    kept,
    FreeChain-append es e.replicated_index_or_next_free_network_id v is rest,
  ),
)

-- An entry in use, or waiting for its destruction, is not on the chain.
pub busy_off_chain :
    (es : List Entry) (h i : ℕ) {v : Entry} (is : List ℕ)
    → FreeChain es h is
    → get_elem? es i ≡ some v
    → (v.active ≡ true) ⊎ (v.pending_destroy ≡ true)
    → All (λ j. j ≢ i) is
busy_off_chain es h i [] c found busy = tt
busy_off_chain es h i {v} (j ∷ is) (eh, ne, (e, here, off, kept, rest)) found busy = (
  λ q. clash (some_eq (sym here ∙ ap (λ k. get_elem? es k) q ∙ found)),
  busy_off_chain es e.replicated_index_or_next_free_network_id i is rest found busy,
)
  where
    some_eq : some e ≡ some v → e ≡ v
    some_eq q = cc

    clash : e ≡ v → ⊥
    clash q = ground arith

pub record IsValid (ids : NetworkIds) : Type 0 where
  pub idle : List ℕ
  pub chain : FreeChain ids.entries ids.free_network_id idle
  pub distinct : Distinct idle
  -- No id leaks: an entry that is neither in use nor waiting is on the chain.
  pub complete :
      (i : ℕ) (e : Entry)
      → i ≢ 0
      → get_elem? ids.entries i ≡ some e
      → e.active ≡ false
      → e.pending_destroy ≡ false
      → Elem i idle
  pub versioned :
      (i : ℕ) (e : Entry)
      → i ≢ 0
      → get_elem? ids.entries i ≡ some e
      → (0 < e.version) × (e.version < 2 ^ 32)
  pub small : length ids.entries ≤ 2 ^ 20

pub no_ids-IsValid : IsValid no_ids
no_ids-IsValid = record {
  idle = [];
  chain = refl;
  distinct = tt;
  complete = λ i e ne found off kept. absurd (cc);
  versioned = λ i e ne found. absurd (cc);
  small = omega arith;
}
