-- ===== src/Server/NetworkIds/Recycle.antt =====
-- The life of an id: set aside, given back, and handed out again under another version.
use ashiato_sync.Base.{
  ℕ, ◌^◌, ◌<◌, ◌≡◌, ◌≢◌, refl, sym, ap, ◌∙◌, true, false, some, arith, get_elem?, set,
  get_elem?-set_self, get_elem?_lt, subst, List, ◌∷◌, [], ne→==_false,
}
use ashiato_sync.Server.NetworkIds.{
  Entry, NetworkIds, try_get, reserve_zero, allocate, free, mark_pending_destroy, next_version,
  invalid_replicated_index_or_free_network_id,
}
use ashiato_sync.Server.NetworkIds.Preserve.{try_get_inv, try_get-some}
use ashiato_sync.Server.NetworkIds.Allocate.{allocate_reuse}

-- A version that is in range is followed by another one.
pub next_version-ne :
    (version : ℕ) → 0 < version → version < 2 ^ 32 → next_version version ≢ version
unfolding next_version
next_version-ne version pos lt = ground arith

mark_entry :
    (ids : NetworkIds) (i : ℕ) (e : Entry)
    → try_get ids i ≡ some e
    → try_get (mark_pending_destroy ids i).1 i
      ≡ some (record e {
        replicated_index_or_next_free_network_id = invalid_replicated_index_or_free_network_id;
        active = false;
        pending_destroy = true;
      })
unfolding mark_pending_destroy
mark_entry ids i e h =
    let (ne, at) = try_get_inv ids i h in
    rw (h, mark_pending_destroy)
      (try_get-some _ i ne (get_elem?-set_self ids.entries i _ (get_elem?_lt ids.entries i at)))

free_entry :
    (ids : NetworkIds) (i : ℕ) (e : Entry)
    → try_get ids i ≡ some e
    → e.pending_destroy ≡ true
    → ((free ids i).free_network_id ≡ i)
      × (get_elem? (free ids i).entries i
          ≡ some (record {
            replicated_index_or_next_free_network_id = ids.free_network_id;
            version = next_version e.version;
            active = false;
            pending_destroy = false;
          }))
unfolding free
free_entry ids i e h aside =
    let (ne, at) = try_get_inv ids i h in
    (
      rw (h, free) (rw aside),
      rw (h, free) (rw aside (get_elem?-set_self ids.entries i _ (get_elem?_lt ids.entries i at))),
    )

reserve_zero-free :
    (ids : NetworkIds) (i : ℕ) (e : Entry)
    → get_elem? ids.entries i ≡ some e
    → reserve_zero ids.entries ≡ ids.entries
unfolding reserve_zero
reserve_zero-free ids i e at = nonempty ids.entries at
  where
    nonempty : (es : List Entry) → get_elem? es i ≡ some e → reserve_zero es ≡ es
    nonempty [] at = absurd (cc)
    nonempty (x ∷ es) at = refl

-- The first id on the free list is the next to be handed out.
take_head :
    (ids : NetworkIds) (i slot : ℕ) (e : Entry)
    → i ≢ 0
    → ids.free_network_id ≡ i
    → get_elem? ids.entries i ≡ some e
    → (ids' : NetworkIds) × (allocate ids slot ≡ some (i, ids'))
      × (get_elem? ids'.entries i
          ≡ some (record e {
            replicated_index_or_next_free_network_id = slot;
            active = true;
            pending_destroy = false;
          }))
take_head ids i slot e ne head at =
    let table = reserve_zero ids.entries in
    let full = reserve_zero-free ids i e at in
    let start : get_elem? table i ≡ some e = ap (λ es. get_elem? es i) full ∙ at in
    (
      record {
        entries = set table i (record e {
          replicated_index_or_next_free_network_id = slot;
          active = true;
          pending_destroy = false;
        });
        free_network_id = e.replicated_index_or_next_free_network_id;
      },
      subst
          (λ k.
            allocate ids slot
            ≡ some (
              k,
              record {
                entries = set table k (record e {
                  replicated_index_or_next_free_network_id = slot;
                  active = true;
                  pending_destroy = false;
                });
                free_network_id = e.replicated_index_or_next_free_network_id;
              },
            ))
          head
          (allocate_reuse ids slot e (ne→==_false ids.free_network_id 0 (λ z. ne (sym head ∙ z)))
            (ap (λ k. get_elem? table k) head ∙ start)),
      get_elem?-set_self table i _ (get_elem?_lt table i start),
    )

-- An id with a version in 1 to 2 ^ 32 - 1 that is set aside and given back is the next to be handed
-- out, to any slot; its entry is then in use, with another version than before.
pub recycle_version :
    (ids : NetworkIds) (i slot : ℕ) (e : Entry)
    → try_get ids i ≡ some e
    → 0 < e.version
    → e.version < 2 ^ 32
    → let given_back = free (mark_pending_destroy ids i).1 i in
      (ids' : NetworkIds) × (again : Entry) × (allocate given_back slot ≡ some (i, ids'))
      × (get_elem? ids'.entries i ≡ some again)
      × (again.active ≡ true)
      × (again.version ≢ e.version)
recycle_version ids i slot e h pos lt =
    let aside = (mark_pending_destroy ids i).1 in
    let (head, at) = free_entry aside i _ (mark_entry ids i e h) refl in
    let (ids', taken, stored) = take_head (free aside i) i slot _ (try_get_inv ids i h).0 head at in
    (ids', _, taken, stored, refl, next_version-ne e.version pos lt)
