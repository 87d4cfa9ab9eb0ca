-- ===== src/Server/NetworkIds/Tests.antt =====
-- The table of network ids on concrete inputs.
use ashiato_sync.Base.{◌≡◌, ◌≢◌, inl, refl, [], ◌∷◌, true, false, some, arith, get_elem?}
use ashiato_sync.Server.NetworkIds.{
  Entry, NetworkIds, blank, no_ids, try_get, allocate, free, mark_pending_destroy,
}
use ashiato_sync.Server.NetworkIds.Invariant.{IsValid, no_ids-IsValid}
use ashiato_sync.Server.NetworkIds.Preserve.{free-IsValid, mark_pending_destroy-IsValid}
use ashiato_sync.Server.NetworkIds.Allocate.{Allocated, allocate-Allocated}
use ashiato_sync.Server.NetworkIds.Recycle.{recycle_version}

-- Id 1 is in use for slot 6.
abbrev pub in_use : Entry
in_use = record {
  replicated_index_or_next_free_network_id = 6;
  version = 1;
  active = true;
  pending_destroy = false;
}

abbrev pub one_id : NetworkIds
one_id = record { entries = blank ∷ in_use ∷ []; free_network_id = 0 }

allocate-Allocated_example : Allocated no_ids 6 1 one_id
unfolding allocate
allocate-Allocated_example = allocate-Allocated no_ids 6 no_ids-IsValid refl

pub one_id-IsValid : IsValid one_id
unfolding allocate
one_id-IsValid =
    (allocate-Allocated no_ids 6 {network_id = 1} {ids' = one_id} no_ids-IsValid refl).valid

waiting-IsValid : IsValid ((mark_pending_destroy one_id 1).1)
unfolding try_get
waiting-IsValid = mark_pending_destroy-IsValid 1 {e = in_use} one_id-IsValid refl (inl refl)

free-IsValid_example : IsValid (free (mark_pending_destroy one_id 1).1 1)
free-IsValid_example = free-IsValid 1 waiting-IsValid

recycle_version_example :
    let given_back = free (mark_pending_destroy one_id 1).1 1 in
    (ids' : NetworkIds) × (again : Entry) × (allocate given_back 9 ≡ some (1, ids'))
    × (get_elem? ids'.entries 1 ≡ some again)
    × (again.active ≡ true)
    × (again.version ≢ 1)
unfolding try_get
recycle_version_example = recycle_version one_id 1 9 in_use refl (omega arith) (omega arith)
