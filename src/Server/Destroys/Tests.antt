-- ===== src/Server/Destroys/Tests.antt =====
-- The queue of destructions on concrete inputs.
use ashiato_sync.Base.{◌⊎◌, false, ◌≡◌, refl, List, [], ◌∷◌, true, any}
use ashiato_sync.Server.NetworkIds.{free}
use ashiato_sync.Server.NetworkIds.Invariant.{IsValid}
use ashiato_sync.Server.NetworkIds.Tests.{one_id, one_id-IsValid}
use ashiato_sync.Server.Destroys.{
  ClientDestroyState, same_destroy, enqueue, acknowledge, contains_ack_record,
}
use ashiato_sync.Server.Destroys.Queue.{
  Apart, enqueue-Apart, acknowledge_lem, Unmatched, FirstMatch,
}

abbrev waiting : List ClientDestroyState
waiting =
    record { entity = 7; frame = 5; reset_epoch = 0; network_id = 1; network_version = 1 } ∷ []

enqueue-Apart_example :
    Apart (enqueue waiting 7 6 2 1) × (any (same_destroy 7 2) (enqueue waiting 7 6 2 1) ≡ true)
enqueue-Apart_example = enqueue-Apart waiting 7 6 2 1 (refl, tt)

acknowledge_lem_example :
    let (taken, rest, ids') = acknowledge waiting one_id 7 5 in
    (taken ≡ contains_ack_record waiting 7 5)
    × IsValid ids'
    × (((taken ≡ false) × Unmatched 7 5 waiting × (rest ≡ waiting) × (ids' ≡ one_id))
        ⊎ ((taken ≡ true)
            × ((found : ClientDestroyState) × FirstMatch 7 5 waiting rest found
                × (ids' ≡ free one_id found.network_id))))
acknowledge_lem_example = acknowledge_lem waiting one_id 7 5 one_id-IsValid
