-- ===== src/Server/Replicator/Tests.antt =====
-- The destruction of an entity and the acknowledgement of a frame, on a concrete client.
use ashiato_sync.Base.{ℕ, ◌≡◌, refl, true, [], ◌∷◌, any, false}
use ashiato_sync.Server.Frames.{invalid_quantized_frame_id}
use ashiato_sync.Server.NetworkIds.{try_get}
use ashiato_sync.Server.NetworkIds.Tests.{one_id, one_id-IsValid, in_use}
use ashiato_sync.Server.Entities.{ClientEntityState, all_components}
use ashiato_sync.Server.DirtyQueue.Tests.{
  numbers, empty_store, changed, one_dirty, one_dirty-IsValid,
}
use ashiato_sync.Server.Destroys.{same_destroy}
use ashiato_sync.Server.Replicator.{Replicator, enqueue_destroy, acknowledge_entity}
use ashiato_sync.Server.Replicator.Acknowledge.{Acknowledged, acknowledge_entity-Acknowledged}
use ashiato_sync.Server.Entities.Tests.{waiting}
use ashiato_sync.Server.Frames.Tests.{frame_five}
use ashiato_sync.Server.Replicator.Destroy.{IsValid, enqueue_destroy-IsValid}

-- The entity in slot 0 has the id 1.
abbrev known : ClientEntityState ℕ ℕ
known = record {
  baseline = invalid_quantized_frame_id;
  baseline_epoch = 0;
  network_id = 1;
  network_version = 1;
  last_priority = 0;
  component_mask = all_components;
  reference_priority_boost_pending = false;
  has_network_id = true;
  pending = [];
  pending_cues = [];
}

abbrev client : Replicator ℕ ℕ
client = record {
  entities = known ∷ [];
  dirty_queue = one_dirty;
  destroys = [];
  network_ids = one_id;
}

enqueue_destroy-IsValid_example :
    let (taken, s', after) = enqueue_destroy numbers empty_store client 0 7 9 in
    (taken ≡ true) × IsValid after × (any (same_destroy 7 1) after.destroys ≡ true)
unfolding try_get
enqueue_destroy-IsValid_example =
    enqueue_destroy-IsValid numbers empty_store client 0 7 9 {state = known} {e = in_use}
      (one_id-IsValid, one_dirty-IsValid, tt) refl refl refl

-- Frame 5 of the entity in slot 0 is pending, and the entity has changed since in frame 8.
abbrev sent : Replicator ℕ ℕ
sent = record client { entities = waiting ∷ [] }

acknowledge_entity-Acknowledged_example :
    let result = acknowledge_entity numbers (frame_five 1) sent 0 5 in
    IsValid (result.2) × Acknowledged (frame_five 1) sent 0 5 waiting changed result
acknowledge_entity-Acknowledged_example =
    acknowledge_entity-Acknowledged numbers (frame_five 1) sent 0 5 {state = waiting} {e = changed}
      (one_id-IsValid, one_dirty-IsValid, tt) refl refl
