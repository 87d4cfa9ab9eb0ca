-- ===== src/Server/Replicator/Destroy.antt =====
-- The destruction of an entity, on every part of the client.
use ashiato_sync.Base.{ℕ, ◌≡◌, refl, true, inl, some, get_elem?, any}
use ashiato_sync.Server.Frames.{FrameStore}
use ashiato_sync.Server.NetworkIds.{Entry, try_get}
use ashiato_sync.Server.NetworkIds.Invariant
use ashiato_sync.Server.NetworkIds.Preserve.{
  mark_pending_destroy-IsValid, mark_pending_destroy-taken,
}
use ashiato_sync.Server.Entities.{ClientEntityState}
use ashiato_sync.Server.DirtyQueue.{Floats}
use ashiato_sync.Server.DirtyQueue.Listing
use ashiato_sync.Server.Destroys.{same_destroy}
use ashiato_sync.Server.Destroys.Queue.{Apart, enqueue-Apart}
use ashiato_sync.Server.Replicator.{Replicator, enqueue_destroy, destroyed_identity}

-- The table of ids, the dirty queue and the queue of destructions are well formed.
abbrev pub IsValid : {F P : Type 0} → Replicator F P → Type 0
IsValid r = Invariant.IsValid r.network_ids × Listing.IsValid r.dirty_queue × Apart r.destroys

module _ {F P : Type 0} where
  -- When the parts are well formed and an entity's state has an id that is in use, the destruction of
  -- the entity is queued under that id, and the parts stay well formed.
  pub enqueue_destroy-IsValid :
      (c : Floats F) (s : FrameStore) (r : Replicator F P) (index entity frame : ℕ)
      {state : ClientEntityState F P} {e : Entry}
      → IsValid r
      → get_elem? r.entities index ≡ some state
      → try_get r.network_ids state.network_id ≡ some e
      → e.active ≡ true
      → let (taken, s', after) = enqueue_destroy c s r index entity frame in
        (taken ≡ true)
        × IsValid after
        × (any (same_destroy entity state.network_id) after.destroys ≡ true)
  unfolding enqueue_destroy destroyed_identity
  enqueue_destroy-IsValid c s r index entity frame {state} {e} (ids, dirty, apart) at used active =
      let taken = mark_pending_destroy-taken r.network_ids state.network_id used in
      let kept = mark_pending_destroy-IsValid state.network_id ids used (inl active) in
      let cleared = Listing.clear_dirty-IsValid c r.dirty_queue index dirty in
      let (distinct, queued) =
        enqueue-Apart r.destroys entity frame state.network_id state.network_version apart in
      rw (at, taken, enqueue_destroy, destroyed_identity) (refl, (kept, cleared, distinct), queued)
