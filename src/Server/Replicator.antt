-- ===== src/Server/Replicator.antt =====
-- What the server keeps for one client, put together (`ServerClientReplicator` in
-- src/server/server_client_replicator.cpp): the operations that change several of its parts.
pub mod Acknowledge
pub mod Destroy
mod Tests
use ashiato_sync.Base.{
  ℕ, zero, suc, ◌+◌, Bool, true, false, List, [], ◌∷◌, Option, none, some, if◌then◌else◌, get_elem?,
  get_or, set, length,
}
use ashiato_sync.Server.Frames.{FrameStore, ReplicatedSlot}
use ashiato_sync.Server.NetworkIds.{NetworkIds, Entry, allocate, mark_pending_destroy, blank}
use ashiato_sync.Server.Entities.{
  ClientEntityState, Acknowledgement, refused, accepted, clear_client_entity_state,
  acknowledge_state,
}
use ashiato_sync.Server.DirtyQueue.{DirtyQueue, Floats, mark_dirty, clear_dirty, acknowledge_dirty}
use ashiato_sync.Server.Destroys.{ClientDestroyState, enqueue}

pub record Replicator (F P : Type 0) : Type 0 where
  pub entities : List (ClientEntityState F P)
  pub dirty_queue : DirtyQueue F
  pub destroys : List ClientDestroyState
  pub network_ids : NetworkIds

module _ {F P : Type 0} where
  -- `EntityStates::clear`, on the frames of the server.
  pub clear_entity :
      F → FrameStore → List (ClientEntityState F P) → ℕ → FrameStore × List (ClientEntityState F P)
  clear_entity unknown s entities index = elim (get_elem? entities index) [
    | none ↦ (s, entities)
    | some state ↦
        let cleared = clear_client_entity_state unknown s state in
        (cleared.0, set entities index cleared.1)
  ]

  -- The id of an entity's state, handed out when it has none; `none` is the exhausted id space, and a
  -- missing state has the id 0.
  pub network_id_for : Replicator F P → ℕ → Option (ℕ × Replicator F P)
  network_id_for r index = elim (get_elem? r.entities index) [
    | none ↦ some (0, r)
    | some state ↦
        if state.has_network_id
        then some (state.network_id, r)
        else elim (allocate r.network_ids index) [
          | none ↦ none
          | some result ↦ some (
            result.0,
            record r {
              network_ids = result.1;
              entities = set r.entities index (record state {
                network_id = result.0;
                network_version = (get_or result.1.entries result.0 blank).version;
                has_network_id = true;
              });
            },
          )
        ]
  ]

  -- The network id and version that a destroyed entity had, or zeros.
  pub destroyed_identity : List (ClientEntityState F P) → ℕ → ℕ × ℕ
  destroyed_identity entities index = elim (get_elem? entities index) [
    | none ↦ (0, 0)
    | some state ↦ (state.network_id, state.network_version)
  ]

  pub enqueue_destroy :
      Floats F
      → FrameStore
      → Replicator F P
      → (index entity frame : ℕ) → Bool × FrameStore × Replicator F P
  unfolding clear_entity destroyed_identity
  enqueue_destroy c s r index entity frame =
      let identity = destroyed_identity r.entities index in
      let cleared = clear_entity c.unknown s r.entities index in
      let dirty = clear_dirty c r.dirty_queue index in
      let aside = mark_pending_destroy r.network_ids identity.0 in
      (
        aside.0,
        cleared.0,
        record {
          entities = cleared.1;
          dirty_queue = dirty;
          network_ids = aside.1;
          destroys =
              if aside.0 then enqueue r.destroys entity frame identity.0 identity.1 else r.destroys;
        },
      )

  -- What is stored of an entity after the acknowledgement of a frame; a refused one changes nothing.
  -- The entry of the dirty queue is touched only by a frame that may be the baseline.
  pub settle :
      Floats F
      → FrameStore
      → Replicator F P
      → (index frame : ℕ) → Acknowledgement F P
      → Bool × FrameStore × Replicator F P
  settle c s r index frame refused = (false, s, r)
  settle c s r index frame (accepted eligible s' state') = (
    true,
    s',
    record r {
      entities = set r.entities index state';
      dirty_queue =
          if eligible then acknowledge_dirty c r.dirty_queue index frame else r.dirty_queue;
    },
  )

  pub acknowledge_entity :
      Floats F
      → FrameStore
      → Replicator F P
      → (index frame : ℕ) → Bool × FrameStore × Replicator F P
  unfolding settle
  acknowledge_entity c s r index frame = elim (get_elem? r.entities index) [
    | none ↦ (false, s, r)
    | some state ↦ settle c s r index frame (acknowledge_state s state frame)
  ]

  -- The loop of `initialize_marking_all_dirty`; `active` says for each slot from `index` on whether
  -- it is in use, and `count` is the number of all slots.
  pub mark_all_dirty :
      Floats F
      → FrameStore
      → (count : ℕ) → List (ClientEntityState F P)
      → List ReplicatedSlot
      → (index frame : ℕ) → DirtyQueue F
      → DirtyQueue F
  mark_all_dirty c s count entities [] index frame queue = queue
  mark_all_dirty c s count entities (slot ∷ slots) index frame queue =
      mark_all_dirty c s count entities slots (index + 1) frame
        (if slot.active then mark_dirty c s count entities queue index frame else queue)
