-- ===== src/Server/DirtyQueue.antt =====
-- Which entities one client has still to be sent (`ClientDirtyQueue`, and the functions of
-- `ServerClientReplicator` that mark and clear it, in src/server/server_client_replicator.cpp).
-- `F` stands for `float`.
pub mod Listing
pub mod Due
pub mod Tests
use ashiato_sync.Base.{
  ℕ, ◌+◌, ◌-◌, ◌%◌, ◌^◌, Bool, true, false, ◌&&◌, ◌||◌, not, List, [], ◌∷◌, ◌++◌, Option, none,
  some, ◌==◌, ltb, leb, if◌then◌else◌, length, get_elem?, set, replicate, max,
}
use ashiato_sync.Server.Frames.{
  FrameStore, invalid_quantized_frame_id, quantized_frame_active, quantized_frame_frame,
}
use ashiato_sync.Server.Entities.{ClientEntityState, all_components}

pub record Entry (F : Type 0) : Type 0 where
  pub dirty_frame : ℕ
  pub baseline_frame : ℕ
  pub priority_accumulator : F
  pub last_priority : F
  pub component_mask : ℕ
  pub queued : Bool
  pub listed : Bool

pub record DirtyQueue (F : Type 0) : Type 0 where
  pub entries : List (Entry F)
  pub dirty_replicated_indices : List ℕ

-- The floats that an entry starts with: 0.0 and the quiet not-a-number.
pub record Floats (F : Type 0) : Type 0 where
  pub zero_priority : F
  pub unknown : F

module _ {F : Type 0} where
  -- `Entry{}`.
  pub blank_entry : Floats F → Entry F
  blank_entry c = record {
    dirty_frame = 0;
    baseline_frame = 0;
    priority_accumulator = c.zero_priority;
    last_priority = c.unknown;
    component_mask = all_components;
    queued = false;
    listed = false;
  }

  pub ensure_entries : Floats F → ℕ → List (Entry F) → List (Entry F)
  unfolding blank_entry
  ensure_entries c count entries =
      if ltb (length entries) count
      then entries ++ replicate (count - length entries) (blank_entry c)
      else entries

  -- `entry.dirty_frame = max(entry.dirty_frame, frame)`, and past the baseline where it is not.
  pub raise : ℕ → Entry F → Entry F
  raise frame entry =
      if leb (max entry.dirty_frame frame) entry.baseline_frame
      then record entry { dirty_frame = (entry.baseline_frame + 1) % 2 ^ 32 }
      else record entry { dirty_frame = max entry.dirty_frame frame }

  module _ {P : Type 0} where
    baseline_frame_of : FrameStore → ClientEntityState F P → ℕ → ℕ
    baseline_frame_of s state old =
        if not (state.baseline == invalid_quantized_frame_id)
          && quantized_frame_active s state.baseline
        then quantized_frame_frame s state.baseline
        else old

    -- What happens to an entry that is not queued yet.
    pub enter_queue : Floats F → FrameStore → Option (ClientEntityState F P) → Entry F → Entry F
    unfolding baseline_frame_of
    enter_queue c s none entry = record entry {
      queued = true;
      priority_accumulator = c.zero_priority;
      component_mask = all_components;
      last_priority = c.unknown;
    }
    enter_queue c s (some state) entry = record entry {
      queued = true;
      priority_accumulator = c.zero_priority;
      component_mask = state.component_mask;
      last_priority = state.last_priority;
      baseline_frame = baseline_frame_of s state entry.baseline_frame;
    }

    -- The entry that `mark_dirty` leaves.
    pub marked : Floats F → FrameStore → Option (ClientEntityState F P) → ℕ → Entry F → Entry F
    unfolding raise enter_queue
    marked c s state frame entry =
        let queued = if entry.queued then entry else enter_queue c s state entry in
        raise frame (record queued { listed = true })

  list_index : ℕ → Entry F → List ℕ → List ℕ
  list_index index entry indices = if entry.listed then indices else indices ++ (index ∷ [])

  module _ {P : Type 0} where
    -- `count` is the number of replicated slots, and `states` the entity states, which have been
    -- resized to it; an entry that the resized queue does not hold is out of range.
    pub mark_dirty :
        Floats F
        → FrameStore
        → (count : ℕ) → List (ClientEntityState F P)
        → DirtyQueue F
        → (index frame : ℕ) → DirtyQueue F
    unfolding marked list_index ensure_entries
    mark_dirty c s count states queue index frame =
        if leb count index
        then queue
        else let entries = ensure_entries c count queue.entries in
          elim (get_elem? entries index) [
            | none ↦ record queue { entries = entries }
            | some entry ↦ record {
              entries = set entries index (marked c s (get_elem? states index) frame entry);
              dirty_replicated_indices = list_index index entry queue.dirty_replicated_indices;
            }
          ]

  pub clear_dirty : Floats F → DirtyQueue F → ℕ → DirtyQueue F
  unfolding blank_entry
  clear_dirty c queue index = elim (get_elem? queue.entries index) [
    | none ↦ queue
    | some entry ↦ record queue {
      entries = set queue.entries index (record (blank_entry c) { listed = entry.listed });
    }
  ]

  -- What a taken acknowledgement of an eligible frame does to the entry.
  pub acknowledge_entry : Floats F → ℕ → Entry F → Entry F
  acknowledge_entry c frame entry =
      if leb entry.dirty_frame frame
      then record entry {
        baseline_frame = frame;
        queued = false;
        priority_accumulator = c.zero_priority;
      }
      else record entry { baseline_frame = frame }

  pub acknowledge_dirty : Floats F → DirtyQueue F → (index frame : ℕ) → DirtyQueue F
  unfolding acknowledge_entry
  acknowledge_dirty c queue index frame = elim (get_elem? queue.entries index) [
    | none ↦ queue
    | some entry ↦ record queue {
      entries = set queue.entries index (acknowledge_entry c frame entry);
    }
  ]
