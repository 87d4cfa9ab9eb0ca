-- ===== src/Server/DirtyQueue/Tests.antt =====
-- The dirty queue on concrete inputs; a priority is a number.
use ashiato_sync.Base.{
  ℕ, zero, suc, count, get_elem?, ap, ◌≡◌, ◌<◌, ◌≤◌, List, [], ◌∷◌, true, Option, none, some, arith,
}
use ashiato_sync.Server.Frames.{FrameStore}
use ashiato_sync.Server.Entities.{ClientEntityState, all_components}
use ashiato_sync.Server.DirtyQueue.{Entry, DirtyQueue, Floats, mark_dirty, marked}
use ashiato_sync.Server.DirtyQueue.Listing.{IsValid, listings, mark_dirty-IsValid}
use ashiato_sync.Server.DirtyQueue.Due.{marked_due}

abbrev pub numbers : Floats ℕ
numbers = record { zero_priority = 0; unknown = 999 }

abbrev pub empty_store : FrameStore
empty_store = record { replicated = []; quantized_frames = []; free_quantized_frames = [] }

abbrev no_states : List (ClientEntityState ℕ ℕ)
no_states = []

-- Entry 0 is on the list; its baseline is of frame 6.
abbrev pub changed : Entry ℕ
changed = record {
  dirty_frame = 8;
  baseline_frame = 6;
  priority_accumulator = 3;
  last_priority = 3;
  component_mask = all_components;
  queued = true;
  listed = true;
}

abbrev pub one_dirty : DirtyQueue ℕ
one_dirty = record { entries = changed ∷ []; dirty_replicated_indices = 0 ∷ [] }

pub one_dirty-IsValid : IsValid one_dirty
one_dirty-IsValid = record { listed = listed; in_table = in_table }
  where
    listed :
        (i : ℕ) (e : Entry ℕ) → get_elem? (changed ∷ []) i ≡ some e → count i (0 ∷ []) ≡ listings e
    listed zero e h = let same : changed ≡ e = cc in ap listings same
    listed (suc i) e h = absurd (cc)

    in_table : (i : ℕ) → 0 < count i (0 ∷ []) → i < 1
    in_table i pos = ground arith

mark_dirty-IsValid_example : IsValid (mark_dirty numbers empty_store 3 no_states one_dirty 2 7)
mark_dirty-IsValid_example =
    mark_dirty-IsValid numbers empty_store 3 no_states one_dirty 2 7 one_dirty-IsValid

abbrev no_state : Option (ClientEntityState ℕ ℕ)
no_state = none

marked_due_example :
    let after = marked numbers empty_store no_state 9 changed in
    (after.queued ≡ true) × (after.baseline_frame < after.dirty_frame) × (9 ≤ after.dirty_frame)
unfolding marked
marked_due_example = marked_due numbers empty_store no_state 9 changed (omega arith)
