-- ===== src/Server/DirtyQueue/Due.antt =====
-- The marking of an entry, and what an acknowledgement does to it.
use ashiato_sync.Base.{
  Bool, false, not, ◌||◌, refl, ◌≢◌, get_elem?, get_elem?-set_self, get_elem?-set_ne, get_elem?_lt,
  ℕ, ◌-◌, ◌^◌, ◌≤◌, ◌<◌, ◌≡◌, ◌∙◌, true, ◌&&◌, Option, none, some, arith, ltb, if◌then◌else◌,
}
use ashiato_sync.Server.Frames.{FrameStore}
use ashiato_sync.Server.Entities.{ClientEntityState}
use ashiato_sync.Server.DirtyQueue.{
  Entry, DirtyQueue, Floats, raise, enter_queue, marked, acknowledge_entry, acknowledge_dirty,
}
use ashiato_sync.Server.DirtyQueue.Listing

module _ {F : Type 0} where
  raise_due :
      (frame : ℕ) (entry : Entry F)
      → (raise frame entry).baseline_frame < 2 ^ 32 - 1
      → ((raise frame entry).baseline_frame < (raise frame entry).dirty_frame)
        × (frame ≤ (raise frame entry).dirty_frame)
  unfolding raise
  raise_due frame entry h = ground arith

  queued-raise : (frame : ℕ) (entry : Entry F) → (raise frame entry).queued ≡ entry.queued
  unfolding raise
  queued-raise frame entry = ground arith

  -- An eligible acknowledgement sets the baseline frame and keeps the dirty frame; an entry stays on
  -- the queue exactly if it was on it and its dirty frame is newer than the acknowledged one.
  pub acknowledge_entry_queued :
      (c : Floats F) (frame : ℕ) (entry : Entry F)
      → let after = acknowledge_entry c frame entry in
        (after.baseline_frame ≡ frame)
        × (after.dirty_frame ≡ entry.dirty_frame)
        × (after.queued ≡ (entry.queued && ltb frame entry.dirty_frame))
  unfolding acknowledge_entry
  acknowledge_entry_queued c frame entry = (ground arith, ground arith, ground arith)

  -- The entry of an entity after the acknowledgement of a frame, which may be the baseline if it is
  -- eligible.
  abbrev pub EntrySettled : (eligible : Bool) → (frame : ℕ) → (before after : Entry F) → Type 0
  EntrySettled eligible frame before after =
      (after.dirty_frame ≡ before.dirty_frame)
      × (after.baseline_frame ≡ (if eligible then frame else before.baseline_frame))
      × (after.queued ≡ (before.queued && (not eligible || ltb frame before.dirty_frame)))

  -- What the acknowledgement of a frame does to the queue: the other entries stay.
  pub acknowledged_entry :
      (c : Floats F) (queue : DirtyQueue F) (index frame : ℕ) {e : Entry F} (eligible : Bool)
      → get_elem? queue.entries index ≡ some e
      → let after = if eligible then acknowledge_dirty c queue index frame else queue in
        ((new_entry : Entry F) × (get_elem? after.entries index ≡ some new_entry)
          × EntrySettled eligible frame e new_entry)
        × ((other : ℕ)
            → index ≢ other
            → get_elem? after.entries other ≡ get_elem? queue.entries other)
        × (Listing.IsValid queue → Listing.IsValid after)
  unfolding acknowledge_dirty
  acknowledged_entry c queue index frame {e} false at =
      ((e, at, (refl, refl, ground arith)), (λ other ne. refl), (λ v. v))
  acknowledged_entry c queue index frame {e} true at =
      let (base, dirty, queued) = acknowledge_entry_queued c frame e in
      let entry = acknowledge_entry c frame e in
      let kept = Listing.acknowledge_dirty-IsValid c queue index frame in
      (
        rw (at, acknowledge_dirty)
            (
              entry,
              get_elem?-set_self queue.entries index entry (get_elem?_lt queue.entries index at),
              (dirty, base, queued),
            ),
        (λ other ne.
            rw (at, acknowledge_dirty) (get_elem?-set_ne queue.entries index other entry ne)),
        kept,
      )

module _ {F P : Type 0} where
  queued-enter_queue :
      (c : Floats F) (s : FrameStore) (state : Option (ClientEntityState F P)) (entry : Entry F)
      → (if entry.queued then entry else enter_queue c s state entry).queued ≡ true
  unfolding enter_queue
  queued-enter_queue c s none entry = ground arith
  queued-enter_queue c s (some state) entry = ground arith

  -- A marked entry whose baseline frame is below 2 ^ 32 - 1 is queued, and its dirty frame is newer
  -- than its baseline and at least as new as the change.
  pub marked_due :
      (c : Floats F) (s : FrameStore) (state : Option (ClientEntityState F P)) (frame : ℕ)
      (entry : Entry F)
      → (marked c s state frame entry).baseline_frame < 2 ^ 32 - 1
      → let after = marked c s state frame entry in
        (after.queued ≡ true)
        × (after.baseline_frame < after.dirty_frame)
        × (frame ≤ after.dirty_frame)
  unfolding marked
  marked_due c s state frame entry room =
      let (newer, recent) = raise_due frame _ room in
      (queued-raise frame _ ∙ queued-enter_queue c s state entry, newer, recent)
