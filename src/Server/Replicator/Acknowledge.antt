-- ===== src/Server/Replicator/Acknowledge.antt =====
-- The acknowledgement of an entity's frame, with the dirty queue.
use ashiato_sync.Base.{
  ℕ, ◌≡◌, ◌≢◌, refl, Bool, true, false, some, ◌==◌, find, get_elem?, get_elem?-set_self,
  get_elem?-set_ne, get_elem?_lt, inl, inr, ◌⊎◌,
}
use ashiato_sync.Server.Frames.{FrameStore}
use ashiato_sync.Server.Entities.{
  PendingQuantizedFrame, ClientEntityState, Acknowledgement, refused, accepted, acknowledge_state,
}
use ashiato_sync.Server.Entities.Acknowledge.{
  Acked, Unknown, refused-Unknown, acknowledge_state-Acked,
}
use ashiato_sync.Server.DirtyQueue.{Entry, Floats}
use ashiato_sync.Server.DirtyQueue.Due.{EntrySettled, acknowledged_entry}
use ashiato_sync.Server.Replicator.{Replicator, settle, acknowledge_entity}
use ashiato_sync.Server.Replicator.Destroy.{IsValid}

module _ {F P : Type 0} where
  -- The client after an acknowledgement that was taken: the slots of other entities are the same.
  pub record Settled (r : Replicator F P) (index frame : ℕ) (state : ClientEntityState F P)
      (e : Entry F) (after : Replicator F P) : Type 0 where
    pub found : PendingQuantizedFrame
    pub is_pending : find (λ p. p.frame == frame) state.pending ≡ some found
    pub eligible : Bool
    pub new_state : ClientEntityState F P
    pub new_entry : Entry F
    pub has_state : get_elem? after.entities index ≡ some new_state
    pub has_entry : get_elem? after.dirty_queue.entries index ≡ some new_entry
    pub acked : Acked state frame found eligible new_state
    pub settled : EntrySettled eligible frame e new_entry
    pub other_states :
        (other : ℕ) → index ≢ other → get_elem? after.entities other ≡ get_elem? r.entities other
    pub other_entries :
        (other : ℕ)
        → index ≢ other
        → get_elem? after.dirty_queue.entries other ≡ get_elem? r.dirty_queue.entries other

  abbrev pub Acknowledged :
      FrameStore
      → Replicator F P
      → (index frame : ℕ) → ClientEntityState F P
      → Entry F
      → Bool × FrameStore × Replicator F P
      → Type 0
  Acknowledged s r index frame state e (taken, s', after) =
      ((taken ≡ false) × (s' ≡ s) × (after ≡ r) × Unknown s state frame)
      ⊎ ((taken ≡ true) × Settled r index frame state e after)

  settle-Acknowledged :
      (c : Floats F) (s : FrameStore) (r : Replicator F P) (index frame : ℕ)
      {state : ClientEntityState F P} {e : Entry F} (answer : Acknowledgement F P)
      → acknowledge_state s state frame ≡ answer
      → IsValid r
      → get_elem? r.entities index ≡ some state
      → get_elem? r.dirty_queue.entries index ≡ some e
      → let result = settle c s r index frame answer in
        IsValid (result.2) × Acknowledged s r index frame state e result
  unfolding settle
  settle-Acknowledged c s r index frame {state} {e} refused h v at entry_at =
      (v, inl (refl, refl, refl, refused-Unknown s state frame h))
  settle-Acknowledged c s r index frame {state} {e} (accepted eligible s' state') h
        (ids, dirty, apart) at entry_at =
      let (found, pending, on, acked) = acknowledge_state-Acked s state frame h in
      let ((new_entry, has_entry, settled), others, kept) =
        acknowledged_entry c r.dirty_queue index frame eligible entry_at in
      (
        (ids, kept dirty, apart),
        inr (
          refl,
          record {
            found = found;
            is_pending = pending;
            eligible = eligible;
            new_state = state';
            new_entry = new_entry;
            has_state =
                get_elem?-set_self r.entities index state' (get_elem?_lt r.entities index at);
            has_entry = has_entry;
            acked = acked;
            settled = settled;
            other_states = λ other ne. get_elem?-set_ne r.entities index other state' ne;
            other_entries = others;
          },
        ),
      )

  -- When the parts of the client are well formed and an entity has a state and an entry of the dirty
  -- queue, they stay well formed under the acknowledgement of a frame of it. The acknowledgement is
  -- refused, and changes nothing, only where no pending frame of that number is still stored. Taken,
  -- it drops the pending frames and cues up to that frame. Exactly if the frame was sent in the
  -- current baseline epoch, it becomes the baseline, of the entry also, and the entry leaves the dirty
  -- queue unless its dirty frame is newer. Otherwise the baseline and the queueing stay. The dirty
  -- frame, and the states and the entries of other entities, stay.
  pub acknowledge_entity-Acknowledged :
      (c : Floats F) (s : FrameStore) (r : Replicator F P) (index frame : ℕ)
      {state : ClientEntityState F P} {e : Entry F}
      → IsValid r
      → get_elem? r.entities index ≡ some state
      → get_elem? r.dirty_queue.entries index ≡ some e
      → let result = acknowledge_entity c s r index frame in
        IsValid (result.2) × Acknowledged s r index frame state e result
  unfolding acknowledge_entity
  acknowledge_entity-Acknowledged c s r index frame {state} v at entry_at =
      rw (at, acknowledge_entity)
        (settle-Acknowledged c s r index frame (acknowledge_state s state frame) refl v at entry_at)
