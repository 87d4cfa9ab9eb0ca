-- ===== src/Server/Entities/Handles.antt =====
-- The handles that a state holds on the shared frames.
use ashiato_sync.Base.{
  count, count-append, count-cons_ne, ℕ, ◌-◌, ◌^◌, ◌<◌, ◌≡◌, ◌≢◌, sym, ◌∙◌, Bool, true, false, not,
  ◌||◌, List, [], ◌∷◌, ◌++◌, some, arith, ◌==◌, length, find, subst, Option-cases, Bool-cases, inl,
  inr, get_elem?_lt,
}
use ashiato_sync.Server.Frames.{
  FrameStore, invalid_quantized_frame_id, quantized_frame_active, release_quantized_frame,
}
use ashiato_sync.Server.Frames.Counts.{Counted, active_at_index}
use ashiato_sync.Server.Frames.Handles.{release-Counted, retain-Counted}
use ashiato_sync.Server.Frames.Leaks.{NoneLeft, release-NoneLeft, retain-NoneLeft}
use ashiato_sync.Server.Entities.Pending.{
  NoneLeft-middle, pending_handles, Counted-ext, count_middle, release_pending_through-Counted,
  release_pending_through-NoneLeft,
}
use ashiato_sync.Server.Entities.{
  PendingQuantizedFrame, ClientEntityState, Acknowledgement, refused, accepted, release_all,
  clear_client_entity_state, release_pending_through, adopt_baseline, finish_acknowledge,
  acknowledge_state, invalidate_entity_baseline,
}

abbrev pub handles : {F P : Type 0} → ClientEntityState F P → List ℕ
handles state = state.baseline ∷ pending_handles state.pending

-- The handle that stands for no frame may be added.
pub add_invalid :
    {s : FrameStore} (refs : List ℕ)
    → Counted s refs
    → Counted s (invalid_quantized_frame_id ∷ refs)
add_invalid {s} refs v = record {
  counted = λ q f at on.
      v.counted q f at on
      ∙ sym (
          count-cons_ne invalid_quantized_frame_id q refs
            (omega (arith, get_elem?_lt s.quantized_frames q at, v.small)));
  held =
      λ q ok pos. v.held q ok (omega (arith, count-cons_ne invalid_quantized_frame_id q refs ok));
  free = v.free;
  small = v.small;
}

pub release_all-Counted :
    (s : FrameStore) (ps : List PendingQuantizedFrame) (refs : List ℕ)
    → Counted s (pending_handles ps ++ refs)
    → Counted (release_all s ps) refs
unfolding release_all
release_all-Counted s [] refs v = v
release_all-Counted s (p ∷ ps) refs v =
    release_all-Counted (release_quantized_frame s p.quantized_frame) ps refs
      (release-Counted s p.quantized_frame (pending_handles ps ++ refs) v)

-- When the counts match the handles of a state and of others, they match the handles of the cleared
-- state and of the others after the state is cleared.
pub clear_client_entity_state-Counted :
    {F P : Type 0} (unknown : F) (s : FrameStore) (state : ClientEntityState F P) (refs : List ℕ)
    → Counted s (handles state ++ refs)
    → let (s', cleared) = clear_client_entity_state unknown s state in
      Counted s' (handles cleared ++ refs)
unfolding clear_client_entity_state
clear_client_entity_state-Counted unknown s state refs v = add_invalid refs (
    release_all-Counted (release_quantized_frame s state.baseline) state.pending refs
      (release-Counted s state.baseline (pending_handles state.pending ++ refs) v))

count-find :
    (frame : ℕ) (ps : List PendingQuantizedFrame) (found : PendingQuantizedFrame)
    → find (λ p. p.frame == frame) ps ≡ some found
    → 0 < count found.quantized_frame (pending_handles ps)
count-find frame [] found h = absurd (cc)
count-find frame (p ∷ ps) found h = ground (arith, count-find frame ps found)

-- The counts match the handles after a step, and it leaves no frame active for want of a release.
abbrev pub Settles : FrameStore → List ℕ → FrameStore → List ℕ → Type 0
Settles s refs s' refs' = Counted s' refs' × NoneLeft s refs s' refs'

-- The baseline moves to a frame that a pending entry still holds.
adopt_baseline-Settles :
    {F P : Type 0} (s : FrameStore) (state : ClientEntityState F P) (acked : ℕ) (refs : List ℕ)
    → Counted s (handles state ++ refs)
    → acked ≢ invalid_quantized_frame_id
    → 0 < count acked (pending_handles state.pending)
    → length (pending_handles state.pending ++ refs) < 2 ^ 32 - 1
    → let (s', state') = adopt_baseline s state acked in
      Settles s (handles state ++ refs) s' (handles state' ++ refs)
unfolding adopt_baseline
adopt_baseline-Settles s state acked refs v valid pos room =
    elim (Bool-cases (state.baseline == acked)) [
      | inl same ↦ rw (same, adopt_baseline) (v, λ q unheld. unheld)
      | inr moved ↦
          let rest = pending_handles state.pending ++ refs in
          let w = release-Counted s state.baseline rest v in
          let held =
            w.held acked valid
              (omega (arith, count-append acked (pending_handles state.pending) refs)) in
          let on = active_at_index _ acked held.0 held.1 held.2 in
          let released = release-NoneLeft s state.baseline rest v in
          let retained =
            retain-NoneLeft (release_quantized_frame s state.baseline) acked rest w on in
          rw (moved, adopt_baseline)
            (
              retain-Counted (release_quantized_frame s state.baseline) acked rest w on room,
              λ q unheld. released q (retained q unheld),
            )
    ]

-- What an acknowledgement has to be, with the handles of the others beside those of the state.
abbrev Keeps :
    {F P : Type 0} → FrameStore → ClientEntityState F P → List ℕ → Acknowledgement F P → Type 0
Keeps s before refs refused = Unit
Keeps s before refs (accepted eligible s' state) =
    Settles s (handles before ++ refs) s' (handles state ++ refs)

finish_acknowledge-Keeps :
    {F P : Type 0} (frame : ℕ) (eligible : Bool) (s0 s : FrameStore)
    (before state : ClientEntityState F P) (refs : List ℕ)
    → Settles s0 (handles before ++ refs) s (handles state ++ refs)
    → Keeps s0 before refs (finish_acknowledge frame eligible (s, state))
unfolding finish_acknowledge
finish_acknowledge-Keeps frame eligible s0 s before state refs (v, left) =
    let all = pending_handles state.pending in
    let kept = pending_handles (release_pending_through s frame state.pending).1 in
    let w = Counted-ext _ _ (λ q. count_middle q state.baseline all refs) v in
    let others =
      NoneLeft-middle s (release_pending_through s frame state.pending).0 state.baseline all kept
        refs (release_pending_through-NoneLeft s frame state.pending (state.baseline ∷ refs) w) in
    (
      Counted-ext _ _ (λ q. sym (count_middle q state.baseline kept refs))
          (release_pending_through-Counted s frame state.pending (state.baseline ∷ refs) w),
      λ q unheld. left q (others q unheld),
    )

acknowledge_state-Keeps :
    {F P : Type 0} (s : FrameStore) (state : ClientEntityState F P) (frame : ℕ) (refs : List ℕ)
    → Counted s (handles state ++ refs)
    → length (pending_handles state.pending ++ refs) < 2 ^ 32 - 1
    → Keeps s state refs (acknowledge_state s state frame)
unfolding acknowledge_state
acknowledge_state-Keeps s state frame refs v room =
    elim (Option-cases (find (λ p. p.frame == frame) state.pending)) [
      | inl e ↦ rw (e, acknowledge_state) tt
      | inr (found, e) ↦
          elim (Bool-cases (
            found.quantized_frame == invalid_quantized_frame_id
            || not (quantized_frame_active s found.quantized_frame))) [
              | inl bad ↦ rw (e, acknowledge_state) (rw bad tt)
              | inr good ↦
                  elim (Bool-cases (found.baseline_epoch_when_sent == state.baseline_epoch)) [
                    | inl current ↦
                        let valid : found.quantized_frame ≢ invalid_quantized_frame_id =
                          ground arith in
                        let adopted =
                          adopt_baseline-Settles s state found.quantized_frame refs v valid
                            (count-find frame state.pending found e) room in
                        rw (e, acknowledge_state)
                          (rw (good, current)
                            (finish_acknowledge-Keeps frame true s
                              (adopt_baseline s state found.quantized_frame).0 state
                              (adopt_baseline s state found.quantized_frame).1 refs adopted))
                    | inr stale ↦
                        rw (e, acknowledge_state)
                          (rw (good, stale)
                            (finish_acknowledge-Keeps frame false s s state state refs
                              (v, λ q unheld. unheld)))
                  ]
            ]
    ]

-- When the counts match the handles of a state and of others, fewer than 2 ^ 32 - 1 of them without
-- the baseline, and an acknowledgement is taken, the counts match the handles that the state then
-- holds and the others, so that no frame is freed under a handle. A frame that is then active
-- without a handle was active without a handle before: no frame stays for want of a release.
pub acknowledge_state-Counted :
    {F P : Type 0} (s : FrameStore) (state : ClientEntityState F P) (frame : ℕ) (refs : List ℕ)
    {eligible : Bool} {s' : FrameStore} {state' : ClientEntityState F P}
    → Counted s (handles state ++ refs)
    → length (pending_handles state.pending ++ refs) < 2 ^ 32 - 1
    → acknowledge_state s state frame ≡ accepted eligible s' state'
    → Counted s' (handles state' ++ refs)
      × NoneLeft s (handles state ++ refs) s' (handles state' ++ refs)
acknowledge_state-Counted s state frame refs v room h =
    subst (Keeps s state refs) h (acknowledge_state-Keeps s state frame refs v room)

-- Invalidating a baseline gives its handle back.
pub invalidate_entity_baseline-Counted :
    {F P : Type 0} (s : FrameStore) (state : ClientEntityState F P) (refs : List ℕ)
    → Counted s (handles state ++ refs)
    → let (s', state') = invalidate_entity_baseline s state in Counted s' (handles state' ++ refs)
unfolding invalidate_entity_baseline
invalidate_entity_baseline-Counted s state refs v =
    add_invalid (pending_handles state.pending ++ refs)
      (release-Counted s state.baseline (pending_handles state.pending ++ refs) v)
