-- ===== src/Server/Entities/Acknowledge.antt =====
-- What an acknowledgement does to the baseline and to the pending frames.
use ashiato_sync.Base.{
  ℕ, ◌-◌, ◌^◌, ◌≤◌, ◌<◌, ◌≡◌, refl, ap, ◌∙◌, Bool, true, false, not, ◌||◌, List, [], ◌∷◌, some,
  arith, ◌==◌, leb, if◌then◌else◌, find, remove_if, subst, Option-cases, Bool-cases, inl, inr,
  ==→eq, ==_false→ne, All, ◌↔◌, ◌⊎◌, ◌≢◌,
}
use ashiato_sync.Server.Frames.{
  FrameStore, invalid_quantized_frame_id, quantized_frame_active, release_quantized_frame,
}
use ashiato_sync.Server.Entities.{
  PendingQuantizedFrame, PendingCue, ClientEntityState, Acknowledgement, refused, accepted,
  release_pending_through, adopt_baseline, finish_acknowledge, acknowledge_state,
  invalidate_entity_baseline,
}

-- What is left of a list of pending frames after the frames up to `frame` are gone.
pub kept-release_pending_through :
    (s : FrameStore) (frame : ℕ) (ps : List PendingQuantizedFrame)
    → (release_pending_through s frame ps).1 ≡ remove_if (λ p. leb p.frame frame) ps
unfolding release_pending_through
kept-release_pending_through s frame [] = refl
kept-release_pending_through s frame (p ∷ ps) = elim (Bool-cases (leb p.frame frame)) [
  | inl old ↦
      rw (old, release_pending_through)
        (kept-release_pending_through (release_quantized_frame s p.quantized_frame) frame ps)
  | inr kept ↦
      rw (kept, release_pending_through) (ap (λ k. p ∷ k) (kept-release_pending_through s frame ps))
]

-- What an acknowledged frame leaves, against the state before.
pub record Acked {F P : Type 0} (before : ClientEntityState F P) (frame : ℕ)
    (found : PendingQuantizedFrame) (eligible : Bool) (after : ClientEntityState F P) : Type 0 where
  pub pending : after.pending ≡ remove_if (λ p. leb p.frame frame) before.pending
  pub cues :
      after.pending_cues ≡ remove_if (λ (c : PendingCue F P). leb c.frame frame) before.pending_cues
  pub epoch : after.baseline_epoch ≡ before.baseline_epoch
  pub baseline : after.baseline ≡ (if eligible then found.quantized_frame else before.baseline)
  pub current : (eligible ≡ true) ↔ (found.baseline_epoch_when_sent ≡ before.baseline_epoch)

abbrev Answers :
    {F P : Type 0} → FrameStore → ClientEntityState F P → ℕ → Acknowledgement F P → Type 0
Answers s state frame refused = Unit
Answers s state frame (accepted eligible s' state') =
    (found : PendingQuantizedFrame) × (find (λ p. p.frame == frame) state.pending ≡ some found)
    × (quantized_frame_active s found.quantized_frame ≡ true)
    × Acked state frame found eligible state'

adopt_fields :
    {F P : Type 0} (s : FrameStore) (state : ClientEntityState F P) (acked : ℕ)
    → let after = (adopt_baseline s state acked).1 in
      (after.baseline ≡ acked)
      × (after.pending ≡ state.pending)
      × (after.pending_cues ≡ state.pending_cues)
      × (after.baseline_epoch ≡ state.baseline_epoch)
unfolding adopt_baseline
adopt_fields s state acked = elim (Bool-cases (state.baseline == acked)) [
  | inl same ↦ rw (same, adopt_baseline) (==→eq _ _ same, refl, refl, refl)
  | inr moved ↦ rw (moved, adopt_baseline) (refl, refl, refl, refl)
]

finish_fields :
    {F P : Type 0} (frame : ℕ) (eligible : Bool) (s t : FrameStore)
    (before state : ClientEntityState F P) (found : PendingQuantizedFrame)
    → find (λ p. p.frame == frame) before.pending ≡ some found
    → quantized_frame_active t found.quantized_frame ≡ true
    → state.baseline ≡ (if eligible then found.quantized_frame else before.baseline)
    → state.pending ≡ before.pending
    → state.pending_cues ≡ before.pending_cues
    → state.baseline_epoch ≡ before.baseline_epoch
    → (eligible ≡ true) ↔ (found.baseline_epoch_when_sent ≡ before.baseline_epoch)
    → Answers t before frame (finish_acknowledge frame eligible (s, state))
unfolding finish_acknowledge
finish_fields frame eligible s t before state found at on base pend cues epoch cur = (
  found,
  at,
  on,
  record {
    pending =
        kept-release_pending_through s frame state.pending
        ∙ ap (remove_if (λ p. leb p.frame frame)) pend;
    cues = ap (remove_if (λ c. leb c.frame frame)) cues;
    epoch = epoch;
    baseline = base;
    current = cur;
  },
)

acknowledge_state-Answers :
    {F P : Type 0} (s : FrameStore) (state : ClientEntityState F P) (frame : ℕ)
    → Answers s state frame (acknowledge_state s state frame)
unfolding acknowledge_state
acknowledge_state-Answers s state frame =
    elim (Option-cases (find (λ p. p.frame == frame) state.pending)) [
      | inl e ↦ rw (e, acknowledge_state) tt
      | inr (found, e) ↦
          elim (Bool-cases (
            found.quantized_frame == invalid_quantized_frame_id
            || not (quantized_frame_active s found.quantized_frame))) [
              | inl bad ↦ rw (e, acknowledge_state) (rw bad tt)
              | inr good ↦
                  let on : quantized_frame_active s found.quantized_frame ≡ true = ground arith in
                  elim (Bool-cases (found.baseline_epoch_when_sent == state.baseline_epoch)) [
                    | inl current ↦
                        let (base, pend, cues, epoch) =
                          adopt_fields s state found.quantized_frame in
                        rw (e, acknowledge_state)
                          (rw (good, current)
                            (finish_fields frame true
                              (adopt_baseline s state found.quantized_frame).0 s state
                              (adopt_baseline s state found.quantized_frame).1 found e on base pend
                              cues epoch
                              (
                                (λ _.
                                    ==→eq found.baseline_epoch_when_sent state.baseline_epoch
                                      current),
                                (λ _. refl),
                              )))
                    | inr stale ↦
                        rw (e, acknowledge_state)
                          (rw (good, stale)
                            (finish_fields frame false s s state state found e on refl refl refl
                              refl
                              (
                                (λ (h : false ≡ true). absurd (cc)),
                                (λ h. absurd (
                                    ==_false→ne found.baseline_epoch_when_sent state.baseline_epoch
                                      stale h)),
                              )))
                  ]
            ]
    ]

module _ {F P : Type 0} where
  -- No pending frame of that number is still stored.
  abbrev pub Unknown : FrameStore → ClientEntityState F P → ℕ → Type 0
  Unknown s state frame =
      (found : PendingQuantizedFrame)
      → find (λ p. p.frame == frame) state.pending ≡ some found
      → (found.quantized_frame ≡ invalid_quantized_frame_id)
        ⊎ (quantized_frame_active s found.quantized_frame ≡ false)

  finish_taken :
      (frame : ℕ) (eligible : Bool) (at : FrameStore × ClientEntityState F P)
      → finish_acknowledge frame eligible at ≢ refused
  unfolding finish_acknowledge
  finish_taken frame eligible at h = absurd (cc)

  -- An acknowledgement is refused only where no such frame is stored.
  pub refused-Unknown :
      (s : FrameStore) (state : ClientEntityState F P) (frame : ℕ)
      → acknowledge_state s state frame ≡ refused
      → Unknown s state frame
  unfolding acknowledge_state
  refused-Unknown s state frame h found e =
      elim (Bool-cases (
        found.quantized_frame == invalid_quantized_frame_id
        || not (quantized_frame_active s found.quantized_frame))) [
          | inl bad ↦ missing found bad
          | inr good ↦ elim (Bool-cases (found.baseline_epoch_when_sent == state.baseline_epoch)) [
            | inl current ↦ absurd (
                finish_taken frame true (adopt_baseline s state found.quantized_frame)
                  (rw (e, acknowledge_state, good, current) at h))
            | inr stale ↦
                absurd (
                  finish_taken frame false (s, state) (rw (e, acknowledge_state, good, stale) at h))
          ]
        ]
    where
      missing :
          (found : PendingQuantizedFrame)
          → (found.quantized_frame == invalid_quantized_frame_id
              || not (quantized_frame_active s found.quantized_frame))
            ≡ true
          → (found.quantized_frame ≡ invalid_quantized_frame_id)
            ⊎ (quantized_frame_active s found.quantized_frame ≡ false)
      missing found bad = elim (Bool-cases (found.quantized_frame == invalid_quantized_frame_id)) [
        | inl no_frame ↦ inl (==→eq found.quantized_frame invalid_quantized_frame_id no_frame)
        | inr some_frame ↦ inr (ground arith)
      ]

-- An acknowledgement that is taken names a pending frame that is still stored. It drops the pending
-- frames and cues up to that frame and no others, and keeps the epoch; the frame becomes the
-- baseline exactly if it was sent in the current baseline epoch, and otherwise the baseline stays.
pub acknowledge_state-Acked :
    {F P : Type 0} (s : FrameStore) (state : ClientEntityState F P) (frame : ℕ) {eligible : Bool}
    {s' : FrameStore} {state' : ClientEntityState F P}
    → acknowledge_state s state frame ≡ accepted eligible s' state'
    → (found : PendingQuantizedFrame) × (find (λ p. p.frame == frame) state.pending ≡ some found)
      × (quantized_frame_active s found.quantized_frame ≡ true)
      × Acked state frame found eligible state'
acknowledge_state-Acked s state frame h =
    subst (Answers s state frame) h (acknowledge_state-Answers s state frame)

find-All {κ} :
    (Q : PendingQuantizedFrame → Type κ) (t : PendingQuantizedFrame → Bool)
    (ps : List PendingQuantizedFrame) {found : PendingQuantizedFrame}
    → All Q ps
    → find t ps ≡ some found
    → Q found
find-All Q t [] all h = absurd (cc)
find-All Q t (p ∷ ps) all h = elim (Bool-cases (t p)) [
  | inl hit ↦ subst Q (cc (rw hit at h)) all.0
  | inr miss ↦ find-All Q t ps all.1 (rw miss at h)
]

-- When no pending frame was sent in an epoch after the current one, which is before the last of 32
-- bits, and then the baseline is invalidated, an acknowledgement of a frame that was sent before is
-- never eligible, and leaves no baseline.
pub stale_acknowledgement :
    {F P : Type 0} (s : FrameStore) (state : ClientEntityState F P) (frame : ℕ) {eligible : Bool}
    {s' : FrameStore} {state' : ClientEntityState F P}
    → All (λ p. p.baseline_epoch_when_sent ≤ state.baseline_epoch) state.pending
    → state.baseline_epoch < 2 ^ 32 - 1
    → (let (s1, invalidated) = invalidate_entity_baseline s state in
        acknowledge_state s1 invalidated frame)
      ≡ accepted eligible s' state'
    → (eligible ≡ false) × (state'.baseline ≡ invalid_quantized_frame_id)
unfolding invalidate_entity_baseline
stale_acknowledgement s state frame {eligible} {s'} {state'} sent room h =
    let (found, at, on, acked) =
      acknowledge_state-Acked (invalidate_entity_baseline s state).0
        (invalidate_entity_baseline s state).1 frame h in
    let old =
      find-All (λ p. p.baseline_epoch_when_sent ≤ state.baseline_epoch) (λ p. p.frame == frame)
        state.pending sent at in
    elim (Bool-cases eligible) [
      | inl yes_eligible ↦ let same = acked.current.0 yes_eligible in absurd (omega arith)
      | inr stale ↦ (
        stale,
        acked.baseline
            ∙ ap (λ b. if b then found.quantized_frame else invalid_quantized_frame_id) stale,
      )
    ]
