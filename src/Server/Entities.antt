-- ===== src/Server/Entities.antt =====
-- What the server keeps of each entity for one client (`ClientEntityState` and `EntityStates` in
-- src/server/server_client_replicator.hpp and .cpp), with the functions of
-- src/server/quantized_frame.cpp that work on it. `F` stands for `float` and `P` for the payload
-- of a cue, a `BitBuffer`; both are only moved. `unknown` is the not-a-number that a priority
-- starts with.
pub mod Handles
pub mod Pending
pub mod Acknowledge
pub mod Tests
use ashiato_sync.Base.{
  ℕ, ◌+◌, ◌-◌, ◌%◌, ◌^◌, Bool, true, false, ◌&&◌, ◌||◌, not, List, [], ◌∷◌, ◌++◌, Option, none,
  some, ◌==◌, ltb, leb, if◌then◌else◌, length, get_elem?, set, remove_if, find, replicate, map,
}
use ashiato_sync.Server.Frames.{
  FrameStore, invalid_quantized_frame_id, quantized_frame_active, retain_quantized_frame,
  release_quantized_frame,
}

pub record PendingQuantizedFrame : Type 0 where
  pub quantized_frame : ℕ
  pub frame : ℕ
  pub baseline_epoch_when_sent : ℕ

pub record PendingCue (F P : Type 0) : Type 0 where
  pub frame : ℕ
  pub expire_frame : ℕ
  pub cue_type : ℕ
  pub relevance_seconds : F
  pub payload : P

pub record ClientEntityState (F P : Type 0) : Type 0 where
  pub baseline : ℕ
  pub baseline_epoch : ℕ
  pub network_id : ℕ
  pub network_version : ℕ
  pub last_priority : F
  pub component_mask : ℕ
  pub reference_priority_boost_pending : Bool
  pub has_network_id : Bool
  pub pending : List PendingQuantizedFrame
  pub pending_cues : List (PendingCue F P)

abbrev pub all_components : ℕ
all_components = 2 ^ 64 - 1

-- The result of an acknowledgement; the flag says whether the frame was eligible as a baseline.
pub data Acknowledgement (F P : Type 0) : Type 0 where
  refused : Acknowledgement F P
  accepted : Bool → FrameStore → ClientEntityState F P → Acknowledgement F P

-- The loop over `state.pending` in `clear_client_entity_state`.
pub release_all : FrameStore → List PendingQuantizedFrame → FrameStore
release_all s [] = s
release_all s (p ∷ ps) = release_all (release_quantized_frame s p.quantized_frame) ps

-- The loop that drops the pending frames up to the acknowledged one.
pub release_pending_through :
    FrameStore → ℕ → List PendingQuantizedFrame → FrameStore × List PendingQuantizedFrame
release_pending_through s frame [] = (s, [])
release_pending_through s frame (p ∷ ps) = elim (leb p.frame frame) [
  | true ↦ release_pending_through (release_quantized_frame s p.quantized_frame) frame ps
  | false ↦ let (s', kept) = release_pending_through s frame ps in (s', p ∷ kept)
]

module _ {F P : Type 0} where
  -- `ClientEntityState{}`.
  pub blank_state : F → ClientEntityState F P
  blank_state unknown = record {
    baseline = invalid_quantized_frame_id;
    baseline_epoch = 0;
    network_id = 0;
    network_version = 0;
    last_priority = unknown;
    component_mask = all_components;
    reference_priority_boost_pending = false;
    has_network_id = false;
    pending = [];
    pending_cues = [];
  }

  pub ensure_states : F → ℕ → List (ClientEntityState F P) → List (ClientEntityState F P)
  unfolding blank_state
  ensure_states unknown size states =
      if ltb (length states) size
      then states ++ replicate (size - length states) (blank_state unknown)
      else states

  pub clear_client_entity_state :
      F → FrameStore → ClientEntityState F P → FrameStore × ClientEntityState F P
  unfolding release_all
  clear_client_entity_state unknown s state = (
    release_all (release_quantized_frame s state.baseline) state.pending,
    record {
      baseline = invalid_quantized_frame_id;
      baseline_epoch = 0;
      network_id = 0;
      network_version = 0;
      last_priority = unknown;
      component_mask = all_components;
      reference_priority_boost_pending = false;
      has_network_id = false;
      pending = [];
      pending_cues = [];
    },
  )

  pub clear_preserving_network_identity :
      F → FrameStore → ClientEntityState F P → FrameStore × ClientEntityState F P
  unfolding clear_client_entity_state
  clear_preserving_network_identity unknown s state =
      let (s', cleared) = clear_client_entity_state unknown s state in
      (
        s',
        record cleared {
          network_id = state.network_id;
          network_version = state.network_version;
          has_network_id = state.has_network_id;
        },
      )

  expire_cues_of : ℕ → ClientEntityState F P → ClientEntityState F P
  expire_cues_of frame state = record state {
    pending_cues = remove_if (λ cue. ltb cue.expire_frame frame) state.pending_cues;
  }

  pub expire_pending_cues : ℕ → List (ClientEntityState F P) → List (ClientEntityState F P)
  unfolding expire_cues_of
  expire_pending_cues frame states = map (expire_cues_of frame) states

  pub acknowledge_cues : ClientEntityState F P → ℕ → ClientEntityState F P
  acknowledge_cues state frame = record state {
    pending_cues = remove_if (λ cue. leb cue.frame frame) state.pending_cues;
  }

  -- The baseline that an acknowledged frame of the current epoch becomes.
  pub adopt_baseline : FrameStore → ClientEntityState F P → ℕ → FrameStore × ClientEntityState F P
  adopt_baseline s state acked =
      if not (state.baseline == acked)
      then (
        retain_quantized_frame (release_quantized_frame s state.baseline) acked,
        record state { baseline = acked },
      )
      else (s, state)

  finish_acknowledge : ℕ → Bool → FrameStore × ClientEntityState F P → Acknowledgement F P
  unfolding release_pending_through acknowledge_cues
  finish_acknowledge frame eligible (s, state) =
      let (s', kept) = release_pending_through s frame state.pending in
      accepted eligible s' (acknowledge_cues (record state { pending = kept }) frame)

  -- `ServerClientReplicator::acknowledge_entity` but for the dirty queue.
  pub acknowledge_state : FrameStore → ClientEntityState F P → ℕ → Acknowledgement F P
  unfolding adopt_baseline finish_acknowledge
  acknowledge_state s state frame = elim (find (λ p. p.frame == frame) state.pending) [
    | none ↦ refused
    | some found ↦
        if found.quantized_frame == invalid_quantized_frame_id
          || not (quantized_frame_active s found.quantized_frame)
        then refused
        else if found.baseline_epoch_when_sent == state.baseline_epoch
        then finish_acknowledge frame true (adopt_baseline s state found.quantized_frame)
        else finish_acknowledge frame false (s, state)
  ]

  pub invalidate_entity_baseline :
      FrameStore → ClientEntityState F P → FrameStore × ClientEntityState F P
  invalidate_entity_baseline s state = (
    release_quantized_frame s state.baseline,
    record state {
      baseline = invalid_quantized_frame_id;
      baseline_epoch = (state.baseline_epoch + 1) % 2 ^ 32;
    },
  )
