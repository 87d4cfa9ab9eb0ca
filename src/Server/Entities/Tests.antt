-- ===== src/Server/Entities/Tests.antt =====
-- The states of an entity on concrete inputs; a priority and a cue's payload are numbers.
use ashiato_sync.Base.{ℕ, ◌≡◌, refl, List, [], ◌∷◌, ◌++◌, true, false, some, arith, find, ◌==◌}
use ashiato_sync.Server.Frames.{
  invalid_quantized_frame_id, quantized_frame_active, retain_quantized_frame,
  release_quantized_frame,
}
use ashiato_sync.Server.Frames.Counts.{Counted}
use ashiato_sync.Server.Frames.Leaks.{NoneLeft}
use ashiato_sync.Server.Frames.Tests.{frame_five, held-Counted}
use ashiato_sync.Server.Entities.{
  PendingQuantizedFrame, ClientEntityState, all_components, acknowledge_state,
  clear_client_entity_state, invalidate_entity_baseline,
}
use ashiato_sync.Server.Entities.Handles.{
  handles, add_invalid, acknowledge_state-Counted, clear_client_entity_state-Counted,
}
use ashiato_sync.Server.Entities.Acknowledge.{Acked, acknowledge_state-Acked, stale_acknowledgement}

-- Frame 5 was sent in epoch 0 and is not acknowledged.
abbrev sent_five : PendingQuantizedFrame
sent_five = record { quantized_frame = 0; frame = 5; baseline_epoch_when_sent = 0 }

abbrev state_of : (baseline epoch : ℕ) → List PendingQuantizedFrame → ClientEntityState ℕ ℕ
state_of baseline epoch pending = record {
  baseline = baseline;
  baseline_epoch = epoch;
  network_id = 1;
  network_version = 1;
  last_priority = 0;
  component_mask = all_components;
  reference_priority_boost_pending = false;
  has_network_id = true;
  pending = pending;
  pending_cues = [];
}

abbrev pub waiting : ClientEntityState ℕ ℕ
waiting = state_of invalid_quantized_frame_id 0 (sent_five ∷ [])

-- Frame 5 is the baseline.
abbrev settled : ClientEntityState ℕ ℕ
settled = state_of 0 0 []

waiting-Counted : Counted (frame_five 1) (handles waiting ++ [])
waiting-Counted = add_invalid (0 ∷ []) held-Counted

acknowledge_state-Acked_example :
    (found : PendingQuantizedFrame) × (find (λ p. p.frame == 5) (sent_five ∷ []) ≡ some found)
    × (quantized_frame_active (frame_five 1) found.quantized_frame ≡ true)
    × Acked waiting 5 found true settled
unfolding acknowledge_state quantized_frame_active retain_quantized_frame release_quantized_frame
acknowledge_state-Acked_example =
    acknowledge_state-Acked (frame_five 1) waiting 5 {s' = frame_five 1} refl

acknowledge_state-Counted_example :
    Counted (frame_five 1) (handles settled ++ [])
    × NoneLeft (frame_five 1) (handles waiting ++ []) (frame_five 1) (handles settled ++ [])
unfolding acknowledge_state quantized_frame_active retain_quantized_frame release_quantized_frame
acknowledge_state-Counted_example =
    acknowledge_state-Counted (frame_five 1) waiting 5 [] {eligible = true} waiting-Counted
      (omega arith) refl

clear_client_entity_state-Counted_example :
    let (s', cleared) = clear_client_entity_state 999 (frame_five 1) waiting in
    Counted s' (handles cleared ++ [])
clear_client_entity_state-Counted_example =
    clear_client_entity_state-Counted 999 (frame_five 1) waiting [] waiting-Counted

stale_acknowledgement_example :
    (false ≡ false) × (invalid_quantized_frame_id ≡ invalid_quantized_frame_id)
unfolding acknowledge_state invalidate_entity_baseline quantized_frame_active
    release_quantized_frame
stale_acknowledgement_example =
    stale_acknowledgement (frame_five 1) waiting 5
      {state' = state_of invalid_quantized_frame_id 1 []} (omega arith, tt) (omega arith) refl
