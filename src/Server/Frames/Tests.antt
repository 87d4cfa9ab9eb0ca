-- ===== src/Server/Frames/Tests.antt =====
-- The frame store on concrete inputs.
use ashiato_sync.Base.{ℕ, ◌≡◌, ◌≢◌, refl, List, [], ◌∷◌, true, arith}
use ashiato_sync.Server.Frames.{
  FrameStore, ReplicatedSlot, QuantizedFrameData, create_quantized_frame, retain_quantized_frame,
  release_quantized_frame, quantized_frame_active, invalid_quantized_frame_id,
}
use ashiato_sync.Server.Frames.Counts.{Counted}
use ashiato_sync.Server.Frames.Create.{create-Counted}
use ashiato_sync.Server.Frames.Handles.{retain-Counted, release-Counted}

abbrev player : List ℕ → ℕ → ℕ → ReplicatedSlot
player frames same_frame_quantized_frame same_frame_quantized_frame_frame = record {
  entity = 7;
  archetype = 1;
  quantized_frames = frames;
  component_dirty_generations = 4 ∷ [];
  same_frame_quantized_frame = same_frame_quantized_frame;
  same_frame_quantized_frame_frame = same_frame_quantized_frame_frame;
  same_frame_cacheable = true;
  active = true;
}

abbrev position : QuantizedFrameData
position = record { tag_mask = 0; present_mask = 1; bytes = 12 ∷ 34 ∷ [] }

abbrev one_player : FrameStore
one_player = record {
  replicated = player [] invalid_quantized_frame_id 0 ∷ [];
  quantized_frames = [];
  free_quantized_frames = [];
}

-- The player's frame 5 is made; `ref_count` handles are on it.
abbrev pub frame_five : (ref_count : ℕ) → FrameStore
frame_five ref_count = record {
  replicated = player (0 ∷ []) 0 5 ∷ [];
  quantized_frames =
      record {
        slot = 0;
        frame = 5;
        archetype = 1;
        ref_count = ref_count;
        active = true;
        contents = position;
        dirty_generations = 4 ∷ [];
      }
      ∷ [];
  free_quantized_frames = [];
}

one_player-Counted : Counted one_player []
one_player-Counted = record {
  counted = λ q f at on. absurd (cc);
  held = λ q ok pos. absurd (omega arith);
  free = tt;
  small = omega arith;
}

create-Counted_example :
    Counted (frame_five 0) []
    × (quantized_frame_active (frame_five 0) 0 ≡ true)
    × (0 ≢ invalid_quantized_frame_id)
unfolding create_quantized_frame
create-Counted_example =
    create-Counted one_player 0 5 1 position (4 ∷ []) [] one_player-Counted (omega arith) refl

made-Counted : Counted (frame_five 0) []
unfolding create_quantized_frame
made-Counted =
    (create-Counted one_player 0 5 1 position (4 ∷ []) [] {index = 0} {s' = frame_five 0}
      one_player-Counted (omega arith) refl).0

pub held-Counted : Counted (frame_five 1) (0 ∷ [])
unfolding retain_quantized_frame quantized_frame_active
held-Counted = retain-Counted (frame_five 0) 0 [] made-Counted refl (omega arith)

release-Counted_example : Counted (release_quantized_frame (frame_five 1) 0) []
release-Counted_example = release-Counted (frame_five 1) 0 [] held-Counted
