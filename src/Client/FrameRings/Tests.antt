-- ===== src/Client/FrameRings/Tests.antt =====
-- Runs of the store of frames, and the theorems at them.
use ashiato_sync.Base.{ℕ, ◌≡◌, refl, true, false, List, [], ◌∷◌, inl, arith, none}
use ashiato_sync.Capacity.{slot_for}
use ashiato_sync.Client.PayloadRing
use ashiato_sync.Client.PayloadRing.{no_frames}
use ashiato_sync.Client.FrameRings.{
  EntityBufferedFrame, ClientFrameRingStore, predicted_frame, no_origin, blank_frame, ring_at, read,
  write, make_store, contains, clear_all, reset, empty,
}
use ashiato_sync.Client.FrameRings.Reads.{IsValid}
use ashiato_sync.Client.FrameRings.Ready.{updated}
use ashiato_sync.Client.FrameRings.Refine.{read-write, write-IsValid}

abbrev four : ClientFrameRingStore
four = record { capacity = 4; write_generation_counter = 0; rings = [] }

abbrev sample_of : ℕ → List ℕ → EntityBufferedFrame
sample_of frame bytes = record {
  frame = frame;
  valid = true;
  entity_present = true;
  component_apply_mask = 5;
  baseline = record { tag_mask = 1; present_mask = 3; bytes = bytes };
}

abbrev written_once : ClientFrameRingStore
written_once = (write 1 (sample_of 6 (8 ∷ 9 ∷ [])) predicted_frame no_origin four).1

abbrev written_twice : ClientFrameRingStore
written_twice = (write 1 (sample_of 7 (1 ∷ 2 ∷ 3 ∷ [])) predicted_frame no_origin written_once).1

-- Where no entity has a ring.
four-IsValid : IsValid four
unfolding ring_at
four-IsValid = record {
  capacity = (2, refl, omega arith);
  rings = λ entity_index. record { sized = refl; entries = inl (refl, refl) };
}

write-IsValid_example :
    ((write 1 (sample_of 6 (8 ∷ 9 ∷ [])) predicted_frame no_origin four).0 ≡ false)
    × IsValid ((write 1 (sample_of 6 (8 ∷ 9 ∷ [])) predicted_frame no_origin four).1)
write-IsValid_example =
    write-IsValid four 1 (sample_of 6 (8 ∷ 9 ∷ [])) predicted_frame no_origin four-IsValid

once-IsValid : IsValid written_once
once-IsValid =
    (write-IsValid four 1 (sample_of 6 (8 ∷ 9 ∷ [])) predicted_frame no_origin four-IsValid).1

read-write_example :
    read written_twice 1 6 blank_frame
    ≡ updated written_once 1 (sample_of 7 (1 ∷ 2 ∷ 3 ∷ [])) 1 6 blank_frame
read-write_example =
    read-write written_once 1 (sample_of 7 (1 ∷ 2 ∷ 3 ∷ [])) predicted_frame no_origin once-IsValid
      1 6 blank_frame

-- The frame before has its bytes with a zero behind them.
grown_frame : read written_twice 1 6 blank_frame ≡ (true, sample_of 6 (8 ∷ 9 ∷ 0 ∷ []))
unfolding read write slot_for PayloadRing.ensure
grown_frame = refl

-- Frame 11 takes the slot of frame 7.
taken_slot :
    contains ((write 1 (sample_of 11 (4 ∷ [])) predicted_frame no_origin written_twice).1) 1 7
    ≡ false
unfolding contains write slot_for PayloadRing.ensure
taken_slot = refl

forgotten : contains (clear_all written_twice) 1 7 ≡ false
unfolding contains clear_all write slot_for PayloadRing.ensure
forgotten = refl

dropped : empty (reset 1 written_twice) 1 ≡ true
unfolding empty reset write
dropped = refl

not_a_power : make_store 6 ≡ none
unfolding make_store
not_a_power = refl
