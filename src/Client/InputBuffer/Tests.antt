-- ===== src/Client/InputBuffer/Tests.antt =====
-- The inputs of the client on a small buffer.
use ashiato_sync.Base.{◌≡◌, refl, arith, max, ◌-◌, ◌+◌}
use ashiato_sync.Capacity.{slot_for}
use ashiato_sync.Client.InputBuffer.{find_newest_contiguous_input_range}
use ashiato_sync.Client.InputBuffer.Range.{
  EmptyOrNewest, find_newest_contiguous_input_range-IsNewest,
}
use ashiato_sync.Client.InputBuffer.Samples.{two_inputs}

find_newest_contiguous_input_range-IsNewest_example :
    EmptyOrNewest two_inputs
      (max (4 + 1) (6 - 30))
      (find_newest_contiguous_input_range two_inputs 4)
find_newest_contiguous_input_range-IsNewest_example =
    find_newest_contiguous_input_range-IsNewest two_inputs 4 (omega arith) (omega arith)

-- Both inputs are to be sent.
both_frames : find_newest_contiguous_input_range two_inputs 4 ≡ record { first = 5; last = 6 }
unfolding find_newest_contiguous_input_range slot_for
both_frames = refl
