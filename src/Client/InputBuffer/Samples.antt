-- ===== src/Client/InputBuffer/Samples.antt =====
-- Buffers and a packet for the tests. A packet is the list of its fields' bits; an input is written as
-- its first byte.
use ashiato_sync.Base.{Bool, true, false, List, [], ◌∷◌, ◌++◌, take, get_or}
use ashiato_sync.Wire.Queue.{bits_of, queue_sink}
use ashiato_sync.Client.AckQueue.Samples.{queue_builder}
use ashiato_sync.Client.InputBuffer.{ClientInputBuffer, blank_slot}
use ashiato_sync.Client.InputBuffer.Writer.{InputSink}

-- Inputs of one byte; those of frames 5 and 6 are recorded in a ring of four, and 4 is acknowledged.
abbrev pub two_inputs : ClientInputBuffer
two_inputs = record {
  frames = record {
    metadata =
        blank_slot
        ∷ record { frame = 5; valid = true }
        ∷ record { frame = 6; valid = true }
        ∷ blank_slot
        ∷ [];
    payloads = 0 ∷ 7 ∷ 8 ∷ 0 ∷ [];
    payload_stride = 1;
  };
  latest = 8 ∷ [];
  acked_baseline = 3 ∷ [];
  quantized_size = 1;
  last_recorded_frame = 6;
  acked_frame = 4;
  retired_transmit_frame = 4;
  truncated_packets = 0;
  truncated_frames = 0;
  has_latest = true;
  has_ops = true;
  has_acked_baseline = true;
  history_discontinuous = false;
}

abbrev pub queue_inputs : InputSink (List Bool)
queue_inputs = record {
  sink = queue_sink;
  builder = queue_builder;
  truncate_bits = λ offset b. take offset b;
  serialize =
      λ previous current current_frame previous_frame b. b ++ bits_of 8 (get_or current 0 0);
}
