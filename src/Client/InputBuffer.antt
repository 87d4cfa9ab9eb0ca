-- ===== src/Client/InputBuffer.antt =====
-- The inputs of the client (src/client/store/input_buffer.cpp and .hpp): their recording, and which
-- of them are sent. The registry and the component operations of the entity library are left to the
-- caller: `set_latest` and the application of inputs to entities are not here, and `ready` is what
-- `ready_for` answers.
pub mod Writer
pub mod Range
pub mod Samples
mod Tests
use ashiato_sync.Base.{
  ℕ, zero, suc, ◌+◌, ◌-◌, ◌*◌, ◌%◌, ◌^◌, max, Bool, true, false, ◌&&◌, ◌||◌, not, List, [], ◌∷◌,
  ◌++◌, Option, none, some, ltb, leb, ◌==◌, if◌then◌else◌, length, get_or, set, slice, splice,
}
use ashiato_sync.Client.PayloadRing.{
  FramePayloadRing, is_empty, ring_slot_for, ensure_payload_stride, payload,
}
use ashiato_sync.Client.PayloadRing
use ashiato_sync.Server.InputBuffer.{max_input_count}

pub record InputFrameSlot : Type 0 where
  pub frame : ℕ
  pub valid : Bool

abbrev pub blank_slot : InputFrameSlot
blank_slot = record { frame = 0; valid = false }

pub record ClientInputBuffer : Type 0 where
  pub frames : FramePayloadRing InputFrameSlot
  pub latest : List ℕ
  pub acked_baseline : List ℕ
  pub quantized_size : ℕ
  pub last_recorded_frame : ℕ
  pub acked_frame : ℕ
  pub retired_transmit_frame : ℕ
  pub truncated_packets : ℕ
  pub truncated_frames : ℕ
  pub has_latest : Bool
  pub has_ops : Bool
  pub has_acked_baseline : Bool
  pub history_discontinuous : Bool

-- A recorded input: its frame and bytes.
pub record ClientInputRecord : Type 0 where
  pub frame : ℕ
  pub bytes : List ℕ

pub slot_at : ClientInputBuffer → (frame : ℕ) → InputFrameSlot
unfolding ring_slot_for
slot_at b frame = get_or b.frames.metadata (ring_slot_for b.frames frame) blank_slot

-- The bytes at `frame_bytes` of a slot, as many as the ring has for each slot.
pub frame_bytes : ClientInputBuffer → (slot : ℕ) → List ℕ
unfolding payload
frame_bytes b slot = elim (payload b.frames slot) [
  | none ↦ []
  | some offset ↦ slice offset b.frames.payload_stride b.frames.payloads
]

pub ensure_capacity : (capacity_frames : ℕ) → ClientInputBuffer → ClientInputBuffer
unfolding is_empty ensure_payload_stride
ensure_capacity capacity_frames b =
    if not b.has_ops || b.quantized_size == 0
    then b
    else if is_empty b.frames
    then record b {
      frames =
          ensure_payload_stride b.quantized_size
            (PayloadRing.ensure blank_slot capacity_frames b.frames);
    }
    else b

-- Whether the slot has another input that is not acknowledged.
pub overwrites : ClientInputBuffer → (frame : ℕ) → Bool
unfolding slot_at
overwrites b frame =
    let stored = slot_at b frame in
    stored.valid && not (stored.frame == frame) && ltb b.acked_frame stored.frame

-- The latest input is stored as that of `frame`.
pub store_frame : (frame : ℕ) → ClientInputBuffer → ClientInputBuffer
unfolding overwrites ring_slot_for payload
store_frame frame b =
    let slot = ring_slot_for b.frames frame in
    let stride = b.frames.payload_stride in
    record b {
      history_discontinuous = if overwrites b frame then true else b.history_discontinuous;
      frames = record b.frames {
        metadata = set b.frames.metadata slot (record { frame = frame; valid = true });
        payloads = elim (payload b.frames slot) [
          | none ↦ b.frames.payloads
          | some offset ↦ splice offset (slice 0 stride b.latest) b.frames.payloads
        ];
      };
      last_recorded_frame = max b.last_recorded_frame frame;
    }

-- Whether the ring has the input of `frame`.
pub has_frame : ClientInputBuffer → (frame : ℕ) → Bool
unfolding slot_at
has_frame b frame =
    let stored = slot_at b frame in
    stored.valid && (stored.frame == frame) && (b.frames.payload_stride == b.quantized_size)

-- What is recorded, if anything is, and the buffer after.
pub record_frame :
    (ready : Bool)
    → (capacity_frames frame : ℕ) → ClientInputBuffer
    → Option ClientInputRecord × ClientInputBuffer
unfolding is_empty has_frame frame_bytes ring_slot_for ensure_capacity store_frame
record_frame ready capacity_frames frame b =
    if not b.has_latest || not ready
    then (none, b)
    else if leb frame b.acked_frame
    then (
      some (record {
        frame = frame;
        bytes =
            if not (is_empty b.frames) && has_frame b frame
            then frame_bytes b (ring_slot_for b.frames frame)
            else b.latest;
      }),
      b,
    )
    else (let roomy = ensure_capacity capacity_frames b in
        let after = store_frame frame roomy in
        if is_empty roomy.frames then (none, roomy) else (
          some (record {
            frame = frame;
            bytes = frame_bytes after (ring_slot_for after.frames frame);
          }),
          after,
        ))

-- The loop over the `count` frames from `current` on, with what was recorded so far.
pub fill_frames :
    (count current : ℕ)
    → List ClientInputRecord
    → ClientInputBuffer
    → List ClientInputRecord × ClientInputBuffer
unfolding has_frame store_frame frame_bytes ring_slot_for
fill_frames zero current recorded b = (recorded, b)
fill_frames (suc count) current recorded b =
    if has_frame b current
    then fill_frames count (current + 1) recorded
        (record b { last_recorded_frame = max b.last_recorded_frame current })
    else (let after = store_frame current b in
        fill_frames count (current + 1)
          (recorded
            ++ (record {
              frame = current;
              bytes = frame_bytes after (ring_slot_for after.frames current);
            }
                ∷ []))
          after)

-- For a frame below 2 ^ 32 - 1: the loop over frames of 32 bits goes up to `frame`.
pub fill_frames_through :
    (ready : Bool)
    → (capacity_frames frame : ℕ) → ClientInputBuffer
    → List ClientInputRecord × ClientInputBuffer
unfolding ensure_capacity is_empty fill_frames
fill_frames_through ready capacity_frames frame b =
    if not b.has_latest || not ready || leb frame b.acked_frame
    then ([], b)
    else (let roomy = ensure_capacity capacity_frames b in
        let begin =
          max ((roomy.acked_frame + 1) % 2 ^ 32) ((roomy.last_recorded_frame + 1) % 2 ^ 32) in
        if is_empty roomy.frames
        then ([], roomy)
        else fill_frames (frame + 1 - begin) begin [] roomy)

pub acknowledge_frame : (frame : ℕ) → ClientInputBuffer → ClientInputBuffer
unfolding is_empty slot_at frame_bytes ring_slot_for
acknowledge_frame frame b =
    let stored = slot_at b frame in
    let found_baseline = not (is_empty b.frames) && stored.valid && (stored.frame == frame) in
    if leb frame b.acked_frame || ltb b.last_recorded_frame frame then b else record b {
      acked_baseline =
          if found_baseline then frame_bytes b (ring_slot_for b.frames frame) else b.acked_baseline;
      has_acked_baseline = frame == 0 || found_baseline;
      acked_frame = frame;
      retired_transmit_frame = max b.retired_transmit_frame frame;
    }

pub retire_transmit_frames_through : (frame : ℕ) → ClientInputBuffer → ClientInputBuffer
retire_transmit_frames_through frame b = record b {
  retired_transmit_frame = max b.retired_transmit_frame frame;
}

-- A run of frames from `first` to `last`, none if `first` is 0.
pub record InputFrameRange : Type 0 where
  pub first : ℕ
  pub last : ℕ

abbrev pub no_range : InputFrameRange
no_range = record { first = 0; last = 0 }

pub range_count : InputFrameRange → ℕ
range_count range = if range.first == 0 then 0 else (range.last + 2 ^ 32 - range.first + 1) % 2 ^ 32

pub trailing : InputFrameRange → (frame_count : ℕ) → InputFrameRange
trailing range frame_count = record range {
  first = (range.last + 2 ^ 32 - frame_count + 1) % 2 ^ 32;
}

-- The loop down from `frame`, which looks at `count` frames at most.
pub extend_range : ClientInputBuffer → (count frame : ℕ) → InputFrameRange → InputFrameRange
unfolding slot_at
extend_range b zero frame range = range
extend_range b (suc count) frame range =
    let stored = slot_at b frame in
    let rest =
      extend_range b count (frame - 1) (record { first = frame; last = b.last_recorded_frame }) in
    if not stored.valid || not (stored.frame == frame) then range else rest

-- The oldest frame that is looked at.
pub oldest_frame : (transmit_floor last_recorded_frame : ℕ) → ℕ
oldest_frame transmit_floor last_recorded_frame =
    if ltb max_input_count ((last_recorded_frame + 2 ^ 32 - transmit_floor) % 2 ^ 32)
    then (last_recorded_frame + 2 ^ 32 - max_input_count + 1) % 2 ^ 32
    else transmit_floor + 1

pub find_newest_contiguous_input_range : ClientInputBuffer → (transmit_floor : ℕ) → InputFrameRange
unfolding is_empty oldest_frame extend_range
find_newest_contiguous_input_range b transmit_floor =
    if is_empty b.frames || not (b.frames.payload_stride == b.quantized_size)
    then no_range
    else extend_range b
        (b.last_recorded_frame + 1 - oldest_frame transmit_floor b.last_recorded_frame)
        b.last_recorded_frame no_range

pub must_encode_first_frame_in_full : ClientInputBuffer → (frame : ℕ) → Bool
must_encode_first_frame_in_full b frame =
    let baseline_valid = (b.acked_frame == 0) || b.has_acked_baseline in
    b.history_discontinuous || not (frame == (b.acked_frame + 1) % 2 ^ 32) || not baseline_valid
