-- ===== src/Server/InputBuffer.antt =====
-- The inputs of one client on the server (src/server/input_buffer.cpp and .hpp). The bytes of an
-- input are a list; the packet and the deserializer of the input's component are parameters. The
-- packet traces are left out.
pub mod Stored
pub mod Select
mod Tests
use ashiato_sync.Base.{
  ℕ, zero, suc, ◌+◌, ◌-◌, ◌%◌, ◌^◌, max, Bool, true, false, ◌&&◌, ◌||◌, not, List, [], ◌∷◌, Option,
  none, some, ltb, leb, ◌==◌, if◌then◌else◌, length, get_or, set, replicate,
}
use ashiato_sync.Capacity.{slot_for}
use ashiato_sync.Wire.{BitSource, read_bits, read_varint2_raw, ◌>>=◌}

pub record InputFrame : Type 0 where
  pub frame : ℕ
  pub valid : Bool
  pub bytes : List ℕ

abbrev pub blank_input : InputFrame
blank_input = record { frame = 0; valid = false; bytes = [] }

pub record InputStats : Type 0 where
  pub input_frames_applied : ℕ
  pub input_starvation_frames : ℕ
  pub input_reused_frames : ℕ
  pub latest_received_input_frame : ℕ
  pub latest_applied_input_frame : ℕ

pub record InputBuffer : Type 0 where
  pub input_frames : List InputFrame
  pub latest_input : List ℕ
  pub latest_applied_input : List ℕ
  pub input_ack_frame : ℕ
  pub latest_applied_input_frame : ℕ
  pub has_latest_input : Bool
  pub has_latest_applied_input : Bool
  pub stats : InputStats

abbrev pub no_inputs : InputBuffer
no_inputs = record {
  input_frames = [];
  latest_input = [];
  latest_applied_input = [];
  input_ack_frame = 0;
  latest_applied_input_frame = 0;
  has_latest_input = false;
  has_latest_applied_input = false;
  stats = record {
    input_frames_applied = 0;
    input_starvation_frames = 0;
    input_reused_frames = 0;
    latest_received_input_frame = 0;
    latest_applied_input_frame = 0;
  };
}

-- `input_frames_[frame & (input_frames_.size() - 1U)]`.
pub input_at : List InputFrame → ℕ → InputFrame
input_at frames frame = get_or frames (slot_for (length frames) frame) blank_input

-- The store to a slot.
pub store_input : (frame : ℕ) → (bytes : List ℕ) → List InputFrame → List InputFrame
store_input frame bytes frames =
    set frames (slot_for (length frames) frame)
      (record { frame = frame; valid = true; bytes = bytes })

pub ensure_inputs : (capacity_frames : ℕ) → List InputFrame → List InputFrame
ensure_inputs capacity_frames frames =
    if length frames == 0 then replicate capacity_frames blank_input else frames

-- `bytes` is none for a null pointer; it has `quantized_size` bytes.
pub set_local_frame :
    (frame : ℕ)
    → Option (List ℕ)
    → (quantized_size capacity_frames : ℕ) → InputBuffer
    → Bool × InputBuffer
set_local_frame frame none quantized_size capacity_frames b = (false, b)
set_local_frame frame (some bytes) quantized_size capacity_frames b =
    if frame == 0 || quantized_size == 0 || capacity_frames == 0 then (false, b) else (
      true,
      record b {
        input_frames = store_input frame bytes (ensure_inputs capacity_frames b.input_frames);
        latest_input = bytes;
        input_ack_frame = max b.input_ack_frame frame;
        has_latest_input = true;
        stats = record b.stats {
          latest_received_input_frame = max b.stats.latest_received_input_frame frame;
        };
      },
    )

-- The input of `frame` came, decoded: it is kept if it is newer than what was acknowledged.
pub receive_input : (frame : ℕ) → (decoded : List ℕ) → InputBuffer → InputBuffer
unfolding store_input
receive_input frame decoded b =
    if ltb b.input_ack_frame frame
    then record b {
      input_frames = store_input frame decoded b.input_frames;
      latest_input = decoded;
      input_ack_frame = frame;
      has_latest_input = true;
      stats = record b.stats { latest_received_input_frame = frame };
    }
    else b

-- The input that the first one of the packet is relative to, if the buffer still has it.
pub find_baseline : (baseline_frame quantized_size : ℕ) → InputBuffer → Option (List ℕ)
unfolding input_at
find_baseline baseline_frame quantized_size b =
    let baseline = input_at b.input_frames baseline_frame in
    if not (length b.input_frames == 0)
      && baseline.valid
      && baseline.frame == baseline_frame
      && length baseline.bytes == quantized_size
    then some baseline.bytes
    else if b.has_latest_input
        && baseline_frame == b.input_ack_frame
        && length b.latest_input == quantized_size
    then some b.latest_input
    else none

-- The fields before the inputs: the baseline, whether the first input is relative to it, the full
-- value of its frame, and the number of inputs.
pub record InputHeader : Type 0 where
  pub baseline_frame : ℕ
  pub first_input_relative : Bool
  pub first_input_value : ℕ
  pub input_count : ℕ

abbrev pub input_count_bits : ℕ
input_count_bits = 5

abbrev pub max_input_count : ℕ
max_input_count = 2 ^ input_count_bits - 1

pub first_input_frame : InputHeader → ℕ
first_input_frame header =
    if header.first_input_relative
    then (header.baseline_frame + 1) % 2 ^ 32
    else header.first_input_value % 2 ^ 32

-- A packet that names a baseline acknowledges the inputs up to it.
pub raise_ack : ℕ → InputBuffer → InputBuffer
raise_ack baseline_frame b =
    if ltb b.input_ack_frame baseline_frame
    then record b { input_ack_frame = baseline_frame }
    else b

-- The input before the first one of the packet: zeros, but for a baseline that the first input is
-- relative to, which the buffer may not have.
pub previous_input : (quantized_size : ℕ) → InputHeader → InputBuffer → Option (List ℕ)
unfolding find_baseline
previous_input quantized_size header b =
    if not (header.baseline_frame == 0) && header.first_input_relative
    then find_baseline header.baseline_frame quantized_size b
    else some (replicate quantized_size 0)

-- The deserializer: the bytes before, if there are any, the frame and the frame before.
abbrev pub Deserialize : Type 0 → Type 0
Deserialize B =
    B → (previous : Option (List ℕ)) → (current_frame previous_frame : ℕ) → Option (List ℕ × B)

module _ {B : Type 0} (source : BitSource B) (deserialize : Deserialize B) where
  -- The loop over the inputs of a packet, `count` of which are left.
  pub process_inputs :
      (count frame : ℕ) → (previous : Option (List ℕ)) → B → InputBuffer → Bool × InputBuffer
  unfolding receive_input
  process_inputs zero frame previous packet b = (true, b)
  process_inputs (suc count) frame previous packet b =
      elim (deserialize packet previous frame
        (elim previous [ none ↦ 0 | some bytes ↦ (frame + (2 ^ 32 - 1)) % 2 ^ 32 ])) [
          | none ↦ (false, b)
          | some result ↦
              elim (source.read_offset_bits result.1 == source.read_offset_bits packet) [
                | true ↦ (false, b)
                | false ↦
                    process_inputs count ((frame + 1) % 2 ^ 32) (some result.0) result.1
                      (receive_input frame result.0 b)
              ]
        ]

  pub read_header : B → Option (InputHeader × B)
  read_header packet = do
    (baseline_frame, packet) ← read_bits source 32 32 packet
    ((first_input_relative, first_input_value), packet) ← read_varint2_raw source 0 32 packet
    (input_count, packet) ← read_bits source 16 input_count_bits packet
    some (
      record {
        baseline_frame = baseline_frame;
        first_input_relative = first_input_relative;
        first_input_value = first_input_value;
        input_count = input_count;
      },
      packet,
    )

  -- What follows the header.
  pub process_payload :
      (quantized_size capacity_frames : ℕ) → InputHeader → B → InputBuffer → Bool × InputBuffer
  unfolding process_inputs first_input_frame raise_ack previous_input ensure_inputs
  process_payload quantized_size capacity_frames header packet b =
      let known = raise_ack header.baseline_frame b in
      if ltb max_input_count header.input_count
      then (false, b)
      else elim (previous_input quantized_size header known) [
        | none ↦ (true, known)
        | some previous ↦
            if first_input_frame header == 0 || header.input_count == 0
            then (true, known)
            else process_inputs header.input_count (first_input_frame header)
                (if header.first_input_relative then some previous else none) packet
                (record known { input_frames = ensure_inputs capacity_frames known.input_frames })
      ]

  pub process_packet_payload :
      (quantized_size capacity_frames : ℕ) → B → InputBuffer → Bool × InputBuffer
  unfolding read_header process_payload
  process_packet_payload quantized_size capacity_frames packet b = elim (read_header packet) [
    | none ↦ (false, b)
    | some header_and_rest ↦
        process_payload quantized_size capacity_frames header_and_rest.0 header_and_rest.1 b
  ]

-- The loop over the frames up to `due_frame`, from `frame` on, which keeps the latest input that fits;
-- the frame counts in 32 bits. `none` is a loop that is still running when the fuel is used up.
pub best_input :
    (quantized_size due_frame : ℕ)
    → List InputFrame
    → (fuel frame : ℕ) → Option InputFrame
    → Option (Option InputFrame)
unfolding input_at
best_input quantized_size due_frame frames zero frame best = none
best_input quantized_size due_frame frames (suc fuel) frame best =
    let input = input_at frames frame in
    let rest = best_input quantized_size due_frame frames fuel ((frame + 1) % 2 ^ 32) (
      if input.valid && input.frame == frame && length input.bytes == quantized_size
      then some input
      else best) in
    if leb frame due_frame then rest else some best

-- The first frame that `select_input_for_frame` looks at.
pub window_begin : (due_frame : ℕ) → InputBuffer → ℕ
window_begin due_frame b =
    max ((b.latest_applied_input_frame + 1) % 2 ^ 32)
      (if ltb (length b.input_frames) due_frame then due_frame - length b.input_frames + 1 else 1)

abbrev pub bump : ℕ → ℕ
bump counter = (counter + 1) % 2 ^ 64

-- What follows the loop: the bytes and the frame of the input for `due_frame`, if there is one. The
-- result is always marked as cached.
pub apply_input :
    (due_frame quantized_size : ℕ)
    → InputBuffer
    → Option InputFrame
    → (Option (List ℕ) × ℕ) × InputBuffer
apply_input due_frame quantized_size b best = elim best [
  | some input ↦ (
    (some input.bytes, input.frame),
    record b {
      latest_applied_input = input.bytes;
      latest_applied_input_frame = input.frame;
      has_latest_applied_input = true;
      stats = record b.stats {
        latest_applied_input_frame = input.frame;
        input_frames_applied = bump b.stats.input_frames_applied;
        input_starvation_frames =
            if ltb input.frame due_frame
            then bump b.stats.input_starvation_frames
            else b.stats.input_starvation_frames;
      };
    },
  )
  | none ↦
      if b.has_latest_applied_input && length b.latest_applied_input == quantized_size
      then (
        (some b.latest_applied_input, b.latest_applied_input_frame),
        record b {
          stats = record b.stats {
            input_starvation_frames = bump b.stats.input_starvation_frames;
            input_reused_frames = bump b.stats.input_reused_frames;
          };
        },
      )
      else (
        (none, 0),
        record b {
          stats = record b.stats { input_starvation_frames = bump b.stats.input_starvation_frames };
        },
      )
]

-- The fuel is one for each frame of the window and one for the test that ends the loop; `none` is the
-- loop that does not end.
pub select_input_for_frame :
    (due_frame quantized_size : ℕ) → InputBuffer → Option ((Option (List ℕ) × ℕ) × InputBuffer)
unfolding best_input window_begin apply_input
select_input_for_frame due_frame quantized_size b =
    let begin = window_begin due_frame b in
    let searched =
      if length b.input_frames == 0
      then some none
      else best_input quantized_size due_frame b.input_frames (suc (due_frame + 1 - begin)) begin
          none in
    elim searched [ none ↦ none | some best ↦ some (apply_input due_frame quantized_size b best) ]
