-- ===== src/Client/FrameRings.antt =====
-- The buffered frames of each entity on the client (src/client/store/frame_ring_store.cpp and .hpp).
-- A view of a frame holds the bytes that its pointer points to.

pub mod Fill
pub mod Slot
pub mod Reads
pub mod Ready
pub mod Refine
mod Tests
use ashiato_sync.Base.{
  ℕ, zero, suc, ◌+◌, ◌-◌, ◌*◌, ◌%◌, ◌^◌, Bool, true, false, ◌&&◌, ◌||◌, not, List, [], ◌∷◌, ◌++◌,
  Option, none, some, ltb, leb, ◌==◌, if◌then◌else◌, length, replicate, get_or, set, map, slice,
  take, splice,
}
use ashiato_sync.Capacity.{is_power_of_two}
use ashiato_sync.Server.Frames.{QuantizedFrameData}
use ashiato_sync.Client.PayloadRing.{
  FramePayloadRing, no_frames, is_empty, ring_slot_for, reset_ring, ensure_payload_stride,
  clear_payloads, payload,
}
use ashiato_sync.Client.PayloadRing

pub data FrameWriteSource : Type 0 where
  unknown buffered_frame predicted_frame authoritative_seed : FrameWriteSource
  resimulated_frame copied_frame presentation_frame : FrameWriteSource

pub record FramePresentationOrigin : Type 0 where
  pub valid : Bool
  pub write_generation : ℕ
  pub write_source : FrameWriteSource
  pub payload_hash : ℕ
  pub boundary_corrected : Bool

pub record FrameMetadata : Type 0 where
  pub frame : ℕ
  pub valid : Bool
  pub entity_present : Bool
  pub component_apply_mask : ℕ
  pub tag_mask : ℕ
  pub present_mask : ℕ
  pub write_generation : ℕ
  pub write_source : FrameWriteSource
  pub origin : FramePresentationOrigin

abbrev pub no_origin : FramePresentationOrigin
no_origin = record {
  valid = false;
  write_generation = 0;
  write_source = unknown;
  payload_hash = 0;
  boundary_corrected = false;
}

abbrev pub blank_metadata : FrameMetadata
blank_metadata = record {
  frame = 0;
  valid = false;
  entity_present = false;
  component_apply_mask = 0;
  tag_mask = 0;
  present_mask = 0;
  write_generation = 0;
  write_source = unknown;
  origin = no_origin;
}

pub record EntityBufferedFrame : Type 0 where
  pub frame : ℕ
  pub valid : Bool
  pub entity_present : Bool
  pub component_apply_mask : ℕ
  pub baseline : QuantizedFrameData

abbrev pub blank_frame : EntityBufferedFrame
blank_frame = record {
  frame = 0;
  valid = false;
  entity_present = false;
  component_apply_mask = 0;
  baseline = record { tag_mask = 0; present_mask = 0; bytes = [] };
}

-- The metadata of a frame, the bytes that it points to, none for a null pointer, and their number.
pub record EntityFrameView : Type 0 where
  pub sample : FrameMetadata
  pub bytes : Option (List ℕ)
  pub byte_count : ℕ

abbrev pub EntityRing : Type 0
EntityRing = FramePayloadRing FrameMetadata

pub record ClientFrameRingStore : Type 0 where
  pub capacity : ℕ
  pub write_generation_counter : ℕ
  pub rings : List EntityRing

-- The constructor: none where it throws.
pub make_store : (capacity : ℕ) → Option ClientFrameRingStore
unfolding is_power_of_two
make_store capacity =
    if not (is_power_of_two capacity)
    then none
    else some (record { capacity = capacity; write_generation_counter = 0; rings = [] })

pub ring_at : ClientFrameRingStore → ℕ → EntityRing
ring_at s entity_index = get_or s.rings entity_index no_frames

pub metadata_at : EntityRing → ℕ → FrameMetadata
metadata_at ring slot = get_or ring.metadata slot blank_metadata

pub empty : ClientFrameRingStore → ℕ → Bool
unfolding ring_at is_empty
empty s entity_index = leb (length s.rings) entity_index || is_empty (ring_at s entity_index)

-- `rings_.resize(entity_index + 1)`, where there are fewer.
pub grow_rings : ℕ → List EntityRing → List EntityRing
grow_rings entity_index rings =
    if leb (length rings) entity_index
    then rings ++ replicate (entity_index + 1 - length rings) no_frames
    else rings

pub ensure : (entity_index : ℕ) → ClientFrameRingStore → ClientFrameRingStore
unfolding grow_rings
ensure entity_index s =
    let rings = grow_rings entity_index s.rings in
    record s {
      rings =
          set rings entity_index
            (PayloadRing.ensure blank_metadata s.capacity (get_or rings entity_index no_frames));
    }

-- Each field of the metadata is reset to its default.
pub clear_ring : EntityRing → EntityRing
unfolding clear_payloads
clear_ring ring =
    clear_payloads (record ring { metadata = map (λ sample. blank_metadata) ring.metadata })

pub clear : (entity_index : ℕ) → ClientFrameRingStore → ClientFrameRingStore
unfolding clear_ring ring_at
clear entity_index s =
    if leb (length s.rings) entity_index
    then s
    else record s { rings = set s.rings entity_index (clear_ring (ring_at s entity_index)) }

pub reset : (entity_index : ℕ) → ClientFrameRingStore → ClientFrameRingStore
unfolding ring_at reset_ring
reset entity_index s =
    if leb (length s.rings) entity_index
    then s
    else record s { rings = set s.rings entity_index (reset_ring (ring_at s entity_index)) }

-- `clear` of the rings below `count`.
pub clear_rings : (count : ℕ) → ClientFrameRingStore → ClientFrameRingStore
unfolding clear
clear_rings zero s = s
clear_rings (suc entity_index) s = clear entity_index (clear_rings entity_index s)

pub clear_all : ClientFrameRingStore → ClientFrameRingStore
unfolding clear_rings
clear_all s = clear_rings (length s.rings) s

pub contains : ClientFrameRingStore → (entity_index frame : ℕ) → Bool
unfolding empty ring_at metadata_at ring_slot_for
contains s entity_index frame =
    let ring = ring_at s entity_index in
    let sample = metadata_at ring (ring_slot_for ring frame) in
    if empty s entity_index then false else sample.valid && (sample.frame == frame)

pub make_view : EntityRing → (slot : ℕ) → EntityFrameView
unfolding metadata_at payload
make_view ring slot = record {
  sample = metadata_at ring slot;
  bytes = elim (payload ring slot) [
    | none ↦ none
    | some offset ↦ some (slice offset ring.payload_stride ring.payloads)
  ];
  byte_count = ring.payload_stride;
}

-- The view, none where `false` is returned.
pub view : ClientFrameRingStore → (entity_index frame : ℕ) → Option EntityFrameView
unfolding contains make_view ring_at ring_slot_for
view s entity_index frame =
    if not (contains s entity_index frame)
    then none
    else (let ring = ring_at s entity_index in some (make_view ring (ring_slot_for ring frame)))

-- The loop over `count` slots from `slot` on, `latest` the slot found so far.
pub find_latest : EntityRing → (count slot : ℕ) → (latest : Option ℕ) → Option ℕ
unfolding metadata_at
find_latest ring zero slot latest = latest
find_latest ring (suc count) slot latest =
    let sample = metadata_at ring slot in
    let newer : Bool = elim latest [
      | none ↦ true
      | some latest_slot ↦ ltb (metadata_at ring latest_slot).frame sample.frame
    ] in
    find_latest ring count (slot + 1) (
      if not sample.valid || not sample.entity_present
      then latest
      else (if newer then some slot else latest))

pub latest_present : ClientFrameRingStore → (entity_index : ℕ) → Option EntityFrameView
unfolding empty ring_at find_latest make_view
latest_present s entity_index =
    let ring = ring_at s entity_index in
    if empty s entity_index then none else elim (find_latest ring (length ring.metadata) 0 none) [
      | none ↦ none
      | some latest_slot ↦ some (make_view ring latest_slot)
    ]

-- `std::vector::resize` of bytes.
pub resize_bytes : (size : ℕ) → List ℕ → List ℕ
resize_bytes size bytes = take size bytes ++ replicate (size - length bytes) 0

-- The frame that `read` fills from the metadata, with `bytes`.
pub copied : FrameMetadata → (bytes : List ℕ) → EntityBufferedFrame
copied sample bytes = record {
  frame = sample.frame;
  valid = sample.valid;
  entity_present = sample.entity_present;
  component_apply_mask = sample.component_apply_mask;
  baseline = record {
    tag_mask = sample.tag_mask;
    present_mask = sample.present_mask;
    bytes = bytes;
  };
}

-- `read` from the view that it found: what is returned, and `out` after.
pub read_view : EntityFrameView → EntityBufferedFrame → Bool × EntityBufferedFrame
unfolding resize_bytes copied
read_view v out =
    if v.byte_count == 0
    then (true, copied v.sample (resize_bytes v.byte_count out.baseline.bytes))
    else elim v.bytes [
      | none ↦ (false, copied v.sample (resize_bytes v.byte_count out.baseline.bytes))
      | some bytes ↦ (true, copied v.sample bytes)
    ]

pub read :
    ClientFrameRingStore
    → (entity_index frame : ℕ) → EntityBufferedFrame
    → Bool × EntityBufferedFrame
unfolding view read_view
read s entity_index frame out = elim (view s entity_index frame) [
  | none ↦ (false, out)
  | some v ↦ read_view v out
]

-- The metadata of a frame whose write begins.
pub begun : (frame generation : ℕ) → FrameWriteSource → FrameMetadata
begun frame generation source = record blank_metadata {
  frame = frame;
  valid = true;
  write_generation = generation;
  write_source = source;
}

-- `std::fill` of a slot's payload with zeros, unless the payload is a null pointer.
pub fill_slot : (slot : ℕ) → EntityRing → EntityRing
unfolding payload
fill_slot slot ring = elim (payload ring slot) [
  | none ↦ ring
  | some offset ↦ record ring {
    payloads = splice offset (replicate ring.payload_stride 0) ring.payloads;
  }
]

-- `begin_write` on the entity's ring, once it is there: the ring after and the slot.
pub begin_ring :
    (frame payload_size generation : ℕ) → FrameWriteSource → EntityRing → ℕ × EntityRing
unfolding ensure_payload_stride ring_slot_for begun fill_slot
begin_ring frame payload_size generation source ring =
    let wide = ensure_payload_stride payload_size ring in
    let slot = ring_slot_for wide frame in
    (
      slot,
      fill_slot slot
          (record wide { metadata = set wide.metadata slot (begun frame generation source) }),
    )

-- The store after, and the slot that the returned pointers are of.
pub begin_write :
    (entity_index frame payload_size : ℕ)
    → FrameWriteSource
    → ClientFrameRingStore
    → ℕ × ClientFrameRingStore
unfolding ensure ring_at begin_ring
begin_write entity_index frame payload_size source s =
    let ready = ensure entity_index s in
    let generation = (ready.write_generation_counter + 1) % 2 ^ 64 in
    let (slot, ring) =
      begin_ring frame payload_size generation source (ring_at ready entity_index) in
    (
      slot,
      record ready {
        write_generation_counter = generation;
        rings = set ready.rings entity_index ring;
      },
    )

-- The metadata that `write` leaves.
pub written : EntityBufferedFrame → FramePresentationOrigin → FrameMetadata → FrameMetadata
written sample origin metadata = record metadata {
  valid = sample.valid;
  entity_present = sample.entity_present;
  component_apply_mask = sample.component_apply_mask;
  tag_mask = sample.baseline.tag_mask;
  present_mask = sample.baseline.present_mask;
  origin = origin;
}

-- `write` on a ring whose slot was begun: the fields, then the bytes. It is marked true where the
-- code throws.
pub write_slot :
    (slot : ℕ) → EntityBufferedFrame → FramePresentationOrigin → EntityRing → Bool × EntityRing
unfolding written metadata_at payload
write_slot slot sample origin ring =
    let filled = record ring {
      metadata = set ring.metadata slot (written sample origin (metadata_at ring slot));
    } in
    if ring.payload_stride == 0 then (false, filled) else elim (payload ring slot) [
      | none ↦ (true, filled)
      | some offset ↦
          (false, record filled { payloads = splice offset sample.baseline.bytes ring.payloads })
    ]

-- Whether the code throws, and the store after.
pub write :
    (entity_index : ℕ)
    → EntityBufferedFrame
    → FrameWriteSource
    → FramePresentationOrigin
    → ClientFrameRingStore
    → Bool × ClientFrameRingStore
unfolding begin_write write_slot ring_at
write entity_index sample source origin s =
    let (slot, begun_store) =
      begin_write entity_index sample.frame (length sample.baseline.bytes) source s in
    let (throws, ring) = write_slot slot sample origin (ring_at begun_store entity_index) in
    (throws, record begun_store { rings = set begun_store.rings entity_index ring })

-- The frame that `copy_frames` makes of a slot.
pub copy_frame : ClientFrameRingStore → (entity_index : ℕ) → FrameMetadata → EntityBufferedFrame
unfolding read
copy_frame s entity_index metadata =
    if metadata.valid
    then (read s entity_index metadata.frame blank_frame).1
    else record blank_frame { frame = metadata.frame }

-- What is returned, and `out` after.
pub copy_frames : ClientFrameRingStore → (entity_index : ℕ) → Bool × List EntityBufferedFrame
unfolding empty ring_at copy_frame
copy_frames s entity_index =
    if empty s entity_index
    then (false, [])
    else (true, map (copy_frame s entity_index) (ring_at s entity_index).metadata)
