-- ===== src/Client/FrameRings/Slot.antt =====
-- What one write does to the slots of a ring.
use ashiato_sync.Base.{
  ℕ, ◌*◌, ◌≤◌, ◌<◌, ◌≡◌, ◌≢◌, sym, ap, subst, ◌∙◌, max, Bool, false, List, arith, length, replicate,
  get_or, set, slice, splice, length-set, length-replicate, slice-splice,
}
use ashiato_sync.Capacity.{IsCapacity, slot_for, slot_for-lt}
use ashiato_sync.Client.PayloadRing.{ensure_payload_stride, ring_slot_for}
use ashiato_sync.Client.PayloadRing.Slots.{
  IsSized, payload_bytes, pad, slot_fits, ensure_payload_stride-Grown,
}
use ashiato_sync.Client.FrameRings.{
  FrameMetadata, EntityRing, EntityBufferedFrame, FramePresentationOrigin, metadata_at, fill_slot,
  write_slot, written, begun, begin_ring, blank_metadata, FrameWriteSource,
}
use ashiato_sync.Client.FrameRings.Fill.{
  SlotWritten, fill_slot_lem, replicate_cong, splice_padded, store_slot-SlotWritten, write_slot_lem,
}

-- `begin_write` on the ring whose stride is wide enough.
begin_slot-SlotWritten :
    (slot : ℕ) (first : FrameMetadata) (wide : EntityRing)
    → IsSized wide
    → slot < length wide.metadata
    → SlotWritten slot first
        (replicate wide.payload_stride 0)
        wide
        (fill_slot slot (record wide { metadata = set wide.metadata slot first }))
begin_slot-SlotWritten slot first wide sized lt =
    let size = length-set wide.metadata slot first in
    let stride = wide.payload_stride in
    let blanks : List ℕ = replicate stride 0 in
    let count : length blanks ≡ stride = length-replicate {A = ℕ} stride 0 in
    subst (SlotWritten slot first blanks wide)
      (sym (
        fill_slot_lem slot (record wide { metadata = set wide.metadata slot first })
          (sized ∙ ap (λ n. n * stride) (sym size)) (omega (arith, size))))
      (store_slot-SlotWritten slot first blanks blanks wide sized lt (omega (arith, count)) (
        subst (λ n. slice (slot * stride) n (splice (slot * stride) blanks wide.payloads) ≡ blanks)
          count
          (slice-splice (slot * stride) blanks wide.payloads
            (omega (arith, slot_fits slot (length wide.metadata) stride lt, count, sized)))))

-- The rest of `write`.
write_slot-SlotWritten :
    (slot : ℕ) (sample : EntityBufferedFrame) (origin : FramePresentationOrigin) (ring : EntityRing)
    → IsSized ring
    → slot < length ring.metadata
    → length sample.baseline.bytes ≤ ring.payload_stride
    → payload_bytes ring slot ≡ replicate ring.payload_stride 0
    → ((write_slot slot sample origin ring).0 ≡ false)
      × SlotWritten slot
          (written sample origin (metadata_at ring slot))
          (pad ring.payload_stride sample.baseline.bytes)
          ring
          ((write_slot slot sample origin ring).1)
write_slot-SlotWritten slot sample origin ring sized lt le zeros =
    let step = write_slot_lem slot sample origin ring sized lt le in
    let stride = ring.payload_stride in
    let metadata = written sample origin (metadata_at ring slot) in
    let bytes = sample.baseline.bytes in
    (
      ap (λ (r : Bool × EntityRing). r.0) step,
      subst (SlotWritten slot metadata (pad stride bytes) ring)
          (sym (ap (λ (r : Bool × EntityRing). r.1) step))
          (store_slot-SlotWritten slot metadata bytes (pad stride bytes) ring sized lt le (
            splice_padded (slot * stride) stride bytes ring.payloads le
              (omega (arith, slot_fits slot (length ring.metadata) stride lt, sized)) zeros)),
    )

-- A write on a ring that is there: the stride is raised, the slot is blanked and then filled.
pub record RingWritten (slot : ℕ) (metadata : FrameMetadata) (bytes : List ℕ)
    (ring after : EntityRing) : Type 0 where
  pub size_kept : length after.metadata ≡ length ring.metadata
  pub stride_raised : after.payload_stride ≡ max (length bytes) ring.payload_stride
  pub sized : IsSized after
  pub here : metadata_at after slot ≡ metadata
  pub bytes_here : payload_bytes after slot ≡ pad after.payload_stride bytes
  pub apart : (other : ℕ) → other ≢ slot → metadata_at after other ≡ metadata_at ring other
  pub bytes_apart :
      (other : ℕ)
      → other ≢ slot
      → other < length ring.metadata
      → payload_bytes after other ≡ pad after.payload_stride (payload_bytes ring other)

-- The ring after a write, in the order of the code.
abbrev pub write_ring :
    EntityBufferedFrame
    → (generation : ℕ) → FrameWriteSource
    → FramePresentationOrigin
    → EntityRing
    → Bool × EntityRing
write_ring sample generation source origin ring =
    let (slot, begun_ring) =
      begin_ring sample.frame (length sample.baseline.bytes) generation source ring in
    write_slot slot sample origin begun_ring

-- The metadata of a written frame.
abbrev pub stored :
    EntityBufferedFrame
    → (generation : ℕ) → FrameWriteSource
    → FramePresentationOrigin
    → FrameMetadata
stored sample generation source origin =
    written sample origin (begun sample.frame generation source)

pub write_ring-RingWritten :
    (sample : EntityBufferedFrame) (generation : ℕ) (source : FrameWriteSource)
    (origin : FramePresentationOrigin) (ring : EntityRing)
    → IsSized ring
    → IsCapacity (length ring.metadata)
    → ((write_ring sample generation source origin ring).0 ≡ false)
      × RingWritten
          (slot_for (length ring.metadata) sample.frame)
          (stored sample generation source origin)
          sample.baseline.bytes
          ring
          ((write_ring sample generation source origin ring).1)
unfolding begin_ring ring_slot_for metadata_at
write_ring-RingWritten sample generation source origin ring sized capacity =
    let size = length sample.baseline.bytes in
    let wide : EntityRing = ensure_payload_stride size ring in
    let grown = ensure_payload_stride-Grown size ring sized in
    let slot : ℕ = slot_for (length wide.metadata) sample.frame in
    let lt : slot < length wide.metadata = slot_for-lt (length wide.metadata) sample.frame (
      subst (λ (m : List FrameMetadata). IsCapacity (length m)) (sym grown.metadata_kept)
        capacity) in
    let first : FrameMetadata = begun sample.frame generation source in
    let blank = begin_slot-SlotWritten slot first wide grown.sized lt in
    let begun_ring : EntityRing =
      fill_slot slot (record wide { metadata = set wide.metadata slot first }) in
    let size_kept : length wide.metadata ≡ length ring.metadata =
      ap (λ (m : List FrameMetadata). length m) grown.metadata_kept in
    let (safe, rest) =
      write_slot-SlotWritten slot sample origin begun_ring blank.sized
        (omega (arith, blank.size_kept, lt)) (omega (arith, blank.stride_kept, grown.stride_raised))
        (blank.bytes_here
          ∙ replicate_cong wide.payload_stride begun_ring.payload_stride (sym blank.stride_kept)) in
    (
      safe,
      subst
          (λ n.
            RingWritten (slot_for n sample.frame) (stored sample generation source origin)
              sample.baseline.bytes ring ((write_ring sample generation source origin ring).1))
          size_kept
          (record {
            size_kept = rest.size_kept ∙ blank.size_kept ∙ size_kept;
            stride_raised = rest.stride_kept ∙ blank.stride_kept ∙ grown.stride_raised;
            sized = rest.sized;
            here = rest.here ∙ ap (λ (m : FrameMetadata). written sample origin m) blank.here;
            bytes_here =
                rest.bytes_here ∙ ap (λ n. pad n sample.baseline.bytes) (sym rest.stride_kept);
            apart = λ other ne.
                rest.apart other ne
                ∙ blank.apart other ne
                ∙ ap (λ (m : List FrameMetadata). get_or m other blank_metadata)
                    grown.metadata_kept;
            bytes_apart = λ other ne below.
                rest.bytes_apart other ne
                ∙ blank.bytes_apart other ne
                ∙ grown.padded other below
                ∙ ap (λ n. pad n (payload_bytes ring other))
                    (sym (rest.stride_kept ∙ blank.stride_kept));
          }),
    )
