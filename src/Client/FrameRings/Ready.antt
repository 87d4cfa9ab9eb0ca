-- ===== src/Client/FrameRings/Ready.antt =====
-- What the ring that a write finds reads as.
use ashiato_sync.Base.{
  ℕ, zero, suc, ◌*◌, ◌<◌, ◌≡◌, refl, sym, ap, ap₂, ◌∙◌, max, Bool, true, false, ◌&&◌, List, arith,
  Bool-cases, inl, inr, ◌==◌, not, length, replicate, get_or, if◌then◌else◌, length-replicate,
  ==_false→ne, ne→==_false, ==→eq,
}
use ashiato_sync.Capacity.{IsCapacity, slot_for, capacity_pos}
use ashiato_sync.Client.PayloadRing.{is_empty}
use ashiato_sync.Client.PayloadRing
use ashiato_sync.Client.PayloadRing.Slots.{IsSized, payload_bytes, pad}
use ashiato_sync.Client.FrameRings.{
  FrameMetadata, EntityRing, EntityBufferedFrame, ClientFrameRingStore, metadata_at, blank_metadata,
  copied, ring_at, read,
}
use ashiato_sync.Client.FrameRings.Reads.{IsRing, read_ring}

-- A frame whose bytes are filled up with zeros to the payload size of the ring.
abbrev pub padded : (stride : ℕ) → EntityBufferedFrame → EntityBufferedFrame
padded stride r = record r { baseline = record r.baseline { bytes = pad stride r.baseline.bytes } }

-- The payload size of an entity's ring after the write of a sample.
abbrev pub stride_after : ClientFrameRingStore → ℕ → EntityBufferedFrame → ℕ
stride_after s entity_index sample =
    max (length sample.baseline.bytes) (ring_at s entity_index).payload_stride

-- What `frame` of the entity `other` reads as after `sample` was written to `entity_index`.
abbrev pub updated :
    ClientFrameRingStore
    → (entity_index : ℕ) → EntityBufferedFrame
    → (other frame : ℕ) → EntityBufferedFrame
    → Bool × EntityBufferedFrame
updated s entity_index sample other frame out =
    let stride = stride_after s entity_index sample in
    let before = read s other frame out in
    if not (other == entity_index)
    then before
    else if frame == sample.frame
    then (if sample.valid then (true, padded stride sample) else (false, out))
    else if slot_for s.capacity frame == slot_for s.capacity sample.frame
    then (false, out)
    else (before.0, (if before.0 then padded stride before.1 else before.1))

-- The read of a slot with `sample` and `bytes` in it.
abbrev pub read_slot :
    FrameMetadata → List ℕ → (frame : ℕ) → EntityBufferedFrame → Bool × EntityBufferedFrame
read_slot sample bytes frame out =
    if sample.valid && (sample.frame == frame) then (true, copied sample bytes) else (false, out)

pub read_ring_lem :
    (ring : EntityRing) (capacity frame : ℕ) (out : EntityBufferedFrame)
    → length ring.metadata ≡ capacity
    → 0 < capacity
    → read_ring ring frame out
      ≡ read_slot
          (metadata_at ring (slot_for capacity frame))
          (payload_bytes ring (slot_for capacity frame))
          frame
          out
unfolding is_empty
read_ring_lem ring capacity frame out e pos =
    rw (ne→==_false (length ring.metadata) 0 (λ q. absurd (omega arith))) (
      ap
        (λ n.
          read_slot (metadata_at ring (slot_for n frame)) (payload_bytes ring (slot_for n frame))
            frame out)
        e)

-- The ring that a write finds has its slots, and reads as before.
pub record Ready (capacity : ℕ) (ring after : EntityRing) : Type 0 where
  pub full : length after.metadata ≡ capacity
  pub sized : IsSized after
  pub stride_kept : after.payload_stride ≡ ring.payload_stride
  pub reads :
      (frame : ℕ) (out : EntityBufferedFrame) → read_ring after frame out ≡ read_ring ring frame out

no_bytes : (capacity : ℕ) → 0 * 0 ≡ capacity * 0
no_bytes capacity = omega arith

blank_at :
    (capacity slot : ℕ)
    → get_or (replicate capacity blank_metadata) slot blank_metadata ≡ blank_metadata
blank_at zero slot = refl
blank_at (suc capacity) zero = refl
blank_at (suc capacity) (suc slot) = blank_at capacity slot

blank_slot :
    (capacity slot frame : ℕ) (bytes : List ℕ) (out : EntityBufferedFrame)
    → read_slot (get_or (replicate capacity blank_metadata) slot blank_metadata) bytes frame out
      ≡ (false, out)
blank_slot capacity slot frame bytes out =
    ap (λ (m : FrameMetadata). read_slot m bytes frame out) (blank_at capacity slot)

read_ring_gone :
    (ring : EntityRing) (frame : ℕ) (out : EntityBufferedFrame)
    → (length ring.metadata == 0) ≡ true
    → (false, out) ≡ read_ring ring frame out
unfolding is_empty
read_ring_gone ring frame out gone = rw gone refl

pub ensure-Ready :
    (capacity : ℕ) (ring : EntityRing)
    → IsCapacity capacity
    → IsRing capacity ring
    → Ready capacity ring (PayloadRing.ensure blank_metadata capacity ring)
unfolding PayloadRing.ensure is_empty metadata_at
ensure-Ready capacity ring cap shape = elim (Bool-cases (length ring.metadata == 0)) [
  | inr there ↦
      rw (there, PayloadRing.ensure)
        record {
          full = elim shape.entries [
            | inl (e, q) ↦ absurd (==_false→ne (length ring.metadata) 0 there e)
            | inr e ↦ e
          ];
          sized = shape.sized;
          stride_kept = refl;
          reads = λ frame out. refl;
        }
  | inl gone ↦
      let made : EntityRing = record ring { metadata = replicate capacity blank_metadata } in
      let no_stride : ring.payload_stride ≡ 0 = elim shape.entries [
        | inl (e, q) ↦ q
        | inr e ↦ absurd (ground (arith, capacity_pos capacity cap))
      ] in
      let full : length made.metadata ≡ capacity = length-replicate capacity blank_metadata in
      rw (gone, PayloadRing.ensure)
        record {
          full = full;
          sized =
              shape.sized
              ∙ ap₂ (λ n m. n * m) (==→eq (length ring.metadata) 0 gone) no_stride
              ∙ no_bytes capacity
              ∙ ap₂ (λ n m. n * m) (sym full) (sym no_stride);
          stride_kept = refl;
          reads = λ frame out.
              read_ring_lem made capacity frame out full (capacity_pos capacity cap)
              ∙ blank_slot capacity (slot_for capacity frame) frame
                  (payload_bytes made (slot_for capacity frame)) out
              ∙ read_ring_gone ring frame out gone;
        }
]
