-- ===== src/Client/FrameRings/Refine.antt =====
-- A write to the store, as an update of what the frames of the entities read as.
use ashiato_sync.Base.{
  ℕ, ◌<◌, ◌≡◌, refl, sym, ap, ap₂, subst, ◌∙◌, max, Bool, true, false, ◌&&◌, List, arith,
  Bool-cases, inl, inr, ◌==◌, length, if◌then◌else◌, ==_false→ne, ne→==_false, ==→eq, ==_self,
  eq-or-ne,
}
use ashiato_sync.Capacity.{IsCapacity, slot_for, slot_for-lt, capacity_pos}
use ashiato_sync.Client.PayloadRing.Slots.{payload_bytes, pad}
use ashiato_sync.Client.FrameRings.{
  FrameMetadata, EntityRing, EntityBufferedFrame, FramePresentationOrigin, FrameWriteSource,
  ClientFrameRingStore, metadata_at, copied, ring_at, read, written, begun, write,
}
use ashiato_sync.Client.FrameRings.Slot.{RingWritten, write_ring, write_ring-RingWritten, stored}
use ashiato_sync.Client.FrameRings.Reads.{
  IsRing, IsValid, read_ring, read_lem, ready_ring, next_generation, write_rings,
}
use ashiato_sync.Client.FrameRings.Ready.{
  ensure-Ready, padded, read_ring_lem, read_slot, stride_after, updated,
}

read_slot_same :
    (m : FrameMetadata) (bytes : List ℕ) (frame : ℕ) (out : EntityBufferedFrame)
    → (m.frame == frame) ≡ true
    → read_slot m bytes frame out ≡ (if m.valid then (true, copied m bytes) else (false, out))
read_slot_same m bytes frame out e = elim (Bool-cases m.valid) [
  | inl v ↦ rw (e, v) refl
  | inr v ↦ rw (e, v) refl
]

read_slot_other :
    (m : FrameMetadata) (bytes : List ℕ) (frame : ℕ) (out : EntityBufferedFrame)
    → (m.frame == frame) ≡ false
    → read_slot m bytes frame out ≡ (false, out)
read_slot_other m bytes frame out e = elim (Bool-cases m.valid) [
  | inl v ↦ rw (e, v) refl
  | inr v ↦ rw (e, v) refl
]

-- What is read, with its bytes filled up with zeros.
abbrev padded_read : (stride : ℕ) → Bool × EntityBufferedFrame → Bool × EntityBufferedFrame
padded_read stride r = (r.0, (if r.0 then padded stride r.1 else r.1))

read_slot_padded :
    (m : FrameMetadata) (bytes : List ℕ) (frame : ℕ) (out : EntityBufferedFrame) (stride : ℕ)
    → read_slot m (pad stride bytes) frame out ≡ padded_read stride (read_slot m bytes frame out)
unfolding copied
read_slot_padded m bytes frame out stride = elim (Bool-cases (m.valid && (m.frame == frame))) [
  | inl e ↦ rw e refl
  | inr e ↦ rw e refl
]

-- The written ring reads as the update of the ring before.
written_reads :
    (s : ClientFrameRingStore) (entity_index : ℕ) (sample : EntityBufferedFrame) (generation : ℕ)
    (source : FrameWriteSource) (origin : FramePresentationOrigin) (after : EntityRing) (frame : ℕ)
    (out : EntityBufferedFrame)
    → IsValid s
    → RingWritten
        (slot_for s.capacity sample.frame)
        (stored sample generation source origin)
        sample.baseline.bytes
        (ready_ring s entity_index)
        after
    → read_ring after frame out ≡ updated s entity_index sample entity_index frame out
unfolding written begun copied
written_reads s entity_index sample generation source origin after frame out valid w =
    let capacity = s.capacity in
    let pos = capacity_pos capacity valid.capacity in
    let ready =
      ensure-Ready capacity (ring_at s entity_index) valid.capacity (valid.rings entity_index) in
    let made : EntityRing = ready_ring s entity_index in
    let stride : after.payload_stride ≡ stride_after s entity_index sample =
      w.stride_raised ∙ ap (λ n. max (length sample.baseline.bytes) n) ready.stride_kept in
    let slot : ℕ = slot_for capacity frame in
    let place : ℕ = slot_for capacity sample.frame in
    let start = read_ring_lem after capacity frame out (w.size_kept ∙ ready.full) pos in
    let stored_there : slot ≡ place
        → read_ring after frame out
          ≡ read_slot (stored sample generation source origin)
              (pad (stride_after s entity_index sample) sample.baseline.bytes) frame out =
      λ e.
        start
        ∙ ap₂ (λ (m : FrameMetadata) (bytes : List ℕ). read_slot m bytes frame out)
            (ap (λ n. metadata_at after n) e ∙ w.here)
            (ap (λ n. payload_bytes after n) e
              ∙ w.bytes_here
              ∙ ap (λ n. pad n sample.baseline.bytes) stride) in
    let before : read s entity_index frame out
        ≡ read_slot (metadata_at made slot) (payload_bytes made slot) frame out =
      read_lem s entity_index frame out valid
      ∙ sym (ready.reads frame out)
      ∙ read_ring_lem made capacity frame out ready.full pos in
    rw (==_self entity_index) (elim (Bool-cases (frame == sample.frame)) [
      | inl same ↦
          let e = ==→eq frame sample.frame same in
          let own : (sample.frame == frame) ≡ true =
            ap (λ n. sample.frame == n) e ∙ ==_self sample.frame in
          rw same (
            stored_there (ap (λ n. slot_for capacity n) e)
            ∙ read_slot_same (stored sample generation source origin)
                (pad (stride_after s entity_index sample) sample.baseline.bytes) frame out own)
      | inr other ↦ elim (Bool-cases (slot == place)) [
        | inl collide ↦
            let foreign : (sample.frame == frame) ≡ false =
              ne→==_false sample.frame frame (λ q. ==_false→ne frame sample.frame other (sym q)) in
            rw (other, collide)
              (stored_there (==→eq slot place collide)
                ∙ read_slot_other (stored sample generation source origin)
                    (pad (stride_after s entity_index sample) sample.baseline.bytes) frame out
                    foreign)
        | inr distinct ↦
            let ne = ==_false→ne slot place distinct in
            let below : slot < length made.metadata =
              omega (arith, slot_for-lt capacity frame valid.capacity, ready.full) in
            rw (other, distinct)
              (start
                ∙ ap₂ (λ (m : FrameMetadata) (bytes : List ℕ). read_slot m bytes frame out)
                    (w.apart slot ne)
                    (w.bytes_apart slot ne below ∙ ap (λ n. pad n (payload_bytes made slot)) stride)
                ∙ read_slot_padded (metadata_at made slot) (payload_bytes made slot) frame out
                    (stride_after s entity_index sample)
                ∙ ap
                    (λ (r : Bool × EntityBufferedFrame).
                      padded_read (stride_after s entity_index sample) r)
                    (sym before))
      ]
    ])

module _ (s : ClientFrameRingStore) (entity_index : ℕ) (sample : EntityBufferedFrame)
    (source : FrameWriteSource) (origin : FramePresentationOrigin) (valid : IsValid s) where
  ring_written :
      let ring = write_ring sample (next_generation s) source origin (ready_ring s entity_index) in
      (ring.0 ≡ false)
      × RingWritten
          (slot_for s.capacity sample.frame)
          (stored sample (next_generation s) source origin)
          sample.baseline.bytes
          (ready_ring s entity_index)
          ring.1
  ring_written =
      let ready =
        ensure-Ready s.capacity (ring_at s entity_index) valid.capacity
          (valid.rings entity_index) in
      let generation = next_generation s in
      let ring : Bool × EntityRing =
        write_ring sample generation source origin (ready_ring s entity_index) in
      let (safe, w) =
        write_ring-RingWritten sample generation source origin (ready_ring s entity_index)
          ready.sized (subst IsCapacity (sym ready.full) valid.capacity) in
      (
        safe,
        subst
            (λ n.
              RingWritten (slot_for n sample.frame) (stored sample generation source origin)
                sample.baseline.bytes (ready_ring s entity_index) ring.1)
            ready.full w,
      )

  ring_after :
      RingWritten
        (slot_for s.capacity sample.frame)
        (stored sample (next_generation s) source origin)
        sample.baseline.bytes
        (ready_ring s entity_index)
        (ring_at ((write entity_index sample source origin s).1) entity_index)
  ring_after =
      subst
        (RingWritten (slot_for s.capacity sample.frame)
          (stored sample (next_generation s) source origin) sample.baseline.bytes
          (ready_ring s entity_index))
        (sym ((write_rings s entity_index sample source origin).1)) ring_written.1

  -- On a valid store, whose capacity is a power of two and whose rings are empty or have their
  -- slots and payloads, a write never throws, and the store is valid after it.
  pub write-IsValid :
      ((write entity_index sample source origin s).0 ≡ false)
      × IsValid ((write entity_index sample source origin s).1)
  write-IsValid =
      let (throws, here, others, kept) = write_rings s entity_index sample source origin in
      let after : ClientFrameRingStore = (write entity_index sample source origin s).1 in
      let ready =
        ensure-Ready s.capacity (ring_at s entity_index) valid.capacity
          (valid.rings entity_index) in
      (
        throws ∙ ring_written.0,
        record {
          capacity = subst IsCapacity (sym kept) valid.capacity;
          rings = λ other.
              subst (λ n. IsRing n (ring_at after other)) (sym kept)
                (elim (eq-or-ne other entity_index) [
                  | inl e ↦
                      subst (λ i. IsRing s.capacity (ring_at after i)) (sym e)
                        record {
                          sized = ring_after.sized;
                          entries = inr (ring_after.size_kept ∙ ready.full);
                        }
                  | inr ne ↦ subst (IsRing s.capacity) (sym (others other ne)) (valid.rings other)
                ]);
        },
      )

  -- After a write on a valid store, each frame of each entity reads as follows. The frames of other
  -- entities read as before. The written frame, if the sample is valid, reads as the sample with its
  -- bytes filled up with zeros to the payload size of the ring, which is the greatest so far. Another
  -- frame with the same slot is gone. Every other frame of the entity reads as before, with its
  -- bytes filled up with zeros.
  pub read-write :
      (other frame : ℕ) (out : EntityBufferedFrame)
      → read ((write entity_index sample source origin s).1) other frame out
        ≡ updated s entity_index sample other frame out
  read-write other frame out =
      let after : ClientFrameRingStore = (write entity_index sample source origin s).1 in
      let (throws, here, others, kept) = write_rings s entity_index sample source origin in
      let start = read_lem after other frame out write-IsValid.1 in
      elim (eq-or-ne other entity_index) [
        | inl e ↦
            start
            ∙ ap (λ i. read_ring (ring_at after i) frame out) e
            ∙ written_reads s entity_index sample (next_generation s) source origin
                (ring_at after entity_index) frame out valid ring_after
            ∙ ap (λ i. updated s entity_index sample i frame out) (sym e)
        | inr ne ↦
            start
            ∙ ap (λ (r : EntityRing). read_ring r frame out) (others other ne)
            ∙ sym (read_lem s other frame out valid)
            ∙ rw (ne→==_false other entity_index ne) refl
      ]
