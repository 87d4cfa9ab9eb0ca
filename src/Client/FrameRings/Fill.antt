-- ===== src/Client/FrameRings/Fill.antt =====
-- What one write does to the bytes and the metadata of a slot.
use ashiato_sync.Base.{
  ℕ, zero, suc, ◌+◌, ◌-◌, ◌*◌, ◌≤◌, ◌<◌, ◌≡◌, ◌≢◌, refl, sym, ap, ap₂, ◌∙◌, Bool, true, false, ◌||◌,
  List, [], ◌∷◌, ◌++◌, arith, Bool-cases, inl, inr, ◌==◌, length, replicate, set, drop, slice,
  splice, length-set, length-slice, length-splice, slice-append, slice-splice, slice-splice_apart,
  drop-length-append, get_or-set_self, get_or-set_ne, ==_false→ne, ==→eq,
}
use ashiato_sync.Client.PayloadRing.{payload}
use ashiato_sync.Client.PayloadRing.Slots.{IsSized, payload_bytes, pad, slot_fits, slots_apart}
use ashiato_sync.Client.FrameRings.{
  FrameMetadata, EntityRing, EntityBufferedFrame, FramePresentationOrigin, metadata_at, fill_slot,
  write_slot, written,
}

pub replicate_cong : (n m : ℕ) → n ≡ m → replicate {A = ℕ} n 0 ≡ replicate m 0
replicate_cong n m e = ap (λ k. replicate {A = ℕ} k 0) e

drop-replicate : (n size : ℕ) → drop n (replicate {A = ℕ} size 0) ≡ replicate (size - n) 0
drop-replicate zero size = replicate_cong size (size - zero) (omega arith)
drop-replicate (suc n) zero = replicate_cong 0 (zero - suc n) (omega arith)
drop-replicate (suc n) (suc size) =
    drop-replicate n size ∙ replicate_cong (size - n) (suc size - suc n) (omega arith)

-- Bytes written over zeros are filled up with zeros.
pub splice_padded :
    (offset stride : ℕ) (bytes payloads : List ℕ)
    → length bytes ≤ stride
    → offset + stride ≤ length payloads
    → slice offset stride payloads ≡ replicate stride 0
    → slice offset stride (splice offset bytes payloads) ≡ pad stride bytes
splice_padded offset stride bytes payloads le fits zeros =
    let front = length bytes in
    let sum : front + (stride - front) ≡ stride = omega arith in
    let tail : slice (offset + front) (stride - front) payloads ≡ replicate (stride - front) 0 =
      sym (
        drop-length-append (slice offset front payloads)
          (slice (offset + front) (stride - front) payloads))
      ∙ ap₂ (λ n (xs : List ℕ). drop n xs) (length-slice offset front payloads)
          (sym (slice-append offset front (stride - front) payloads)
            ∙ ap (λ n. slice offset n payloads) sum
            ∙ zeros)
      ∙ drop-replicate front stride in
    ap (λ n. slice offset n (splice offset bytes payloads)) (sym sum)
    ∙ slice-append offset front (stride - front) (splice offset bytes payloads)
    ∙ ap₂ (λ (xs ys : List ℕ). xs ++ ys) (slice-splice offset bytes payloads (omega arith))
        (slice-splice_apart offset bytes payloads (offset + front) (stride - front)
            (inr (omega arith))
          ∙ tail)

-- The ring `after` has `metadata` and `bytes` in the slot and is `ring` in the others.
pub record SlotWritten (slot : ℕ) (metadata : FrameMetadata) (bytes : List ℕ)
    (ring after : EntityRing) : Type 0 where
  pub size_kept : length after.metadata ≡ length ring.metadata
  pub stride_kept : after.payload_stride ≡ ring.payload_stride
  pub sized : IsSized after
  pub here : metadata_at after slot ≡ metadata
  pub bytes_here : payload_bytes after slot ≡ bytes
  pub apart : (other : ℕ) → other ≢ slot → metadata_at after other ≡ metadata_at ring other
  pub bytes_apart :
      (other : ℕ) → other ≢ slot → payload_bytes after other ≡ payload_bytes ring other

-- The metadata of a slot is set, and bytes are written at its payload.
pub store_slot-SlotWritten :
    (slot : ℕ) (metadata : FrameMetadata) (source bytes : List ℕ) (ring : EntityRing)
    → IsSized ring
    → slot < length ring.metadata
    → length source ≤ ring.payload_stride
    → slice
        (slot * ring.payload_stride)
        ring.payload_stride
        (splice (slot * ring.payload_stride) source ring.payloads)
      ≡ bytes
    → SlotWritten slot metadata bytes ring (record ring {
      metadata = set ring.metadata slot metadata;
      payloads = splice (slot * ring.payload_stride) source ring.payloads;
    })
unfolding metadata_at
store_slot-SlotWritten slot metadata source bytes ring sized lt le e = record {
  size_kept = length-set ring.metadata slot metadata;
  stride_kept = refl;
  sized =
      length-splice (slot * ring.payload_stride) source ring.payloads
      ∙ sized
      ∙ ap (λ n. n * ring.payload_stride) (sym (length-set ring.metadata slot metadata));
  here = get_or-set_self ring.metadata slot metadata _ lt;
  bytes_here = e;
  apart = λ other ne. get_or-set_ne ring.metadata slot other metadata _ (λ q. ne (sym q));
  bytes_apart = λ other ne.
      slice-splice_apart (slot * ring.payload_stride) source ring.payloads
        (other * ring.payload_stride) ring.payload_stride
        (elim (slots_apart slot other ring.payload_stride (λ q. ne (sym q))) [
          | inl h ↦ inl h
          | inr h ↦ inr (omega arith)
        ]);
}

empty_bytes : (bytes : List ℕ) → length bytes ≤ 0 → bytes ≡ []
empty_bytes [] h = refl
empty_bytes (x ∷ bytes) h = absurd (omega arith)

-- Where the payload of a slot is a null pointer, the payloads have no bytes.
pub no_payload :
    (slot : ℕ) (ring : EntityRing)
    → IsSized ring
    → slot < length ring.metadata
    → (ring.payload_stride == 0 || length ring.payloads == 0) ≡ true
    → ring.payload_stride ≡ 0
no_payload slot ring sized lt e =
    ground (arith, slot_fits slot (length ring.metadata) ring.payload_stride lt, sized)

-- `fill_slot` writes zeros over the payload of the slot.
pub fill_slot_lem :
    (slot : ℕ) (ring : EntityRing)
    → IsSized ring
    → slot < length ring.metadata
    → fill_slot slot ring ≡ record ring {
      payloads =
          splice (slot * ring.payload_stride) (replicate ring.payload_stride 0) ring.payloads;
    }
unfolding fill_slot payload
fill_slot_lem slot ring sized lt =
    elim (Bool-cases (ring.payload_stride == 0 || length ring.payloads == 0)) [
      | inr there ↦ rw (there, fill_slot, payload) refl
      | inl null ↦
          rw (null, fill_slot, payload)
            (ap
              (λ (source : List ℕ). record ring {
                payloads = splice (slot * ring.payload_stride) source ring.payloads;
              })
              (sym (replicate_cong ring.payload_stride 0 (no_payload slot ring sized lt null))))
    ]

pub or_true : (b : Bool) → b || true ≡ true
or_true true = refl
or_true false = refl

-- `write_slot` writes the bytes of the sample at the payload of the slot, and never throws.
pub write_slot_lem :
    (slot : ℕ) (sample : EntityBufferedFrame) (origin : FramePresentationOrigin) (ring : EntityRing)
    → IsSized ring
    → slot < length ring.metadata
    → length sample.baseline.bytes ≤ ring.payload_stride
    → write_slot slot sample origin ring ≡ (
      false,
      record ring {
        metadata = set ring.metadata slot (written sample origin (metadata_at ring slot));
        payloads = splice (slot * ring.payload_stride) sample.baseline.bytes ring.payloads;
      },
    )
unfolding write_slot payload
write_slot_lem slot sample origin ring sized lt le = elim (Bool-cases (ring.payload_stride == 0)) [
  | inr some_stride ↦ elim (Bool-cases (length ring.payloads == 0)) [
    | inr there ↦ rw (some_stride, there, write_slot, payload) refl
    | inl null ↦
        let none_there =
          no_payload slot ring sized lt (rw null (or_true (ring.payload_stride == 0))) in
        absurd (==_false→ne ring.payload_stride 0 some_stride none_there)
  ]
  | inl no_stride ↦
      let nothing =
        empty_bytes sample.baseline.bytes (omega (arith, ==→eq ring.payload_stride 0 no_stride)) in
      rw (no_stride, write_slot, payload)
        (ap {B = Bool × EntityRing}
          (λ (source : List ℕ). (
            false,
            record ring {
              metadata = set ring.metadata slot (written sample origin (metadata_at ring slot));
              payloads = splice (slot * ring.payload_stride) source ring.payloads;
            },
          ))
          (sym nothing))
]
