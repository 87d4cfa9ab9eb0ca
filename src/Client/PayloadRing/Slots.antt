-- ===== src/Client/PayloadRing/Slots.antt =====
-- The payload of each slot through the operations of the ring.
use native.Mathlib.Nat.{mul-le-mul_right}
use ashiato_sync.Base.{
  ℕ, zero, suc, ◌+◌, ◌-◌, ◌*◌, ◌≤◌, ◌<◌, ◌≡◌, ◌≢◌, refl, sym, ap, ◌∙◌, List, [], ◌++◌, arith,
  Bool-cases, inl, inr, ◌⊎◌, leb, ◌==◌, length, replicate, slice, splice, length-replicate,
  length-slice, length-splice, max, append-nil, true, ==_self, ap₂, slice-splice,
  slice-splice_apart, le-or-lt, eq-or-ne, subst, slice-append, slice-replicate_zero, leb_false→lt,
  ==→eq, leb→le,
}
use ashiato_sync.Client.PayloadRing.{FramePayloadRing, ensure_payload_stride, copy_slots}

-- The payloads are as many bytes as the slots take.
abbrev pub IsSized : {Metadata : Type 0} → FramePayloadRing Metadata → Type 0
IsSized ring = length ring.payloads ≡ length ring.metadata * ring.payload_stride

-- The payload of a slot.
abbrev pub payload_bytes : {Metadata : Type 0} → FramePayloadRing Metadata → ℕ → List ℕ
payload_bytes ring slot = slice (slot * ring.payload_stride) ring.payload_stride ring.payloads

-- Bytes filled up with zeros to `size`.
abbrev pub pad : (size : ℕ) → List ℕ → List ℕ
pad size bytes = bytes ++ replicate (size - length bytes) 0

pub slot_fits : (slot size stride : ℕ) → slot < size → slot * stride + stride ≤ size * stride
slot_fits slot size stride lt = omega (arith, mul-le-mul_right stride below)
  where
    below : suc slot ≤ size
    below = omega arith

-- Different slots do not overlap.
pub slots_apart :
    (slot other stride : ℕ)
    → slot ≢ other
    → (other * stride + stride ≤ slot * stride) ⊎ (slot * stride + stride ≤ other * stride)
slots_apart slot other stride ne = elim (le-or-lt slot other) [
  | inl le ↦ inr (slot_fits slot other stride (omega arith))
  | inr lt ↦ inl (slot_fits other slot stride lt)
]

length-copy_slots :
    (slots previous_stride stride : ℕ) (previous payloads : List ℕ)
    → length (copy_slots slots previous_stride stride previous payloads) ≡ length payloads
unfolding copy_slots
length-copy_slots zero previous_stride stride previous payloads = refl
length-copy_slots (suc slot) previous_stride stride previous payloads =
    length-splice (slot * stride) (slice (slot * previous_stride) previous_stride previous)
      (copy_slots slot previous_stride stride previous payloads)
    ∙ length-copy_slots slot previous_stride stride previous payloads

-- A copied slot has its bytes.
slice-copy_slots :
    (slots previous_stride stride : ℕ) (previous payloads : List ℕ) (slot : ℕ)
    → previous_stride ≤ stride
    → slots * stride ≤ length payloads
    → slot < slots
    → slice
        (slot * stride)
        previous_stride
        (copy_slots slots previous_stride stride previous payloads)
      ≡ slice (slot * previous_stride) previous_stride previous
unfolding copy_slots
slice-copy_slots zero previous_stride stride previous payloads slot le fits lt =
    absurd (omega arith)
slice-copy_slots (suc top) previous_stride stride previous payloads slot le fits lt =
    let source = slice (top * previous_stride) previous_stride previous in
    let rest = copy_slots top previous_stride stride previous payloads in
    let size : length source ≡ previous_stride =
      length-slice (top * previous_stride) previous_stride previous in
    elim (eq-or-ne top slot) [
      | inl e ↦
          subst
            (λ n.
              slice (n * stride) previous_stride (splice (top * stride) source rest)
              ≡ slice (n * previous_stride) previous_stride previous)
            e
            (subst (λ n. slice (top * stride) n (splice (top * stride) source rest) ≡ source) size
              (slice-splice (top * stride) source rest (
                omega (
                  arith,
                  length-copy_slots top previous_stride stride previous payloads,
                  slot_fits top (suc top) stride (omega arith),
                ))))
      | inr ne ↦
          slice-splice_apart (top * stride) source rest (slot * stride) previous_stride
            (elim (slots_apart top slot stride ne) [
              | inl h ↦ inl (omega arith)
              | inr h ↦ inr (omega arith)
            ])
          ∙ slice-copy_slots top previous_stride stride previous payloads slot le
              (omega (arith, slot_fits top (suc top) stride (omega arith))) (omega arith)
    ]

-- Behind the bytes of a slot, nothing is written.
slice_tail :
    (slots previous_stride stride : ℕ) (previous payloads : List ℕ) (slot : ℕ)
    → previous_stride ≤ stride
    → slice
        (slot * stride + previous_stride)
        (stride - previous_stride)
        (copy_slots slots previous_stride stride previous payloads)
      ≡ slice (slot * stride + previous_stride) (stride - previous_stride) payloads
unfolding copy_slots
slice_tail zero previous_stride stride previous payloads slot le = refl
slice_tail (suc top) previous_stride stride previous payloads slot le =
    let source = slice (top * previous_stride) previous_stride previous in
    let size : length source ≡ previous_stride =
      length-slice (top * previous_stride) previous_stride previous in
    slice-splice_apart (top * stride) source
      (copy_slots top previous_stride stride previous payloads) (slot * stride + previous_stride)
      (stride - previous_stride)
      (elim (eq-or-ne top slot) [
        | inl e ↦ inr (omega (arith, size, ap (λ n. n * stride) e))
        | inr ne ↦ elim (slots_apart top slot stride ne) [
          | inl h ↦ inl (omega arith)
          | inr h ↦ inr (omega arith)
        ]
      ])
    ∙ slice_tail top previous_stride stride previous payloads slot le

-- A slot in the wider vector has its bytes before and zeros.
slice_padded :
    (size previous_stride stride : ℕ) (previous : List ℕ) (slot : ℕ)
    → previous_stride ≤ stride
    → slot < size
    → slice
        (slot * stride)
        stride
        (copy_slots size previous_stride stride previous (replicate (size * stride) 0))
      ≡ pad stride (slice (slot * previous_stride) previous_stride previous)
slice_padded size previous_stride stride previous slot le lt =
    let blanks : List ℕ = replicate (size * stride) 0 in
    let copied : List ℕ = copy_slots size previous_stride stride previous blanks in
    let source = slice (slot * previous_stride) previous_stride previous in
    let sum : previous_stride + (stride - previous_stride) ≡ stride = omega arith in
    ap (λ n. slice (slot * stride) n copied) (sym sum)
    ∙ slice-append (slot * stride) previous_stride (stride - previous_stride) copied
    ∙ ap₂ (λ (xs ys : List ℕ). xs ++ ys)
        (slice-copy_slots size previous_stride stride previous blanks slot le
          (omega (arith, length-replicate {A = ℕ} (size * stride) 0)) lt)
        (slice_tail size previous_stride stride previous blanks slot le
          ∙ slice-replicate_zero (slot * stride + previous_stride) (stride - previous_stride)
              (size * stride)
          ∙ ap (λ n. replicate (stride - n) 0)
              (sym (length-slice (slot * previous_stride) previous_stride previous)))

-- What the ring is after its stride was raised to `stride`: each payload is filled up with zeros.
pub record Grown {Metadata : Type 0} (stride : ℕ) (ring after : FramePayloadRing Metadata)
    : Type 0 where
  pub metadata_kept : after.metadata ≡ ring.metadata
  pub stride_raised : after.payload_stride ≡ max stride ring.payload_stride
  pub sized : IsSized after
  pub padded :
      (slot : ℕ)
      → slot < length ring.metadata
      → payload_bytes after slot ≡ pad after.payload_stride (payload_bytes ring slot)

pad_full : (size : ℕ) (bytes : List ℕ) → length bytes ≡ size → pad size bytes ≡ bytes
pad_full size bytes e = ap (λ n. bytes ++ replicate n 0) none_missing ∙ append-nil bytes
  where
    none_missing : size - length bytes ≡ 0
    none_missing = omega arith

full : (n : ℕ) → n ≡ n - 0
full n = omega arith

pub ensure_payload_stride-Grown :
    {Metadata : Type 0} (stride : ℕ) (ring : FramePayloadRing Metadata)
    → IsSized ring
    → Grown stride ring (ensure_payload_stride stride ring)
unfolding ensure_payload_stride
ensure_payload_stride-Grown stride ring sized = elim (Bool-cases (leb stride ring.payload_stride)) [
  | inl wide ↦
      let same : (length ring.payloads == length ring.metadata * ring.payload_stride) ≡ true =
        ap (λ n. n == length ring.metadata * ring.payload_stride) sized
        ∙ ==_self (length ring.metadata * ring.payload_stride) in
      rw (wide, same, ensure_payload_stride)
        record {
          metadata_kept = refl;
          stride_raised = omega (arith, leb→le stride ring.payload_stride wide);
          sized = sized;
          padded = λ slot lt. sym (
              pad_full ring.payload_stride (payload_bytes ring slot)
                (length-slice (slot * ring.payload_stride) ring.payload_stride ring.payloads));
        }
  | inr narrow ↦
      let less = leb_false→lt stride ring.payload_stride narrow in
      let bare : replicate {A = ℕ} stride 0 ≡ pad stride [] =
        ap (λ n. replicate {A = ℕ} n 0) (full stride) in
      elim (Bool-cases (ring.payload_stride == 0)) [
        | inl fresh ↦
            rw (narrow, fresh, ensure_payload_stride)
              record {
                metadata_kept = refl;
                stride_raised = omega (arith, less);
                sized = length-replicate {A = ℕ} (length ring.metadata * stride) 0;
                padded = λ slot lt.
                    slice-replicate_zero (slot * stride) stride (length ring.metadata * stride)
                    ∙ bare
                    ∙ ap (λ n. pad stride (slice (slot * n) n ring.payloads))
                        (sym (==→eq ring.payload_stride 0 fresh));
              }
        | inr old ↦
            rw (narrow, old, ensure_payload_stride)
              record {
                metadata_kept = refl;
                stride_raised = omega (arith, less);
                sized =
                    length-copy_slots (length ring.metadata) ring.payload_stride stride
                      ring.payloads (replicate (length ring.metadata * stride) 0)
                    ∙ length-replicate {A = ℕ} (length ring.metadata * stride) 0;
                padded = λ slot lt.
                    slice_padded (length ring.metadata) ring.payload_stride stride ring.payloads
                      slot (omega (arith, less)) lt;
              }
      ]
]
