-- ===== src/Client/FrameRings/Reads.antt =====
-- What the store reads after a write.
use ashiato_sync.Base.{
  ℕ, zero, suc, ◌+◌, ◌-◌, ◌*◌, ◌≤◌, ◌<◌, ◌≡◌, ◌≢◌, refl, sym, ap, subst, ◌∙◌, Bool, true, false,
  ◌&&◌, ◌||◌, List, [], ◌∷◌, ◌++◌, arith, Bool-cases, inl, inr, ◌⊎◌, leb, ◌==◌, length, replicate,
  slice, get_or, set, if◌then◌else◌, length-set, length-replicate, length-append, get_or-set_self,
  get_or-set_ne, ==_false→ne, ==→eq, leb→le, ◌%◌, ◌^◌,
}
use ashiato_sync.Capacity.{IsCapacity, slot_for, slot_for-lt}
use ashiato_sync.Client.PayloadRing.{no_frames, is_empty, payload, ring_slot_for}
use ashiato_sync.Client.PayloadRing
use ashiato_sync.Client.PayloadRing.Slots.{IsSized, payload_bytes}
use ashiato_sync.Client.FrameRings.{
  EntityRing, EntityBufferedFrame, FramePresentationOrigin, FrameWriteSource, ClientFrameRingStore,
  metadata_at, blank_metadata, copied, ring_at, empty, ensure, grow_rings, contains, make_view,
  view, resize_bytes, read, read_view, begin_write, begin_ring, write_slot, write,
}
use ashiato_sync.Client.FrameRings.Fill.{no_payload, or_true}
use ashiato_sync.Client.FrameRings.Slot.{write_ring}

-- A ring is empty or has its capacity, and its payloads are as many bytes as its slots take.
pub record IsRing (capacity : ℕ) (ring : EntityRing) : Type 0 where
  pub sized : IsSized ring
  pub entries :
      ((length ring.metadata ≡ 0) × (ring.payload_stride ≡ 0)) ⊎ (length ring.metadata ≡ capacity)

pub record IsValid (s : ClientFrameRingStore) : Type 0 where
  pub capacity : IsCapacity s.capacity
  pub rings : (entity_index : ℕ) → IsRing s.capacity (ring_at s entity_index)

-- `read` on the entity's ring.
abbrev pub read_ring : EntityRing → (frame : ℕ) → EntityBufferedFrame → Bool × EntityBufferedFrame
read_ring ring frame out =
    let slot = slot_for (length ring.metadata) frame in
    let sample = metadata_at ring slot in
    if is_empty ring
    then (false, out)
    else if sample.valid && (sample.frame == frame)
    then (true, copied sample (payload_bytes ring slot))
    else (false, out)

or_if_true : (b : Bool) → (c : Bool) → (b ≡ true → c ≡ true) → b || c ≡ c
or_if_true true c h = sym (h refl)
or_if_true false c h = refl

get_or_out :
    (rings : List EntityRing) (i : ℕ) → length rings ≤ i → get_or rings i no_frames ≡ no_frames
get_or_out [] i h = refl
get_or_out (x ∷ rings) zero h = absurd (omega arith)
get_or_out (x ∷ rings) (suc i) h = get_or_out rings i (omega arith)

empty_lem :
    (s : ClientFrameRingStore) (entity_index : ℕ)
    → empty s entity_index ≡ is_empty (ring_at s entity_index)
unfolding empty ring_at is_empty
empty_lem s entity_index =
    or_if_true (leb (length s.rings) entity_index) _
      (λ out. ap (λ (r : EntityRing). is_empty r) (get_or_out s.rings entity_index (ground arith)))

resized_zero : (bytes : List ℕ) → resize_bytes 0 bytes ≡ []
unfolding resize_bytes
resized_zero bytes = none_left (0 - length bytes) (omega arith)
  where
    none_left : (n : ℕ) → n ≡ 0 → replicate {A = ℕ} n 0 ≡ []
    none_left n e = ap (λ k. replicate {A = ℕ} k 0) e

read_bytes :
    (ring : EntityRing) (slot : ℕ) (out : EntityBufferedFrame)
    → IsSized ring
    → slot < length ring.metadata
    → read_view (make_view ring slot) out
      ≡ (true, copied (metadata_at ring slot) (payload_bytes ring slot))
unfolding read_view make_view payload resize_bytes
read_bytes ring slot out sized lt = elim (Bool-cases (ring.payload_stride == 0)) [
  | inl no_stride ↦
      let none_left : payload_bytes ring slot ≡ [] =
        ap (λ n. slice (slot * n) n ring.payloads) (==→eq ring.payload_stride 0 no_stride) in
      let emptied : resize_bytes ring.payload_stride out.baseline.bytes ≡ [] =
        ap (λ n. resize_bytes n out.baseline.bytes) (==→eq ring.payload_stride 0 no_stride)
        ∙ resized_zero out.baseline.bytes in
      rw (no_stride, read_view, make_view)
        (ap (λ (bytes : List ℕ). (true, copied (metadata_at ring slot) bytes))
          (emptied ∙ sym none_left))
  | inr some_stride ↦ elim (Bool-cases (length ring.payloads == 0)) [
    | inr there ↦ rw (some_stride, there, read_view, make_view, payload) refl
    | inl null ↦ absurd (
        ==_false→ne ring.payload_stride 0 some_stride
          (no_payload slot ring sized lt (rw null (or_true (ring.payload_stride == 0)))))
  ]
]

pub read_lem :
    (s : ClientFrameRingStore) (entity_index frame : ℕ) (out : EntityBufferedFrame)
    → IsValid s
    → read s entity_index frame out ≡ read_ring (ring_at s entity_index) frame out
unfolding read view contains ring_slot_for is_empty
read_lem s entity_index frame out valid =
    let ring : EntityRing = ring_at s entity_index in
    let shape = valid.rings entity_index in
    let slot : ℕ = slot_for (length ring.metadata) frame in
    elim (Bool-cases (length ring.metadata == 0)) [
      | inl gone ↦ rw (empty_lem s entity_index, gone, read, view, contains) refl
      | inr there ↦
          let filled : length ring.metadata ≡ s.capacity = elim shape.entries [
            | inl (e, q) ↦ absurd (==_false→ne (length ring.metadata) 0 there e)
            | inr e ↦ e
          ] in
          let lt : slot < length ring.metadata =
            slot_for-lt (length ring.metadata) frame
              (subst IsCapacity (sym filled) valid.capacity) in
          elim (Bool-cases
            ((metadata_at ring slot).valid && ((metadata_at ring slot).frame == frame))) [
              | inl found ↦
                  rw (empty_lem s entity_index, there, found, read, view, contains)
                    (read_bytes ring slot out shape.sized lt)
              | inr missing ↦
                  rw (empty_lem s entity_index, there, missing, read, view, contains) refl
            ]
    ]

get_or-grown :
    (rings : List EntityRing) (n i : ℕ)
    → get_or (rings ++ replicate n no_frames) i no_frames ≡ get_or rings i no_frames
get_or-grown [] zero i = refl
get_or-grown [] (suc n) zero = refl
get_or-grown [] (suc n) (suc i) = get_or-grown [] n i
get_or-grown (x ∷ rings) n zero = refl
get_or-grown (x ∷ rings) n (suc i) = get_or-grown rings n i

grow_rings_lem :
    (entity_index : ℕ) (rings : List EntityRing)
    → (entity_index < length (grow_rings entity_index rings))
      × ((i : ℕ) → get_or (grow_rings entity_index rings) i no_frames ≡ get_or rings i no_frames)
unfolding grow_rings
grow_rings_lem entity_index rings = elim (Bool-cases (leb (length rings) entity_index)) [
  | inr there ↦ rw there (ground arith, λ i. refl)
  | inl short ↦ rw short (
    omega (
      arith,
      length-append rings (replicate (entity_index + 1 - length rings) no_frames),
      length-replicate (entity_index + 1 - length rings) no_frames,
      leb→le (length rings) entity_index short,
    ),
    λ i. get_or-grown rings (entity_index + 1 - length rings) i,
  )
]

-- The ring that a write finds.
abbrev pub ready_ring : ClientFrameRingStore → ℕ → EntityRing
ready_ring s entity_index = PayloadRing.ensure blank_metadata s.capacity (ring_at s entity_index)

abbrev pub next_generation : ClientFrameRingStore → ℕ
next_generation s = (s.write_generation_counter + 1) % 2 ^ 64

-- What a write leaves is the written ring and the other rings as they were.
pub write_rings :
    (s : ClientFrameRingStore) (entity_index : ℕ) (sample : EntityBufferedFrame)
    (source : FrameWriteSource) (origin : FramePresentationOrigin)
    → let result = write entity_index sample source origin s in
      let ring = write_ring sample (next_generation s) source origin (ready_ring s entity_index) in
      (result.0 ≡ ring.0)
      × (ring_at result.1 entity_index ≡ ring.1)
      × ((other : ℕ) → other ≢ entity_index → ring_at result.1 other ≡ ring_at s other)
      × (result.1.capacity ≡ s.capacity)
unfolding write begin_write ensure ring_at
write_rings s entity_index sample source origin =
    let rings : List EntityRing = grow_rings entity_index s.rings in
    let (lt, same) = grow_rings_lem entity_index s.rings in
    let found : EntityRing =
      PayloadRing.ensure blank_metadata s.capacity (get_or rings entity_index no_frames) in
    let first : List EntityRing = set rings entity_index found in
    let x : EntityRing = get_or first entity_index no_frames in
    let ready : x ≡ ready_ring s entity_index =
      get_or-set_self rings entity_index found no_frames lt
      ∙ ap (λ (r : EntityRing). PayloadRing.ensure blank_metadata s.capacity r)
          (same entity_index) in
    let size = length sample.baseline.bytes in
    let generation = next_generation s in
    let second : List EntityRing =
      set first entity_index (begin_ring sample.frame size generation source x).1 in
    let lt_first : entity_index < length first =
      omega (arith, length-set rings entity_index found) in
    let lt_second : entity_index < length second =
      omega (
        arith,
        length-set first entity_index (begin_ring sample.frame size generation source x).1,
      ) in
    let last : Bool × EntityRing =
      write_slot (begin_ring sample.frame size generation source x).0 sample origin
        (get_or second entity_index no_frames) in
    let same_write : last ≡ write_ring sample generation source origin (ready_ring s entity_index) =
      ap
        (λ (z : EntityRing).
          write_slot (begin_ring sample.frame size generation source x).0 sample origin z)
        (get_or-set_self first entity_index (begin_ring sample.frame size generation source x).1
          no_frames lt_first)
      ∙ ap (λ (y : EntityRing). write_ring sample generation source origin y) ready in
    (
      ap (λ (r : Bool × EntityRing). r.0) same_write,
      get_or-set_self second entity_index last.1 no_frames lt_second
          ∙ ap (λ (r : Bool × EntityRing). r.1) same_write,
      λ other ne.
          get_or-set_ne second entity_index other last.1 no_frames (λ q. ne (sym q))
          ∙ get_or-set_ne first entity_index other _ no_frames (λ q. ne (sym q))
          ∙ get_or-set_ne rings entity_index other found no_frames (λ q. ne (sym q))
          ∙ same other,
      refl,
    )
