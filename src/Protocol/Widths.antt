-- ===== src/Protocol/Widths.antt =====
-- The least width of a range of values, and the mask of the packet ids.
use ashiato_sync.Base.{
  ℕ, zero, suc, ◌+◌, ◌-◌, ◌*◌, ◌/◌, ◌^◌, ◌≤◌, ◌<◌, ◌≡◌, refl, ltb, leb, ◌==◌, if◌then◌else◌, arith,
  Bool-cases, inl, inr, le-or-lt, false, ◌⊎◌,
}
use native.Mathlib.Nat.{pow-suc, pow-le-pow_right}
use ashiato_sync.Protocol.{
  count_bits, bits_for_range, packet_id_bits_for_max_pending, packet_id_mask, allocate_packet_id,
}

-- The width that the loop finds: `bits` more than the least one that holds `values`.
abbrev Width : (bits values found : ℕ) → Type 0
Width bits values found =
    (w : ℕ) × (found ≡ bits + w)
    × (values < 2 ^ w)
    × (((values ≡ 0) × (w ≡ 0)) ⊎ (2 ^ w ≤ 2 * values))

widen :
    (bits values found : ℕ)
    → 0 < values
    → Width (bits + 1) (values / 2) found
    → Width bits values found
widen bits values found pos (w, e, lt, near) = (
  suc w,
  omega arith,
  omega (arith, pow-suc 2 w),
  elim near [ inl (z, zw) ↦ inr (rw zw (omega arith)) | inr le ↦ inr (omega (arith, pow-suc 2 w)) ],
)

count_bits-Width :
    (fuel bits values : ℕ) → values ≤ fuel → Width bits values (count_bits fuel bits values)
unfolding count_bits
count_bits-Width zero bits values le = (0, omega arith, omega arith, inl (omega arith, refl))
count_bits-Width (suc fuel) bits values le = elim (Bool-cases (values == 0)) [
  | inl e ↦ rw e (0, omega arith, ground arith, inl (ground arith, refl))
  | inr ne ↦
      let pos : 0 < values = ground arith in
      let ih = count_bits-Width fuel (bits + 1) (values / 2) (omega arith) in
      rw ne (widen bits values _ pos ih)
]

-- A range of two or more values gets the least number of bits that tells them apart: their number
-- is at most 2 to that power, and more than 2 to the power of one less.
pub bits_for_range-least :
    (n : ℕ) → 2 ≤ n → (n ≤ 2 ^ bits_for_range n) × (2 ^ bits_for_range n < 2 * n)
unfolding bits_for_range
bits_for_range-least n two =
    let more : leb n 1 ≡ false = ground arith in
    rw more (
      let (w, e, lt, near) = count_bits-Width (n - 1) 0 (n - 1) (omega arith) in
      let found : count_bits (n - 1) 0 (n - 1) ≡ w = omega arith in
      rw found (omega arith, tight w near))
  where
    tight : (w : ℕ) → ((n - 1 ≡ 0) × (w ≡ 0)) ⊎ (2 ^ w ≤ 2 * (n - 1)) → 2 ^ w < 2 * n
    tight w (inl (z, zw)) = absurd (omega arith)
    tight w (inr le) = omega arith

-- With a limit of 1 to 2 ^ 32 - 1 pending packets, the largest packet id is at least the limit, so
-- that each can have an id of its own, and it fits 32 bits.
pub packet_id_mask-ge :
    (m : ℕ)
    → 1 ≤ m
    → m < 2 ^ 32
    → (m ≤ packet_id_mask (packet_id_bits_for_max_pending m))
      × (packet_id_mask (packet_id_bits_for_max_pending m) < 2 ^ 32)
unfolding packet_id_mask packet_id_bits_for_max_pending
packet_id_mask-ge m one lt = elim (Bool-cases (leb (2 ^ 32 - 1) m)) [
  | inl all ↦ rw all (omega arith, omega arith)
  | inr some_left ↦ rw some_left (narrow (ground arith))
]
  where
    b : ℕ
    b = bits_for_range (m + 1)

    narrow :
        m < 2 ^ 32 - 1
        → (m ≤ packet_id_mask (if ltb 32 b then 32 else b))
          × (packet_id_mask (if ltb 32 b then 32 else b) < 2 ^ 32)
    narrow below =
        let (wide, tight) = bits_for_range-least (m + 1) (omega arith) in
        elim (le-or-lt (bits_for_range (m + 1)) 31) [
          | inl le ↦ let power = pow-le-pow_right {n = 2} (omega arith) le in ground arith
          | inr gt ↦ let power = pow-le-pow_right {n = 2} (omega arith) gt in ground arith
        ]

-- With a largest id of 1 or more, the allocator hands out an id from 1 to the largest, and leaves
-- such an id for the next packet.
pub allocate_packet_id-range :
    (max_id next : ℕ)
    → 1 ≤ max_id
    → (1 ≤ (allocate_packet_id max_id next).0)
      × ((allocate_packet_id max_id next).0 ≤ max_id)
      × (1 ≤ (allocate_packet_id max_id next).1)
      × ((allocate_packet_id max_id next).1 ≤ max_id)
unfolding allocate_packet_id
allocate_packet_id-range max_id next one = (ground arith, ground arith, ground arith, ground arith)
