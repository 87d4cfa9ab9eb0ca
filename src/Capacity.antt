-- ===== src/Capacity.antt =====
-- The power-of-two capacities of the frame rings and the slot of a frame in such a ring
-- (src/detail/options_validation.cpp, src/client/store/frame_payload_ring.hpp).
mod Tests
use native.Mathlib.Nat.{pow-suc, mod-lt, mod_self, mod-add-div', mul-le-mul_right}
use ashiato_sync.Base.{
  ℕ, zero, suc, ◌+◌, ◌-◌, ◌*◌, ◌/◌, ◌%◌, ◌^◌, ◌≤◌, ◌<◌, bit_and, ◌≡◌, refl, ◌∙◌, ap, sym, ◌≢◌, ◌↔◌,
  Bool, true, false, ◌&&◌, not, arith, ◌==◌, ==→eq, bit_and_step, bit_and_mask, pow_pos, le-or-lt,
  inl, inr,
}

-- `std::size_t` subtraction.
abbrev pub sub64 : ℕ → ℕ → ℕ
sub64 a b = (a + 2 ^ 64 - b) % 2 ^ 64

unfoldable pub is_power_of_two : ℕ → Bool
is_power_of_two value = not (value == 0) && (bit_and value (sub64 value 1) == 0)

-- `FramePayloadRing::slot_for`, for a ring of `size` entries.
unfoldable pub slot_for : ℕ → ℕ → ℕ
slot_for size frame = bit_and frame (sub64 size 1)

-- A size that `std::size_t` holds and that is a power of two.
abbrev pub IsCapacity : ℕ → Type 0
IsCapacity size = (k : ℕ) × (size ≡ 2 ^ k) × (size < 2 ^ 64)

bit_and_self_fuel : (n a : ℕ) → a ≤ n → bit_and a a ≡ a
bit_and_self_fuel n zero h = refl
bit_and_self_fuel zero (suc a) h = absurd (omega arith)
bit_and_self_fuel (suc n) (suc a) h =
    omega (arith, bit_and_step (suc a) (suc a), bit_and_self_fuel n (suc a / 2) (omega arith))

bit_and_self : (a : ℕ) → bit_and a a ≡ a
bit_and_self a = bit_and_self_fuel a a (omega arith)

abbrev IsPower : ℕ → Type 0
IsPower n = (k : ℕ) × (n ≡ 2 ^ k)

-- An odd number shares its upper bits with its predecessor.
odd_power : (n m : ℕ) → n ≡ m * 2 + 1 → bit_and n (n - 1) ≡ 0 → n ≡ 1
odd_power n m e h = omega (arith, bit_and_step n (n - 1), halves)
  where
    halves : bit_and (n / 2) ((n - 1) / 2) ≡ m
    halves =
        ap (λ q. bit_and q ((n - 1) / 2)) (omega arith)
        ∙ ap (λ q. bit_and m q) (omega arith)
        ∙ bit_and_self m

even_power : (n m : ℕ) → n ≡ m * 2 → 0 < m → bit_and n (n - 1) ≡ 0 → bit_and m (m - 1) ≡ 0
even_power n m e pos h = omega (arith, bit_and_step n (n - 1), halves)
  where
    halves : bit_and (n / 2) ((n - 1) / 2) ≡ bit_and m (m - 1)
    halves = ap (λ q. bit_and q ((n - 1) / 2)) (omega arith) ∙ ap (λ q. bit_and m q) (omega arith)

IsPower-fuel : (f n : ℕ) → n ≤ f → n ≢ 0 → bit_and n (n - 1) ≡ 0 → IsPower n
IsPower-fuel zero n h ne e = absurd (ne (omega arith))
IsPower-fuel (suc f) n h ne e = split (n % 2) refl (IsPower-fuel f (n / 2) (omega arith))
  where
    split :
        (r : ℕ)
        → n % 2 ≡ r
        → (n / 2 ≢ 0 → bit_and (n / 2) (n / 2 - 1) ≡ 0 → IsPower (n / 2))
        → IsPower n
    split zero er ih =
        let half = ih (omega arith) (even_power n (n / 2) (omega arith) (omega arith) e) in
        (suc half.0, omega (arith, pow-suc 2 half.0, half.1))
    split (suc r) er ih = (0, odd_power n (n / 2) (omega arith) e)

sub64_one : (n : ℕ) → 0 < n → n < 2 ^ 64 → sub64 n 1 ≡ n - 1
sub64_one n h lt = omega arith

-- Of the values that `std::size_t` holds, the bit trick accepts exactly the powers of two.
pub is_power_of_two_iff :
    (value : ℕ) → value < 2 ^ 64 → (is_power_of_two value ≡ true) ↔ IsCapacity value
unfolding is_power_of_two
is_power_of_two_iff value lt = (sound, complete)
  where
    sound : not (value == 0) && (bit_and value (sub64 value 1) == 0) ≡ true → IsCapacity value
    sound h =
        let ne : value ≢ 0 = ground arith in
        let masked : bit_and value (sub64 value 1) ≡ 0 = ground arith in
        let power =
          IsPower-fuel value value (omega arith) ne
            (ap (λ m. bit_and value m) (sym (sub64_one value (omega arith) lt)) ∙ masked) in
        (power.0, power.1, lt)

    complete : IsCapacity value → not (value == 0) && (bit_and value (sub64 value 1) == 0) ≡ true
    complete (k, e, _) = ground (
      arith,
      pow_pos k,
      ap (λ m. bit_and value m) (sub64_one value (omega (arith, pow_pos k)) lt ∙ ap (λ m. m - 1) e)
          ∙ bit_and_mask k value
          ∙ ap (λ m. m % 2 ^ k) e
          ∙ mod_self (2 ^ k),
    )

-- In a ring of such a size, a frame goes to the slot of its remainder.
pub slot_for-mod : (size frame : ℕ) → IsCapacity size → slot_for size frame ≡ frame % size
unfolding slot_for
slot_for-mod size frame (k, e, lt) =
    ap (λ m. bit_and frame m) (sub64_one size (omega (arith, pow_pos k)) lt ∙ ap (λ m. m - 1) e)
    ∙ bit_and_mask k frame
    ∙ ap (λ m. frame % m) (sym e)

pub capacity_pos : (size : ℕ) → IsCapacity size → 0 < size
capacity_pos size (k, e, lt) = omega (arith, pow_pos k)

pub slot_for-lt : (size frame : ℕ) → IsCapacity size → slot_for size frame < size
slot_for-lt size frame c =
    omega (arith, slot_for-mod size frame c, mod-lt frame (capacity_pos size c))

blocks_apart :
    (size r p q : ℕ) → r + p * size < r + q * size → r + q * size < r + p * size + size → ⊥
blocks_apart size r p q lt near = elim (le-or-lt q p) [
  | inl h ↦ omega (arith, mul-le-mul_right size h)
  | inr h ↦ omega (arith, mul-le-mul_right size h)
]

-- In a ring with a power of two of slots, different frames that lie less than a ring apart have
-- different slots.
pub slot_for-ne :
    (size a b : ℕ) → IsCapacity size → a < b → b < a + size → slot_for size a ≢ slot_for size b
slot_for-ne size a b c lt near e =
    let same : a % size ≡ b % size = sym (slot_for-mod size a c) ∙ e ∙ slot_for-mod size b c in
    let left = mod-add-div' a size in
    let right = mod-add-div' b size in
    blocks_apart size (a % size) (a / size) (b / size) (omega arith) (omega arith)
