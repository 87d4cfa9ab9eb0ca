-- ===== src/Base/Masks.antt =====
-- Masks of low bits: `frame & (capacity - 1)` for a capacity that is a power of two.
use Prim.Native.Nat.{
  ℕ, zero, suc, ◌+◌, ◌-◌, ◌*◌, ◌/◌, ◌%◌, ◌^◌, ◌≤◌, ◌<◌, min, bit_and, digits, bit_and-bitwise,
}
use mathlib.Core.Path.{◌≡◌, refl, ◌∙◌, ap, sym}
use mathlib.Core.Logic.{inl, inr}
use native.Mathlib.Omega.{arith}
use ashiato_sync.Base.Tests.{le-or-lt}
use native.Mathlib.Nat.{pow-suc, mul_comm, mod-add-div', div-div-eq-div-mul}

-- What the native operation stands for, with the number of digits that it looks at.
abbrev masked : (fuel value mask : ℕ) → ℕ
masked fuel value mask = digits (λ ignored. zero) min fuel value mask

-- More digits than the value has change nothing.
steady :
    (fuel value mask : ℕ) → value ≤ fuel → masked (suc fuel) value mask ≡ masked fuel value mask
steady zero zero mask le = refl
steady (suc fuel) zero mask le = refl
steady zero (suc value) mask le = absurd (omega arith)
steady (suc fuel) (suc value) mask le =
    ap (λ high. high * 2 + min (suc value % 2) (mask % 2))
      (steady fuel (suc value / 2) (mask / 2) (omega arith))

settled :
    (fuel more value mask : ℕ)
    → value ≤ fuel
    → fuel ≤ more
    → masked more value mask ≡ masked fuel value mask
settled fuel zero value mask le within =
    let same : zero ≡ fuel = omega arith in ap (λ n. masked n value mask) same
settled fuel (suc more) value mask le within = elim (le-or-lt fuel more) [
  | inl inside ↦ steady more value mask (omega arith) ∙ settled fuel more value mask le inside
  | inr above ↦ let same : suc more ≡ fuel = omega arith in ap (λ n. masked n value mask) same
]

nothing : (fuel mask : ℕ) → masked fuel 0 mask ≡ 0
nothing zero mask = refl
nothing (suc fuel) mask = refl

blank_mask : (fuel value : ℕ) → value ≤ fuel → masked fuel value 0 ≡ 0
blank_mask fuel zero le = nothing fuel 0
blank_mask zero (suc value) le = absurd (omega arith)
blank_mask (suc fuel) (suc value) le =
    let high = blank_mask fuel (suc value / 2) (omega arith) in omega arith

pub bit_and-zero : (value : ℕ) → bit_and value 0 ≡ 0
bit_and-zero value = bit_and-bitwise value 0 ∙ blank_mask value value (omega arith)

-- The lowest digit apart from the others.
pub bit_and_step :
    (value mask : ℕ)
    → bit_and value mask ≡ bit_and (value / 2) (mask / 2) * 2 + min (value % 2) (mask % 2)
bit_and_step zero mask = omega (arith, bit_and-bitwise 0 mask, bit_and-bitwise 0 (mask / 2))
bit_and_step (suc value) mask =
    let high : masked value (suc value / 2) (mask / 2) ≡ bit_and (suc value / 2) (mask / 2) =
      settled (suc value / 2) value (suc value / 2) (mask / 2) (omega arith) (omega arith)
      ∙ sym (bit_and-bitwise (suc value / 2) (mask / 2)) in
    bit_and-bitwise (suc value) mask ∙ ap (λ top. top * 2 + min (suc value % 2) (mask % 2)) high

pub pow_pos : (k : ℕ) → 0 < 2 ^ k
pow_pos zero = omega arith
pow_pos (suc k) = omega (arith, pow-suc 2 k, pow_pos k)

-- The remainder by `2m`, digit first.
mod_double : (a m : ℕ) → a % (m * 2) ≡ (a / 2 % m) * 2 + a % 2
mod_double a m = rw (mul_comm m 2) (
    omega (
      arith,
      mod-add-div' a (2 * m),
      mod-add-div' (a / 2) m,
      ap (λ q. q * m) (div-div-eq-div-mul a 2 m),
    ))

-- A mask of k ones keeps the remainder by 2 ^ k.
pub bit_and_mask : (k a : ℕ) → bit_and a (2 ^ k - 1) ≡ a % 2 ^ k
bit_and_mask zero a = omega (arith, bit_and-zero a)
bit_and_mask (suc k) a =
    bit_and_step a (2 ^ suc k - 1)
    ∙ rw (pow-suc, mod_double a (2 ^ k), half, ← bit_and_mask k (a / 2)) (omega (arith, pow_pos k))
  where
    half : (2 ^ k * 2 - 1) / 2 ≡ 2 ^ k - 1
    half = omega (arith, pow_pos k)
