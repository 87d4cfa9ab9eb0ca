-- ===== src/Bandwidth/Share/Sums.antt =====
-- The allowances of the first round.
use native.Mathlib.Nat.{mul-le-mul_right, mul-le-mul_left, mod-add-div', mod-lt, mod-eq_of_lt}
use ashiato_sync.Base.{
  ℕ, zero, suc, ◌+◌, ◌-◌, ◌*◌, ◌/◌, ◌%◌, ◌^◌, ◌≤◌, ◌<◌, ◌≡◌, refl, ap, ◌∙◌, List, [], ◌∷◌, length,
  arith, le-or-lt, inl, inr,
}
use ashiato_sync.Capacity.{sub64}
use ashiato_sync.Bandwidth.Share.{Turn, sum, weights, hand_out, share_of, shares, allowances}

hand_out-sum :
    (remainder : ℕ) (granted : List ℕ)
    → remainder ≤ length granted
    → sum granted + remainder < 2 ^ 64
    → sum (hand_out remainder granted) ≡ sum granted + remainder
unfolding hand_out sum
hand_out-sum zero granted le small = omega arith
hand_out-sum (suc remainder) [] le small = absurd (omega arith)
hand_out-sum (suc remainder) (a ∷ granted) le small =
    omega (arith, hand_out-sum remainder granted (omega arith) (omega arith))

regroup : (a c q s w r t : ℕ) → r + q * w ≡ a → c ≡ s * w + t → a + c ≡ (q + s) * w + (r + t)
regroup a c q s w r t e f = omega arith

regroup_le : (n w r t : ℕ) → r < w → t + n ≤ n * w → r + t + suc n ≤ suc n * w
regroup_le n w r t lt le = omega arith

next_le : (a c : ℕ) → a < c → suc a ≤ c
next_le a c h = omega arith

-- The quotient is at most the whole, and what is missing is at most the number of parts.
missing :
    (total s w r n : ℕ)
    → 1 ≤ w
    → total * w ≡ s * w + r
    → r + n ≤ n * w
    → (s ≤ total) × (total - s ≤ n)
missing total s w r n pos e le = (
  elim (le-or-lt s total) [ inl h ↦ h | inr h ↦ absurd (too_little h) ],
  elim (le-or-lt (total - s) n) [ inl h ↦ h | inr h ↦ absurd (too_much h) ],
)
  where
    too_little : total < s → ⊥
    too_little h = omega (arith, mul-le-mul_right w (next_le total s h))

    too_much : n < total - s → ⊥
    too_much h = omega (arith, mul-le-mul_right w (next_le (s + n) total (omega arith)))

missing_bytes : (total s : ℕ) → s ≤ total → total < 2 ^ 64 → sub64 total (s % 2 ^ 64) ≡ total - s
missing_bytes total s le small = omega arith

put_back : (total s : ℕ) → s ≤ total → s + (total - s) ≡ total
put_back total s le = omega arith

module _ {F S : Type 0} where
  length-shares :
      (total_bytes total_weight : ℕ) (order : List (Turn F S))
      → length (shares total_bytes total_weight order) ≡ length order
  unfolding shares
  length-shares total_bytes total_weight [] = refl
  length-shares total_bytes total_weight (t ∷ order) =
      ap suc (length-shares total_bytes total_weight order)

  -- What the divisions cut off is less than one weight for each turn.
  record Cut (total_bytes total_weight : ℕ) (order : List (Turn F S)) : Type 0 where
    rest : ℕ
    whole :
        total_bytes * sum (weights order)
        ≡ sum (shares total_bytes total_weight order) * total_weight + rest
    small : rest + length order ≤ length order * total_weight

  shares-Cut :
      (total_bytes total_weight : ℕ) (order : List (Turn F S))
      → 1 ≤ total_weight
      → total_bytes * sum (weights order) < 2 ^ 64
      → Cut total_bytes total_weight order
  unfolding weights sum shares share_of
  shares-Cut total_bytes total_weight [] pos bound = record {
    rest = 0;
    whole = omega arith;
    small = omega arith;
  }
  shares-Cut total_bytes total_weight (t ∷ order) pos bound =
      let x = total_bytes * t.weight in
      let split : total_bytes * (t.weight + sum (weights order))
          ≡ x + total_bytes * sum (weights order) =
        omega arith in
      let c = shares-Cut total_bytes total_weight order pos (omega arith) in
      let q = share_of total_bytes total_weight t.weight in
      let e : x % total_weight + x / total_weight * total_weight ≡ x =
        mod-add-div' x total_weight in
      let exact : q ≡ x / total_weight = ap (λ n. n / total_weight) (mod-eq_of_lt (omega arith)) in
      let below : x % total_weight < total_weight = mod-lt x (omega arith) in
      record {
        rest = x % total_weight + c.rest;
        whole =
            split
            ∙ regroup x (total_bytes * sum (weights order)) q
                (sum (shares total_bytes total_weight order)) total_weight (x % total_weight) c.rest
                (ap (λ n. x % total_weight + n * total_weight) exact ∙ e) c.whole;
        small = regroup_le (length order) total_weight (x % total_weight) c.rest below c.small;
      }

  -- With turns of some weight, and a product of budget and weight that fits 64 bits, what the turns
  -- are allowed in the first round adds up to the whole budget: what the divisions cut off is handed
  -- out again.
  pub allowances-sum :
      (total_bytes : ℕ) (order : List (Turn F S))
      → 1 ≤ sum (weights order)
      → total_bytes * sum (weights order) < 2 ^ 64
      → sum (allowances total_bytes (sum (weights order)) order) ≡ total_bytes
  unfolding allowances
  allowances-sum total_bytes order pos bound =
      let w = sum (weights order) in
      let c = shares-Cut total_bytes w order pos bound in
      let first = shares total_bytes w order in
      let (le, few) = missing total_bytes (sum first) w c.rest (length order) pos c.whole c.small in
      let total_small : total_bytes * 1 ≤ total_bytes * w = mul-le-mul_left total_bytes pos in
      let below : total_bytes < 2 ^ 64 = omega (arith, total_small) in
      ap (λ n. sum (hand_out n first)) (missing_bytes total_bytes (sum first) le below)
      ∙ hand_out-sum (total_bytes - sum first) first
          (omega (arith, few, length-shares total_bytes w order)) (omega (arith, le, total_small))
      ∙ put_back total_bytes (sum first) le
