-- ===== src/Bandwidth/Share.antt =====
-- The sharing of a budget by several participants (`ReplicationBandwidthShare` in
-- include/ashiato/sync/bandwidth_budget.hpp). A flush works on the budget and on the state S of all
-- participants. What the code keeps in arrays by the index of a participant is here a list in the
-- order of the turns. Of a priority only its order counts, so that it is a number.
pub mod Sums
pub mod Charged
mod Tests
use ashiato_sync.Base.{
  ℕ, zero, suc, ◌+◌, ◌-◌, ◌*◌, ◌/◌, ◌%◌, ◌^◌, Bool, true, false, ◌&&◌, ◌||◌, not, List, [], ◌∷◌,
  Option, none, some, map, ltb, leb, ◌==◌, if◌then◌else◌, length,
}
use ashiato_sync.Capacity.{sub64}
use ashiato_sync.Bandwidth.{Doubles, Budget, begin_send_limit, clear_send_limit}

pub record Result : Type 0 where
  pub charged_bytes : ℕ
  pub had_pending_data : Bool
  pub stopped_for_budget : Bool

abbrev pub no_result : Result
no_result = record { charged_bytes = 0; had_pending_data = false; stopped_for_budget = false }

-- A flush; the budget comes first.
abbrev pub Flush : (F S : Type 0) → Type 0
Flush F S = Budget F × S → Result × (Budget F × S)

pub record Participant (F S : Type 0) : Type 0 where
  pub weight : ℕ
  pub priority : ℕ
  pub flush : Option (Flush F S)

-- A participant that takes a turn.
pub record Turn (F S : Type 0) : Type 0 where
  pub weight : ℕ
  pub priority : ℕ
  pub flush : Flush F S

pub combine : (combined result : Result) → Result
combine combined result = record {
  charged_bytes = (combined.charged_bytes + result.charged_bytes) % 2 ^ 64;
  had_pending_data = combined.had_pending_data || result.had_pending_data;
  stopped_for_budget = combined.stopped_for_budget || result.stopped_for_budget;
}

-- The bytes of a list of numbers.
unfoldable pub sum : List ℕ → ℕ
sum [] = 0
sum (x ∷ xs) = x + sum xs

-- One more byte for each of the first `remainder` turns.
pub hand_out : (remainder : ℕ) → List ℕ → List ℕ
hand_out zero allowances = allowances
hand_out (suc remainder) [] = []
hand_out (suc remainder) (a ∷ allowances) = (a + 1) % 2 ^ 64 ∷ hand_out remainder allowances

pub share_of : (total_bytes total_weight weight : ℕ) → ℕ
share_of total_bytes total_weight weight = total_bytes * weight % 2 ^ 64 / total_weight

module _ {F S : Type 0} where
  -- The participants with a weight and a flush, first to last.
  pub turns : List (Participant F S) → List (Turn F S)
  turns [] = []
  turns (p ∷ participants) = elim p.flush [
    | none ↦ turns participants
    | some flush ↦
        if p.weight == 0
        then turns participants
        else record { weight = p.weight; priority = p.priority; flush = flush } ∷ turns participants
  ]

  pub weights : List (Turn F S) → List ℕ
  weights [] = []
  weights (t ∷ order) = t.weight ∷ weights order

  pub insert_turn : Turn F S → List (Turn F S) → List (Turn F S)
  insert_turn t [] = t ∷ []
  insert_turn t (u ∷ order) =
      if leb u.priority t.priority then t ∷ u ∷ order else u ∷ insert_turn t order

  -- `std::stable_sort`, higher priorities first.
  pub sort_turns : List (Turn F S) → List (Turn F S)
  unfolding insert_turn
  sort_turns [] = []
  sort_turns (t ∷ order) = insert_turn t (sort_turns order)

  pub shares : (total_bytes total_weight : ℕ) → List (Turn F S) → List ℕ
  unfolding share_of
  shares total_bytes total_weight [] = []
  shares total_bytes total_weight (t ∷ order) =
      share_of total_bytes total_weight t.weight ∷ shares total_bytes total_weight order

  pub allowances : (total_bytes total_weight : ℕ) → List (Turn F S) → List ℕ
  unfolding shares sum hand_out
  allowances total_bytes total_weight order =
      let first = shares total_bytes total_weight order in
      hand_out (sub64 total_bytes (sum first % 2 ^ 64)) first

module _ {F S : Type 0} (d : Doubles F) where
  -- A flush with a limit on what it sends.
  pub flush_within : (limit : ℕ) → Flush F S → Flush F S
  unfolding begin_send_limit clear_send_limit
  flush_within limit flush st =
      let (result, (budget, rest)) = flush (begin_send_limit d limit st.0, st.1) in
      (result, (clear_send_limit d budget, rest))

  -- The first round: each turn within its allowance. What it leaves is the combined result, the bytes
  -- left over, the results of the turns and the state.
  pub first_round :
      List (Turn F S)
      → (granted : List ℕ) → (combined : Result) → (leftover : ℕ) → Budget F × S
      → Result × ℕ × List Result × (Budget F × S)
  unfolding flush_within combine
  first_round [] granted combined leftover st = (combined, leftover, [], st)
  first_round (t ∷ order) [] combined leftover st = (combined, leftover, [], st)
  first_round (t ∷ order) (allowance ∷ granted) combined leftover st =
      let (result, after) = flush_within allowance t.flush st in
      let (last, left, results, end) =
        first_round order granted (combine combined result)
          ((leftover
              + (if ltb result.charged_bytes allowance
                  then allowance - result.charged_bytes
                  else 0))
            % 2 ^ 64)
          after in
      (last, left, result ∷ results, end)

  -- The second round: what is left over goes to the turns that stopped for the budget.
  pub second_round :
      List (Turn F S)
      → List Result
      → (combined : Result) → (leftover : ℕ) → Budget F × S
      → Result × (Budget F × S)
  unfolding flush_within combine
  second_round [] results combined leftover st = (combined, st)
  second_round (t ∷ order) [] combined leftover st = (combined, st)
  second_round (t ∷ order) (result ∷ results) combined leftover st =
      let (extra, after) = flush_within leftover t.flush st in
      let again =
        second_round order results (combine combined extra)
          (if leb leftover extra.charged_bytes then 0 else leftover - extra.charged_bytes) after in
      let skipped = second_round order results combined leftover st in
      if leftover == 0
      then (combined, st)
      else if not result.stopped_for_budget
      then skipped
      else again

  pub run : (total_bytes : ℕ) → List (Participant F S) → Budget F × S → Result × (Budget F × S)
  unfolding turns sort_turns weights sum allowances first_round second_round
  run total_bytes participants st =
      let order = sort_turns (turns participants) in
      let total_weight = sum (weights order) % 2 ^ 64 in
      let (combined, leftover, results, after) =
        first_round order (allowances total_bytes total_weight order) no_result 0 st in
      if (length participants == 0) || (total_bytes == 0)
      then (no_result, st)
      else if total_weight == 0
      then (no_result, st)
      else second_round order results combined leftover after
