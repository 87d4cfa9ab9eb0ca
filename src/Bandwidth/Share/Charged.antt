-- ===== src/Bandwidth/Share/Charged.antt =====
-- What the participants charge to the budget that they share.
use native.Mathlib.Nat.{mul-le-mul_left, mul-le-mul_right, mod-eq_of_lt}
use ashiato_sync.Base.{
  ℕ, Bool, true, false, ◌+◌, ◌-◌, ◌*◌, ◌%◌, ◌^◌, ◌≤◌, ◌<◌, ◌≡◌, ◌≢◌, refl, sym, ap, subst, ◌∙◌,
  ◌||◌, not, List, [], ◌∷◌, some, All, length, ltb, leb, ◌==◌, if◌then◌else◌, arith, Bool-cases,
  Option-cases, inl, inr, ==_false→ne,
}
use ashiato_sync.Bandwidth.{Doubles, Budget}
use ashiato_sync.Bandwidth.Share.{
  Result, no_result, Flush, Participant, Turn, combine, sum, weights, turns, insert_turn,
  sort_turns, allowances, flush_within, first_round, second_round, run,
}
use ashiato_sync.Bandwidth.Share.Sums.{allowances-sum}

some_budget : (b : Bool) (total : ℕ) → (b || (total == 0)) ≡ false → 1 ≤ total
some_budget true total h = absurd (cc)
some_budget false total h = omega (arith, ==_false→ne total 0 h)

positive : (w : ℕ) → w ≢ 0 → 1 ≤ w
positive w ne = omega arith

module _ {F S : Type 0} (d : Doubles F) where
  -- A flush that charges no more than its limit, whatever the budget and the state are.
  abbrev pub Respects : Flush F S → Type 0
  Respects flush =
      (limit : ℕ) (st : Budget F × S) → (flush_within d limit flush st).0.charged_bytes ≤ limit

  abbrev TurnRespects : Turn F S → Type 0
  TurnRespects t = Respects t.flush

  -- The flush of a participant, if it has one, respects its limit.
  abbrev pub ParticipantRespects : Participant F S → Type 0
  ParticipantRespects p = (flush : Flush F S) → p.flush ≡ some flush → Respects flush

  turns-All :
      (participants : List (Participant F S))
      → All ParticipantRespects participants
      → All TurnRespects (turns participants)
  unfolding turns
  turns-All [] all = tt
  turns-All (p ∷ participants) all = elim (Option-cases p.flush) [
    | inl without ↦ rw (without, turns) (turns-All participants all.1)
    | inr (flush, e) ↦ elim (Bool-cases (p.weight == 0)) [
      | inl weightless ↦ rw (e, weightless, turns) (turns-All participants all.1)
      | inr weighty ↦ rw (e, weighty, turns) (all.0 flush e, turns-All participants all.1)
    ]
  ]

  insert_turn-All :
      (t : Turn F S) (order : List (Turn F S))
      → TurnRespects t
      → All TurnRespects order
      → All TurnRespects (insert_turn t order)
  unfolding insert_turn
  insert_turn-All t [] one all = (one, tt)
  insert_turn-All t (u ∷ order) one all = elim (Bool-cases (leb u.priority t.priority)) [
    | inl first ↦ rw (first, insert_turn) (one, all)
    | inr later ↦ rw (later, insert_turn) (all.0, insert_turn-All t order one all.1)
  ]

  sort_turns-All :
      (order : List (Turn F S)) → All TurnRespects order → All TurnRespects (sort_turns order)
  unfolding sort_turns
  sort_turns-All [] all = tt
  sort_turns-All (t ∷ order) all =
      insert_turn-All t (sort_turns order) all.0 (sort_turns-All order all.1)

  first_round-le :
      (order : List (Turn F S)) (granted : List ℕ) (combined : Result) (leftover total : ℕ)
      (st : Budget F × S)
      → All TurnRespects order
      → combined.charged_bytes + leftover + sum granted ≤ total
      → total < 2 ^ 64
      → let round = first_round d order granted combined leftover st in
        round.0.charged_bytes + round.1 ≤ total
  unfolding first_round sum combine
  first_round-le [] granted combined leftover total st all le small = omega arith
  first_round-le (t ∷ order) [] combined leftover total st all le small = omega arith
  first_round-le (t ∷ order) (allowance ∷ granted) combined leftover total st all le small =
      let turn : Result × (Budget F × S) = flush_within d allowance t.flush st in
      let within : turn.0.charged_bytes ≤ allowance = all.0 allowance st in
      let spare =
        if ltb turn.0.charged_bytes allowance then allowance - turn.0.charged_bytes else 0 in
      let exact : turn.0.charged_bytes + spare ≡ allowance = ground arith in
      first_round-le order granted (combine combined turn.0) ((leftover + spare) % 2 ^ 64) total
        turn.1 all.1 (omega arith) small

  second_round-le :
      (order : List (Turn F S)) (results : List Result) (combined : Result) (leftover total : ℕ)
      (st : Budget F × S)
      → All TurnRespects order
      → combined.charged_bytes + leftover ≤ total
      → total < 2 ^ 64
      → (second_round d order results combined leftover st).0.charged_bytes ≤ total
  unfolding second_round combine
  second_round-le [] results combined leftover total st all le small = omega arith
  second_round-le (t ∷ order) [] combined leftover total st all le small = omega arith
  second_round-le (t ∷ order) (result ∷ results) combined leftover total st all le small =
      let turn : Result × (Budget F × S) = flush_within d leftover t.flush st in
      let within : turn.0.charged_bytes ≤ leftover = all.0 leftover st in
      let rest = if leb leftover turn.0.charged_bytes then 0 else leftover - turn.0.charged_bytes in
      let exact : turn.0.charged_bytes + rest ≡ leftover = ground arith in
      elim (Bool-cases (leftover == 0)) [
        | inl spent ↦ rw (spent, second_round) (omega arith)
        | inr more ↦ elim (Bool-cases (not result.stopped_for_budget)) [
          | inl done ↦
              rw (more, done, second_round)
                (second_round-le order results combined leftover total st all.1 le small)
          | inr stopped ↦
              rw (more, stopped, second_round)
                (second_round-le order results (combine combined turn.0) rest total turn.1 all.1
                  (omega arith) small)
        ]
      ]

  sum-insert_turn :
      (t : Turn F S) (order : List (Turn F S))
      → sum (weights (insert_turn t order)) ≡ t.weight + sum (weights order)
  unfolding insert_turn sum weights
  sum-insert_turn t [] = refl
  sum-insert_turn t (u ∷ order) = elim (Bool-cases (leb u.priority t.priority)) [
    | inl first ↦ rw (first, insert_turn, weights, sum) refl
    | inr later ↦ rw (later, insert_turn, weights, sum) (omega (arith, sum-insert_turn t order))
  ]

  sum-sort_turns :
      (order : List (Turn F S)) → sum (weights (sort_turns order)) ≡ sum (weights order)
  unfolding sort_turns sum weights
  sum-sort_turns [] = refl
  sum-sort_turns (t ∷ order) =
      sum-insert_turn t (sort_turns order) ∙ ap (λ n. t.weight + n) (sum-sort_turns order)

  -- When each flush charges no more than the limit that it is given, and the product of the budget and
  -- the weights fits 64 bits, all flushes of a run together, those of the second round included,
  -- charge no more than the budget.
  pub run-charged :
      (total_bytes : ℕ) (participants : List (Participant F S)) (st : Budget F × S)
      → All ParticipantRespects participants
      → total_bytes * sum (weights (turns participants)) < 2 ^ 64
      → (run d total_bytes participants st).0.charged_bytes ≤ total_bytes
  unfolding run
  run-charged total_bytes participants st all bound =
      let order = sort_turns (turns participants) in
      let respect = sort_turns-All (turns participants) (turns-All participants all) in
      let same = sum-sort_turns (turns participants) in
      let w = sum (weights order) in
      let round = first_round d order (allowances total_bytes w order) no_result 0 st in
      elim (Bool-cases ((length participants == 0) || (total_bytes == 0))) [
        | inl idle ↦ rw (idle, run) (omega arith)
        | inr busy ↦
            let fits : total_bytes * w < 2 ^ 64 =
              subst (λ n. total_bytes * n < 2 ^ 64) (sym same) bound in
            let some_bytes = some_budget (length participants == 0) total_bytes busy in
            let whole : w % 2 ^ 64 ≡ w =
              mod-eq_of_lt (omega (arith, mul-le-mul_right w some_bytes, fits)) in
            elim (Bool-cases (w == 0)) [
              | inl weightless ↦ rw (busy, whole, weightless, run) (omega arith)
              | inr weighty ↦
                  let ne = ==_false→ne w 0 weighty in
                  let granted = allowances-sum total_bytes order (omega arith) fits in
                  let small : total_bytes < 2 ^ 64 =
                    omega (arith, mul-le-mul_left total_bytes (positive w ne), fits) in
                  rw (busy, whole, weighty, run)
                    (second_round-le order round.2 round.0 round.1 total_bytes round.3 respect
                      (first_round-le order (allowances total_bytes w order) no_result 0 total_bytes
                        st respect (omega (arith, granted)) small)
                      small)
            ]
      ]
