-- ===== src/Bandwidth/Share/Tests.antt =====
-- Two participants that share 100 bytes.
use ashiato_sync.Base.{
  ℕ, ◌+◌, ◌≡◌, ◌≤◌, true, List, [], ◌∷◌, some, none, Option, ap, ltb, arith, min,
}
use ashiato_sync.Bandwidth.Share.{
  Flush, Participant, Turn, allowances, sum, weights, turns, run, flush_within,
}
use ashiato_sync.Bandwidth.Share.Sums.{allowances-sum}
use ashiato_sync.Bandwidth.Share.Charged.{ParticipantRespects, run-charged}
use ashiato_sync.Server.PacketAcks.Samples.{numbers, budget}

-- A flush that has `wanted` bytes to send, and sends what the limit lets it.
abbrev sender : (wanted : ℕ) → Flush ℕ ℕ
sender wanted st = (
  record {
    charged_bytes = min wanted st.0.send_limit_bytes;
    had_pending_data = true;
    stopped_for_budget = ltb st.0.send_limit_bytes wanted;
  },
  (st.0, st.1 + 1),
)

abbrev two_turns : List (Turn ℕ ℕ)
two_turns =
    record { weight = 1; priority = 0; flush = sender 70 }
    ∷ record { weight = 2; priority = 5; flush = sender 10 }
    ∷ []

abbrev two_participants : List (Participant ℕ ℕ)
two_participants =
    record { weight = 1; priority = 0; flush = some (sender 70) }
    ∷ record { weight = 2; priority = 5; flush = some (sender 10) }
    ∷ []

allowances-sum_example : sum (allowances 100 (sum (weights two_turns)) two_turns) ≡ 100
unfolding sum weights
allowances-sum_example = allowances-sum 100 two_turns (omega arith) (omega arith)

-- A sender, which an equation gives, sends no more than its limit.
sender-ParticipantRespects :
    (wanted : ℕ)
    → ParticipantRespects numbers
        (record { weight = 1; priority = 0; flush = some (sender wanted) })
unfolding flush_within
sender-ParticipantRespects wanted flush e limit st =
    let same : min wanted limit ≡ (flush_within numbers limit flush st).0.charged_bytes =
      ap
        (λ (o : Option (Flush ℕ ℕ)). elim o [
          | none ↦ 0
          | some f ↦ (flush_within numbers limit f st).0.charged_bytes
        ])
        e in
    omega (arith, same)

run-charged_example : (run numbers 100 two_participants (budget 0, 0)).0.charged_bytes ≤ 100
unfolding turns weights sum
run-charged_example =
    run-charged numbers 100 two_participants (budget 0, 0)
      (sender-ParticipantRespects 70, (sender-ParticipantRespects 10, tt)) (omega arith)
