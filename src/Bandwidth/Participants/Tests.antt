-- ===== src/Bandwidth/Participants/Tests.antt =====
-- Two participants, one of which has submitted.
use ashiato_sync.Base.{ℕ, refl, false, [], ◌∷◌, some, inr, arith}
use ashiato_sync.Bandwidth.Share.{Flush}
use ashiato_sync.Bandwidth.Participants.{Scheduler, submit_flush}
use ashiato_sync.Bandwidth.Participants.Complete.{ids, request_ids}
use ashiato_sync.Bandwidth.Participants.Submit.{IsWaiting}
use ashiato_sync.Bandwidth.Participants.Outcome.{Submits, submit_flush-Submits}
use ashiato_sync.Server.PacketAcks.Samples.{numbers, budget}

abbrev quiet : Flush ℕ ℕ
quiet st = (record { charged_bytes = 0; had_pending_data = false; stopped_for_budget = false }, st)

abbrev one_waits : Scheduler ℕ ℕ
one_waits = record {
  participants =
      record { id = 1; weight = 1; priority = 0 }
      ∷ record { id = 2; weight = 3; priority = 0 }
      ∷ [];
  pending_requests = record { participant = 2; flush = some quiet } ∷ [];
  next_participant_id = 3;
}

one_waits-IsWaiting : IsWaiting one_waits
unfolding ids request_ids
one_waits-IsWaiting = record {
  consistent = record {
    distinct = λ id. ground arith;
    known = λ id. ground arith;
    present = ((quiet, refl), tt);
  };
  awaited = inr (omega arith);
}

submit_flush-Submits_example :
    let done = submit_flush numbers 1 (some quiet) one_waits (budget 0, 0) in
    IsWaiting (done.1) × Submits numbers 1 quiet one_waits (budget 0, 0) done
submit_flush-Submits_example =
    submit_flush-Submits numbers 1 quiet one_waits (budget 0, 0) one_waits-IsWaiting
