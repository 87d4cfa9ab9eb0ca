-- ===== src/Bandwidth/Participants.antt =====
-- The participants of a budget and their pending flushes (`ReplicationBandwidthBudget` in
-- include/ashiato/sync/bandwidth_budget.hpp). A flush works on the budget's rate and on the state S; it
-- does not attach, detach or submit.
pub mod Complete
pub mod Request
pub mod Submit
pub mod Outcome
mod Tests
use ashiato_sync.Base.{
  ℕ, zero, suc, ◌+◌, ◌%◌, ◌^◌, Bool, true, false, ◌&&◌, ◌||◌, not, List, [], ◌∷◌, ◌++◌, Option,
  none, some, ltb, leb, ◌==◌, if◌then◌else◌, length, find, any, remove_if, map,
}
use ashiato_sync.Bandwidth.{Doubles, BandwidthOptions, Budget, begin_tick, begin_fixed_tick}
use ashiato_sync.Bandwidth.Share.{Result, no_result, Flush, Participant, run}

abbrev pub invalid_bandwidth_participant_id : ℕ
invalid_bandwidth_participant_id = 0

pub record ParticipantState : Type 0 where
  pub id : ℕ
  pub weight : ℕ
  pub priority : ℕ

-- The flush is none once it was moved from.
pub record PendingRequest (F S : Type 0) : Type 0 where
  pub participant : ℕ
  pub flush : Option (Flush F S)

pub record Scheduler (F S : Type 0) : Type 0 where
  pub participants : List ParticipantState
  pub pending_requests : List (PendingRequest F S)
  pub next_participant_id : ℕ

pub same_participant : ℕ → ParticipantState → Bool
same_participant participant state = state.id == participant

-- The loop of `find_if` and the assignment.
pub set_options : (participant weight priority : ℕ) → List ParticipantState → List ParticipantState
set_options participant weight priority [] = []
set_options participant weight priority (p ∷ participants) =
    if p.id == participant
    then record p { weight = weight; priority = priority } ∷ participants
    else p ∷ set_options participant weight priority participants

module _ {F S : Type 0} where
  pub from_participant : ℕ → PendingRequest F S → Bool
  from_participant participant request = request.participant == participant

  -- The flush of the first pending request of a participant: none if there is none, or it was moved.
  pub pending_flush : (participant : ℕ) → List (PendingRequest F S) → Option (Flush F S)
  unfolding from_participant
  pending_flush participant pending = elim (find (from_participant participant) pending) [
    | none ↦ none
    | some request ↦ request.flush
  ]

  -- The first pending request of a participant gets a flush, or loses it.
  pub set_flush :
      (participant : ℕ) → Option (Flush F S) → List (PendingRequest F S) → List (PendingRequest F S)
  set_flush participant flush [] = []
  set_flush participant flush (r ∷ pending) =
      if r.participant == participant
      then record r { flush = flush } ∷ pending
      else r ∷ set_flush participant flush pending

  -- The loop that moves the flush of each participant out of the pending requests, which it leaves
  -- without them; none where a participant has no flush.
  pub collect :
      List ParticipantState
      → List (PendingRequest F S)
      → Option (List (Participant F S)) × List (PendingRequest F S)
  unfolding pending_flush set_flush
  collect [] pending = (some [], pending)
  collect (p ∷ participants) pending = elim (pending_flush p.id pending) [
    | none ↦ (none, pending)
    | some flush ↦
        let (rest, left) = collect participants (set_flush p.id none pending) in
        (
          elim rest [
            | none ↦ none
            | some others ↦
                some
                  (record { weight = p.weight; priority = p.priority; flush = some flush } ∷ others)
          ],
          left,
        )
  ]

  pub attach_participant : (weight priority : ℕ) → Scheduler F S → ℕ × Scheduler F S
  attach_participant weight priority s = (
    s.next_participant_id,
    record s {
      next_participant_id = (s.next_participant_id + 1) % 2 ^ 32;
      participants =
          s.participants
          ++ (record {
            id = s.next_participant_id;
            weight = if weight == 0 then 1 else weight;
            priority = priority;
          }
              ∷ []);
    },
  )

  pub set_participant_options :
      (participant weight priority : ℕ) → Scheduler F S → Bool × Scheduler F S
  unfolding set_options same_participant
  set_participant_options participant weight priority s =
      if not (any (same_participant participant) s.participants) then (false, s) else (
        true,
        record s {
          participants =
              set_options participant (if weight == 0 then 1 else weight) priority s.participants;
        },
      )

module _ {F S : Type 0} where
  -- The request replaces the pending one of its participant, or is added.
  pub with_request : (participant : ℕ) → Flush F S → Scheduler F S → Scheduler F S
  unfolding from_participant set_flush
  with_request participant flush s = record s {
    pending_requests =
        if any (from_participant participant) s.pending_requests
        then set_flush participant (some flush) s.pending_requests
        else s.pending_requests ++ (record { participant = participant; flush = some flush } ∷ []);
  }

  -- The run of the only participant, with its pending requests.
  pub run_alone :
      Scheduler F S
      → List (PendingRequest F S)
      → Budget F × S
      → Result × Scheduler F S × (Budget F × S)
  run_alone s [] st = (no_result, s, st)
  run_alone s (request ∷ others) st = elim request.flush [
    | none ↦ (no_result, record s { pending_requests = [] }, st)
    | some flush ↦ let done = flush st in (done.0, record s { pending_requests = [] }, done.1)
  ]

module _ {F S : Type 0} (d : Doubles F) where
  pub try_run_pending : Scheduler F S → Budget F × S → Result × Scheduler F S × (Budget F × S)
  unfolding collect run_alone
  try_run_pending s st =
      let collected = collect s.participants s.pending_requests in
      if (length s.participants == 0) || ltb (length s.pending_requests) (length s.participants)
      then (no_result, s, st)
      else if length s.participants == 1
      then run_alone s s.pending_requests st
      else elim collected.0 [
        | none ↦ (no_result, record s { pending_requests = collected.1 }, st)
        | some share_participants ↦
            let done = run d (d.truncate st.0.available_bytes) share_participants st in
            (done.0, record s { pending_requests = [] }, done.1)
      ]

  pub submit_flush :
      (participant : ℕ)
      → Option (Flush F S)
      → Scheduler F S
      → Budget F × S
      → Result × Scheduler F S × (Budget F × S)
  unfolding same_participant with_request try_run_pending
  submit_flush participant none s st = (no_result, s, st)
  submit_flush participant (some flush) s st =
      if not (any (same_participant participant) s.participants)
      then (no_result, s, st)
      else try_run_pending (with_request participant flush s) st

  pub detach_participant :
      (participant : ℕ) → Scheduler F S → Budget F × S → Scheduler F S × (Budget F × S)
  unfolding same_participant from_participant try_run_pending
  detach_participant participant s st =
      let (result, after, end) =
        try_run_pending
          (record s {
            participants = remove_if (same_participant participant) s.participants;
            pending_requests = remove_if (from_participant participant) s.pending_requests;
          })
          st in
      if participant == invalid_bandwidth_participant_id then (s, st) else (after, end)

  -- The tick of the budget begins once, before the first of the participants submits.
  pub begin_tick_once :
      BandwidthOptions F → (fixed_dt_seconds : F) → Scheduler F S → Budget F → ℕ × Budget F
  unfolding begin_tick
  begin_tick_once options fixed_dt_seconds s b =
      if not (length s.pending_requests == 0)
      then (d.truncate b.available_bytes, b)
      else begin_tick d options fixed_dt_seconds b

  pub begin_fixed_tick_once : (bytes : ℕ) → Scheduler F S → Budget F → ℕ × Budget F
  unfolding begin_fixed_tick
  begin_fixed_tick_once bytes s b =
      if not (length s.pending_requests == 0)
      then (d.truncate b.available_bytes, b)
      else begin_fixed_tick d bytes b
