-- ===== src/Bandwidth/Participants/Outcome.antt =====
-- What the submission of a flush does.
use ashiato_sync.Base.{
  ℕ, ◌≤◌, ◌<◌, ◌≡◌, ◌≢◌, refl, sym, ap, ◌∙◌, true, false, List, [], ◌∷◌, some, length, ltb, count,
  any, ◌==◌, arith, Bool-cases, inl, inr, ◌⊎◌, ==→eq, ==_false→ne, ltb_false→le, ==_self,
}
use ashiato_sync.Bandwidth.{Doubles, Budget}
use ashiato_sync.Bandwidth.Share.{Result, no_result, Flush, Participant, run}
use ashiato_sync.Bandwidth.Participants.{
  ParticipantState, PendingRequest, Scheduler, same_participant, from_participant, pending_flush,
  try_run_pending, run_alone, with_request, submit_flush,
}
use ashiato_sync.Bandwidth.Participants.Complete.{
  IsConsistent, SharesOf, ids, request_ids, collect-Complete,
}
use ashiato_sync.Bandwidth.Participants.Request.{Requested, with_request-Requested}
use ashiato_sync.Bandwidth.Participants.Submit.{
  IsWaiting, with_request-IsConsistent, submit_flush-IsWaiting,
}

-- A list of one participant has no other ids than the attached one.
only_id :
    (participant id : ℕ) (participants : List ParticipantState)
    → length participants ≡ 1
    → any (same_participant participant) participants ≡ true
    → 1 ≤ count id (ids participants)
    → id ≡ participant
unfolding ids same_participant
only_id participant id [] one attached known = absurd (omega arith)
only_id participant id (p ∷ q ∷ participants) one attached known = absurd (omega arith)
only_id participant id (p ∷ []) one attached known = elim (Bool-cases (p.id == participant)) [
  | inl here ↦ ground arith
  | inr there ↦ absurd (cc (rw there at attached))
]

module _ {F S : Type 0} where
  pending_flush_first :
      (r : PendingRequest F S) (others : List (PendingRequest F S))
      → pending_flush r.participant (r ∷ others) ≡ r.flush
  unfolding pending_flush from_participant
  pending_flush_first r others = rw (pending_flush, ==_self r.participant) refl

  first_known :
      (s : Scheduler F S) (r : PendingRequest F S) (others : List (PendingRequest F S))
      → IsConsistent s
      → s.pending_requests ≡ r ∷ others
      → 1 ≤ count r.participant (ids s.participants)
  unfolding request_ids
  first_known s r others v e =
      let own : (r.participant == r.participant) ≡ true = ==_self r.participant in
      let counted = ap (λ (p : List (PendingRequest F S)). count r.participant (request_ids p)) e in
      ground (arith, v.known r.participant, counted)

  -- The first request is of the only participant.
  first_request :
      (participant : ℕ) (flush : Flush F S) (s : Scheduler F S) (r : PendingRequest F S)
      (others : List (PendingRequest F S))
      → IsConsistent s
      → any (same_participant participant) s.participants ≡ true
      → pending_flush participant s.pending_requests ≡ some flush
      → length s.participants ≡ 1
      → s.pending_requests ≡ r ∷ others
      → r.flush ≡ some flush
  first_request participant flush s r others v attached pending one e =
      let same =
        only_id participant r.participant s.participants one attached
          (first_known s r others v e) in
      sym (pending_flush_first r others)
      ∙ ap (λ id. pending_flush id (r ∷ others)) same
      ∙ ap (pending_flush participant) (sym e)
      ∙ pending

module _ {F S : Type 0} (d : Doubles F) where
  -- The flush of the only participant is run, or `run` has all the participants with their pending
  -- flushes and the available bytes.
  abbrev pub Runs :
      Flush F S
      → List ParticipantState
      → List (PendingRequest F S)
      → Budget F × S
      → Result × (Budget F × S)
      → Type 0
  Runs flush participants requests st done =
      ((length participants ≡ 1) × (done ≡ flush st))
      ⊎ ((length participants ≢ 1)
          × ((share_participants : List (Participant F S)) × SharesOf requests participants
                share_participants
              × (done ≡ run d (d.truncate st.0.available_bytes) share_participants st)))

  -- Either some participant is awaited, and all is as before; or all have submitted.
  abbrev pub Tries :
      Flush F S → Scheduler F S → Budget F × S → Result × Scheduler F S × (Budget F × S) → Type 0
  Tries flush s st (result, after, end) =
      ((length s.pending_requests < length s.participants)
        × (result ≡ no_result)
        × (after ≡ s)
        × (end ≡ st))
      ⊎ ((length s.participants ≤ length s.pending_requests)
          × (after ≡ record s { pending_requests = [] })
          × Runs flush s.participants s.pending_requests st (result, end))

  run_alone-Runs :
      (flush : Flush F S) (s : Scheduler F S) (pending : List (PendingRequest F S))
      (st : Budget F × S)
      → length s.participants ≡ 1
      → length s.participants ≤ length pending
      → ((r : PendingRequest F S) (others : List (PendingRequest F S))
          → pending ≡ r ∷ others
          → r.flush ≡ some flush)
      → let (result, after, end) = run_alone s pending st in
        (after ≡ record s { pending_requests = [] }) × ((result, end) ≡ flush st)
  unfolding run_alone
  run_alone-Runs flush s [] st one enough first = absurd (omega arith)
  run_alone-Runs flush s (r ∷ others) st one enough first =
      rw (first r others refl, run_alone) (refl, refl)

  try_run_pending-Tries :
      (flush : Flush F S) (s : Scheduler F S) (st : Budget F × S)
      → IsConsistent s
      → length s.participants ≢ 0
      → (length s.participants ≡ 1
          → (r : PendingRequest F S) (others : List (PendingRequest F S))
          → s.pending_requests ≡ r ∷ others
          → r.flush ≡ some flush)
      → Tries flush s st (try_run_pending d s st)
  unfolding try_run_pending
  try_run_pending-Tries flush s st v ne first =
      let somebody : (length s.participants == 0) ≡ false = ground arith in
      elim (Bool-cases (ltb (length s.pending_requests) (length s.participants))) [
        | inl early ↦ rw (somebody, early, try_run_pending) (inl (ground arith, refl, refl, refl))
        | inr complete ↦
            let enough =
              ltb_false→le (length s.pending_requests) (length s.participants) complete in
            elim (Bool-cases (length s.participants == 1)) [
              | inr several ↦
                  let (share_participants, found, shares) = collect-Complete s v enough in
                  rw (somebody, complete, several, found, try_run_pending)
                    (inr (
                      enough,
                      refl,
                      inr (
                        ==_false→ne (length s.participants) 1 several,
                        (share_participants, shares, refl),
                      ),
                    ))
              | inl alone ↦
                  let one = ==→eq (length s.participants) 1 alone in
                  let (cleared, ran) =
                    run_alone-Runs flush s s.pending_requests st one enough (first one) in
                  rw (somebody, complete, alone, try_run_pending)
                    (inr (enough, cleared, inl (one, ran)))
            ]
      ]

  -- What the submission of a flush does: it is refused if its participant is not attached, and
  -- otherwise requested before the pending flushes are tried.
  abbrev pub Submits :
      (participant : ℕ)
      → Flush F S
      → Scheduler F S
      → Budget F × S
      → Result × Scheduler F S × (Budget F × S)
      → Type 0
  Submits participant flush s st done =
      ((any (same_participant participant) s.participants ≡ false) × (done ≡ (no_result, s, st)))
      ⊎ ((any (same_participant participant) s.participants ≡ true)
          × ((requests : List (PendingRequest F S)) × Requested participant flush s.pending_requests
                requests
              × Tries flush (record s { pending_requests = requests }) st done))

  submitted :
      (participant : ℕ) (flush : Flush F S) (s : Scheduler F S) (st : Budget F × S)
      → any (same_participant participant) s.participants ≡ true
      → IsConsistent (with_request participant flush s)
      → Tries flush
          (with_request participant flush s)
          st
          (try_run_pending d (with_request participant flush s) st)
  unfolding with_request
  submitted participant flush s st attached v =
      let w = with_request participant flush s in
      let pending = (with_request-Requested participant flush s).0 in
      try_run_pending-Tries flush w st v
        (λ nobody. absurd (none_attached participant s.participants nobody attached))
        (λ one r others e. first_request participant flush w r others v attached pending one e)
    where
      none_attached :
          (participant : ℕ) (participants : List ParticipantState)
          → length participants ≡ 0
          → any (same_participant participant) participants ≡ true
          → ⊥
      none_attached participant [] nobody attached = absurd (cc)
      none_attached participant (p ∷ participants) nobody attached = absurd (omega arith)

  -- A submitted flush leaves no request waiting for nobody. When the requests are consistent, each
  -- participant with at most one, and some participant is awaited if any request waits, then so it
  -- is afterwards, and the flush is refused, changing nothing, if its participant is not attached.
  -- Otherwise it takes the place of the pending flush of its participant, and the pending flushes
  -- of the others stay. With fewer requests than participants, nothing is run and the requests
  -- wait. With all of them there, the requests are cleared. Then a single participant has its flush
  -- run; several are handed to `run`, in order, with their weights, priorities and pending flushes
  -- and the available bytes.
  pub submit_flush-Submits :
      (participant : ℕ) (flush : Flush F S) (s : Scheduler F S) (st : Budget F × S)
      → IsWaiting s
      → let done = submit_flush d participant (some flush) s st in
        IsWaiting (done.1) × Submits participant flush s st done
  unfolding submit_flush with_request
  submit_flush-Submits participant flush s st v = (
    submit_flush-IsWaiting d participant (some flush) s st v,
    elim (Bool-cases (any (same_participant participant) s.participants)) [
      | inr unknown ↦ rw (unknown, submit_flush) (inl (refl, refl))
      | inl attached ↦
          rw (attached, submit_flush)
            (inr (
              refl,
              (
                (with_request participant flush s).pending_requests,
                with_request-Requested participant flush s,
                submitted participant flush s st attached
                    (with_request-IsConsistent participant flush s attached v.consistent),
              ),
            ))
    ],
  )
