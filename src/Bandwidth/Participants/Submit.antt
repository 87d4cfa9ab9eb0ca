-- ===== src/Bandwidth/Participants/Submit.antt =====
-- The participants and their requests when a flush is submitted.
use ashiato_sync.Base.{
  ℕ, ◌≤◌, ◌<◌, ◌≡◌, ◌≢◌, refl, sym, ap, subst, ◌∙◌, true, false, List, [], ◌∷◌, ◌++◌, Option, none,
  some, All, All-append, length, ltb, count, count-append, any, ◌==◌, arith, Bool-cases, inl, inr,
  ◌⊎◌, ==→eq, ==_false→ne, ltb_false→le, ==_self, Option-cases,
}
use ashiato_sync.Bandwidth.{Doubles, Budget}
use ashiato_sync.Bandwidth.Share.{Flush}
use ashiato_sync.Bandwidth.Participants.{
  ParticipantState, PendingRequest, Scheduler, same_participant, from_participant, set_flush,
  try_run_pending, run_alone, with_request, submit_flush,
}
use ashiato_sync.Bandwidth.Participants.Complete.{
  IsConsistent, HasFlush, ids, request_ids, collect-Complete,
}

pub participant_count :
    (participant : ℕ) (participants : List ParticipantState)
    → any (same_participant participant) participants ≡ true
    → 1 ≤ count participant (ids participants)
unfolding ids same_participant
participant_count participant [] h = absurd (cc)
participant_count participant (p ∷ participants) h = elim (Bool-cases (p.id == participant)) [
  | inl here ↦ ground arith
  | inr there ↦
      let rest = participant_count participant participants (rw there at h) in ground arith
]

one_more :
    (participant id : ℕ) (requests known : List ℕ)
    → count id requests ≤ count id known
    → count participant requests ≡ 0
    → 1 ≤ count participant known
    → count id (requests ++ (participant ∷ [])) ≤ count id known
one_more participant id requests known le free room = elim (Bool-cases (participant == id)) [
  | inl same ↦
      let e = ==→eq participant id same in
      let free_id = ap (λ n. count n requests) (sym e) ∙ free in
      let room_id : 1 ≤ count id known = subst (λ n. 1 ≤ count n known) e room in
      ground (arith, count-append id requests (participant ∷ []))
  | inr other ↦ ground (arith, count-append id requests (participant ∷ []))
]

no_ids :
    (participants : List ParticipantState) (id : ℕ)
    → length participants ≡ 0
    → count id (ids participants) ≡ 0
unfolding ids
no_ids [] id e = refl
no_ids (p ∷ participants) id e = absurd (omega arith)

module _ {F S : Type 0} where
  request_ids-append :
      (xs ys : List (PendingRequest F S))
      → request_ids (xs ++ ys) ≡ request_ids xs ++ request_ids ys
  unfolding request_ids
  request_ids-append [] ys = refl
  request_ids-append (x ∷ xs) ys = ap (λ r. x.participant ∷ r) (request_ids-append xs ys)

  request_ids-set_flush :
      (participant : ℕ) (flush : Option (Flush F S)) (pending : List (PendingRequest F S))
      → request_ids (set_flush participant flush pending) ≡ request_ids pending
  unfolding request_ids set_flush
  request_ids-set_flush participant flush [] = refl
  request_ids-set_flush participant flush (r ∷ pending) =
      elim (Bool-cases (r.participant == participant)) [
        | inl here ↦ rw (here, set_flush, request_ids) refl
        | inr there ↦
            rw (there, set_flush, request_ids)
              (ap (λ t. r.participant ∷ t) (request_ids-set_flush participant flush pending))
      ]

  set_flush-All :
      (participant : ℕ) (flush : Flush F S) (pending : List (PendingRequest F S))
      → All HasFlush pending
      → All HasFlush (set_flush participant (some flush) pending)
  unfolding set_flush
  set_flush-All participant flush [] all = tt
  set_flush-All participant flush (r ∷ pending) all =
      elim (Bool-cases (r.participant == participant)) [
        | inl here ↦ rw (here, set_flush) ((flush, refl), all.1)
        | inr there ↦ rw (there, set_flush) (all.0, set_flush-All participant flush pending all.1)
      ]

  no_request :
      (participant : ℕ) (pending : List (PendingRequest F S))
      → any (from_participant participant) pending ≡ false
      → count participant (request_ids pending) ≡ 0
  unfolding request_ids from_participant
  no_request participant [] h = refl
  no_request participant (r ∷ pending) h = elim (Bool-cases (r.participant == participant)) [
    | inl here ↦ absurd (true_ne_false (rw here at h))
    | inr there ↦ let rest = no_request participant pending (rw there at h) in ground arith
  ]
    where
      true_ne_false : true ≡ false → ⊥
      true_ne_false e = absurd (cc)

  cleared-IsConsistent :
      (s : Scheduler F S) → IsConsistent s → IsConsistent (record s { pending_requests = [] })
  unfolding request_ids
  cleared-IsConsistent s v = record {
    distinct = v.distinct;
    known = λ id. omega arith;
    present = tt;
  }

  -- Between the calls, the requests are consistent, and some participant is awaited if any request
  -- waits.
  pub record IsWaiting (s : Scheduler F S) : Type 0 where
    pub consistent : IsConsistent s
    pub awaited : (s.pending_requests ≡ []) ⊎ (length s.pending_requests < length s.participants)

  no_requests :
      (pending : List (PendingRequest F S))
      → ((id : ℕ) → count id (request_ids pending) ≤ 0)
      → pending ≡ []
  unfolding request_ids
  no_requests [] h = refl
  no_requests (r ∷ pending) h =
      let own : (r.participant == r.participant) ≡ true = ==_self r.participant in
      absurd (ground (arith, h r.participant))

  no_participants :
      (s : Scheduler F S) → IsConsistent s → length s.participants ≡ 0 → s.pending_requests ≡ []
  no_participants s v none_there =
      no_requests s.pending_requests
        (λ id. omega (arith, v.known id, no_ids s.participants id none_there))

  run_alone-IsWaiting :
      (s : Scheduler F S) (pending : List (PendingRequest F S)) (st : Budget F × S)
      → IsConsistent (record s { pending_requests = [] })
      → length s.participants ≢ 0
      → length s.participants ≤ length pending
      → IsWaiting ((run_alone s pending st).1)
  unfolding run_alone
  run_alone-IsWaiting s [] st v ne enough = absurd (ne (omega arith))
  run_alone-IsWaiting s (request ∷ others) st v ne enough =
      let cleared : IsWaiting (record s { pending_requests = [] }) = record {
        consistent = v;
        awaited = inl refl;
      } in
      elim (Option-cases request.flush) [
        | inl moved ↦ rw (moved, run_alone) cleared
        | inr (flush, e) ↦ rw (e, run_alone) cleared
      ]

module _ {F S : Type 0} where
  added-IsConsistent :
      (participant : ℕ) (flush : Flush F S) (s : Scheduler F S)
      → any (same_participant participant) s.participants ≡ true
      → any (from_participant participant) s.pending_requests ≡ false
      → IsConsistent s
      → IsConsistent (record s {
        pending_requests =
            s.pending_requests ++ (record { participant = participant; flush = some flush } ∷ []);
      })
  unfolding request_ids
  added-IsConsistent participant flush s attached first v =
      let last : PendingRequest F S = record { participant = participant; flush = some flush } in
      let room = participant_count participant s.participants attached in
      let free = no_request participant s.pending_requests first in
      record {
        distinct = v.distinct;
        known = λ id.
            subst (λ (r : List ℕ). count id r ≤ count id (ids s.participants))
              (sym (request_ids-append s.pending_requests (last ∷ [])))
              (one_more participant id (request_ids s.pending_requests) (ids s.participants)
                (v.known id) free room);
        present = All-append HasFlush s.pending_requests (last ∷ []) v.present ((flush, refl), tt);
      }

  pub with_request-IsConsistent :
      (participant : ℕ) (flush : Flush F S) (s : Scheduler F S)
      → any (same_participant participant) s.participants ≡ true
      → IsConsistent s
      → IsConsistent (with_request participant flush s)
  unfolding with_request
  with_request-IsConsistent participant flush s attached v =
      elim (Bool-cases (any (from_participant participant) s.pending_requests)) [
        | inr first ↦
            rw (first, with_request) (added-IsConsistent participant flush s attached first v)
        | inl again ↦
            rw (again, with_request)
              record {
                distinct = v.distinct;
                known = λ id.
                    subst (λ (r : List ℕ). count id r ≤ count id (ids s.participants))
                      (sym (request_ids-set_flush participant (some flush) s.pending_requests))
                      (v.known id);
                present = set_flush-All participant flush s.pending_requests v.present;
              }
      ]

module _ {F S : Type 0} (d : Doubles F) where
  try_run_pending-IsWaiting :
      (s : Scheduler F S) (st : Budget F × S)
      → IsConsistent s
      → IsWaiting ((try_run_pending d s st).1)
  unfolding try_run_pending
  try_run_pending-IsWaiting s st v =
      let cleared : IsWaiting (record s { pending_requests = [] }) = record {
        consistent = cleared-IsConsistent s v;
        awaited = inl refl;
      } in
      elim (Bool-cases (length s.participants == 0)) [
        | inl nobody ↦
            rw (nobody, try_run_pending)
              record {
                consistent = v;
                awaited = inl (no_participants s v (==→eq (length s.participants) 0 nobody));
              }
        | inr somebody ↦
            elim (Bool-cases (ltb (length s.pending_requests) (length s.participants))) [
              | inl early ↦
                  rw (somebody, early, try_run_pending)
                    record { consistent = v; awaited = inr (ground arith) }
              | inr complete ↦
                  let enough =
                    ltb_false→le (length s.pending_requests) (length s.participants) complete in
                  elim (Bool-cases (length s.participants == 1)) [
                    | inr several ↦
                        let (share_participants, found, shares) = collect-Complete s v enough in
                        rw (somebody, complete, several, found, try_run_pending) cleared
                    | inl one ↦
                        rw (somebody, complete, one, try_run_pending)
                          (run_alone-IsWaiting s s.pending_requests st (cleared-IsConsistent s v)
                            (==_false→ne (length s.participants) 0 somebody) enough)
                  ]
            ]
      ]

  -- When the requests are consistent and some participant is awaited if any request waits, then so it
  -- is after the submission of a flush.
  pub submit_flush-IsWaiting :
      (participant : ℕ) (flush : Option (Flush F S)) (s : Scheduler F S) (st : Budget F × S)
      → IsWaiting s
      → IsWaiting ((submit_flush d participant flush s st).1)
  unfolding submit_flush
  submit_flush-IsWaiting participant none s st v = v
  submit_flush-IsWaiting participant (some flush) s st v =
      elim (Bool-cases (any (same_participant participant) s.participants)) [
        | inr unknown ↦ rw (unknown, submit_flush) v
        | inl attached ↦
            rw (attached, submit_flush)
              (try_run_pending-IsWaiting (with_request participant flush s) st
                (with_request-IsConsistent participant flush s attached v.consistent))
      ]
