-- ===== src/Bandwidth/Participants/Complete.antt =====
-- The collection of the pending flushes of all participants.
use ashiato_sync.Base.{
  ℕ, suc, ◌+◌, ◌≤◌, ◌≡◌, ◌≢◌, refl, sym, ap, ◌∙◌, true, false, List, [], ◌∷◌, Option, none, some,
  All, length, count, erase_first, ◌==◌, if◌then◌else◌, arith, Bool-cases, inl, inr, ==→eq, ==_self,
  ne→==_false,
}
use ashiato_sync.Bandwidth.Share.{Flush, Participant}
use ashiato_sync.Bandwidth.Participants.{
  ParticipantState, PendingRequest, Scheduler, from_participant, pending_flush, set_flush, collect,
}

unfoldable pub ids : List ParticipantState → List ℕ
ids [] = []
ids (p ∷ participants) = p.id ∷ ids participants

length-ids :
    (participants : List ParticipantState) → length (ids participants) ≡ length participants
unfolding ids
length-ids [] = refl
length-ids (p ∷ participants) = ap suc (length-ids participants)

erase : ℕ → List ℕ → List ℕ
erase q ps = erase_first (λ r. r == q) ps

erase_lem :
    (q : ℕ) (ps : List ℕ)
    → 1 ≤ count q ps
    → (length ps ≡ suc (length (erase q ps)))
      × ((x : ℕ) → count x ps ≡ (if q == x then 1 else 0) + count x (erase q ps))
unfolding erase
erase_lem q [] h = absurd (omega arith)
erase_lem q (p ∷ ps) h = elim (Bool-cases (p == q)) [
  | inl here ↦
      let e = ==→eq p q here in
      rw here (refl, λ x. ap (λ n. (if n == x then 1 else 0) + count x ps) e)
  | inr there ↦
      let (size, counts) = erase_lem q ps (ground arith) in
      rw there (ap suc size, λ x. omega (arith, counts x))
]

-- A list without more of anything than another one has, and as long, has as much of everything.
same_counts :
    (qs ps : List ℕ)
    → ((x : ℕ) → count x qs ≤ count x ps)
    → length ps ≤ length qs
    → (x : ℕ) → count x ps ≤ count x qs
same_counts [] [] le longer x = omega arith
same_counts [] (p ∷ ps) le longer x = absurd (omega arith)
same_counts (q ∷ qs) ps le longer x =
    let own : (q == q) ≡ true = ==_self q in
    let some_q : 1 ≤ count q ps = ground (arith, le q) in
    let (size, counts) = erase_lem q ps some_q in
    let rest =
      same_counts qs (erase q ps) (λ y. ground (arith, le y, counts y)) (omega (arith, size)) x in
    omega (arith, counts x, rest)

module _ {F S : Type 0} where
  unfoldable pub request_ids : List (PendingRequest F S) → List ℕ
  request_ids [] = []
  request_ids (r ∷ pending) = r.participant ∷ request_ids pending

  abbrev pub HasFlush : PendingRequest F S → Type 0
  HasFlush r = (flush : Flush F S) × (r.flush ≡ some flush)

  -- No two participants have the same id, a participant has at most one pending request, there are no
  -- others, and none of them was moved from.
  pub record IsConsistent (s : Scheduler F S) : Type 0 where
    pub distinct : (id : ℕ) → count id (ids s.participants) ≤ 1
    pub known : (id : ℕ) → count id (request_ids s.pending_requests) ≤ count id (ids s.participants)
    pub present : All HasFlush s.pending_requests

  abbrev Submitted : List (PendingRequest F S) → ParticipantState → Type 0
  Submitted pending p = (flush : Flush F S) × (pending_flush p.id pending ≡ some flush)

  pending_flush-Submitted :
      (id : ℕ) (pending : List (PendingRequest F S))
      → All HasFlush pending
      → 1 ≤ count id (request_ids pending)
      → (flush : Flush F S) × (pending_flush id pending ≡ some flush)
  unfolding pending_flush request_ids from_participant
  pending_flush-Submitted id [] all h = absurd (omega arith)
  pending_flush-Submitted id (r ∷ pending) all h = elim (Bool-cases (r.participant == id)) [
    | inl here ↦ rw (here, pending_flush) all.0
    | inr there ↦
        rw (there, pending_flush) (pending_flush-Submitted id pending all.1 (ground arith))
  ]

  pub pending_flush-set_flush :
      (id other : ℕ) (flush : Option (Flush F S)) (pending : List (PendingRequest F S))
      → other ≢ id
      → pending_flush other (set_flush id flush pending) ≡ pending_flush other pending
  unfolding pending_flush set_flush from_participant
  pending_flush-set_flush id other flush [] ne = refl
  pending_flush-set_flush id other flush (r ∷ pending) ne =
      elim (Bool-cases (r.participant == id)) [
        | inl here ↦
            let foreign : (r.participant == other) ≡ false =
              ne→==_false r.participant other (λ e. ne (sym e ∙ ==→eq r.participant id here)) in
            rw (here, foreign, pending_flush, set_flush) refl
        | inr there ↦ elim (Bool-cases (r.participant == other)) [
          | inl own ↦ rw (there, own, pending_flush, set_flush) refl
          | inr else_where ↦
              rw (there, else_where, pending_flush, set_flush)
                (pending_flush-set_flush id other flush pending ne)
        ]
      ]

  -- Requests of other participants stay where a flush is moved out.
  kept_requests :
      (p : ParticipantState) (participants : List ParticipantState)
      (pending : List (PendingRequest F S))
      → count p.id (ids participants) ≡ 0
      → All (Submitted pending) participants
      → All (Submitted (set_flush p.id none pending)) participants
  unfolding ids
  kept_requests p [] pending apart all = tt
  kept_requests p (u ∷ participants) pending apart all =
      let (flush, e) = all.0 in
      let ne : u.id ≢ p.id = λ q. absurd (ground (arith, q)) in
      (
        (flush, pending_flush-set_flush p.id u.id none pending ne ∙ e),
        kept_requests p participants pending (ground arith) all.1,
      )

  -- The participants of a share are the given ones, in their order, with their weights and priorities,
  -- each with its pending flush.
  abbrev pub SharesOf :
      List (PendingRequest F S) → List ParticipantState → List (Participant F S) → Type 0
  SharesOf pending [] [] = Unit
  SharesOf pending [] (q ∷ qs) = ⊥
  SharesOf pending (p ∷ ps) [] = ⊥
  SharesOf pending (p ∷ ps) (q ∷ qs) =
      ((q.weight ≡ p.weight)
        × (q.priority ≡ p.priority)
        × ((flush : Flush F S) × (pending_flush p.id pending ≡ some flush)
            × (q.flush ≡ some flush)))
      × SharesOf pending ps qs

  -- A share is of the requests before a flush of another participant was moved out.
  shares_before :
      (p : ParticipantState) (participants : List ParticipantState)
      (pending : List (PendingRequest F S)) (share_participants : List (Participant F S))
      → count p.id (ids participants) ≡ 0
      → SharesOf (set_flush p.id none pending) participants share_participants
      → SharesOf pending participants share_participants
  unfolding ids
  shares_before p [] pending [] apart shares = tt
  shares_before p [] pending (q ∷ qs) apart shares = shares
  shares_before p (u ∷ participants) pending [] apart shares = shares
  shares_before p (u ∷ participants) pending (q ∷ qs) apart
        ((weight, priority, (flush, e, own)), shares) =
      let ne : u.id ≢ p.id = λ h. absurd (ground (arith, h)) in
      (
        (
          weight,
          priority,
          (flush, sym (pending_flush-set_flush p.id u.id none pending ne) ∙ e, own),
        ),
        shares_before p participants pending qs (ground arith) shares,
      )

  abbrev pub Collected :
      List (PendingRequest F S) → List ParticipantState → Option (List (Participant F S)) → Type 0
  Collected pending participants result =
      (share_participants : List (Participant F S)) × (result ≡ some share_participants)
      × SharesOf pending participants share_participants

  collect-Collected :
      (participants : List ParticipantState) (pending : List (PendingRequest F S))
      → ((id : ℕ) → count id (ids participants) ≤ 1)
      → All (Submitted pending) participants
      → Collected pending participants ((collect participants pending).0)
  unfolding collect ids
  collect-Collected [] pending distinct all = ([], refl, tt)
  collect-Collected (p ∷ participants) pending distinct all =
      let (flush, e) = all.0 in
      let own : (p.id == p.id) ≡ true = ==_self p.id in
      let apart : count p.id (ids participants) ≡ 0 = ground (arith, distinct p.id) in
      let (others, found, shares) =
        collect-Collected participants (set_flush p.id none pending)
          (λ id. ground (arith, distinct id)) (kept_requests p participants pending apart all.1) in
      let collected : Participant F S = record {
        weight = p.weight;
        priority = p.priority;
        flush = some flush;
      } in
      rw (e, found, collect)
        (
          collected ∷ others,
          refl,
          (
            (refl, refl, (flush, e, refl)),
            shares_before p participants pending others apart shares,
          ),
        )

  found_requests :
      (all_participants participants : List ParticipantState) (pending : List (PendingRequest F S))
      → All HasFlush pending
      → ((id : ℕ) → count id (ids all_participants) ≤ count id (request_ids pending))
      → ((id : ℕ) → count id (ids participants) ≤ count id (ids all_participants))
      → All (Submitted pending) participants
  unfolding ids
  found_requests all_participants [] pending present enough within = tt
  found_requests all_participants (p ∷ participants) pending present enough within =
      let own : (p.id == p.id) ≡ true = ==_self p.id in
      let some_request : 1 ≤ count p.id (request_ids pending) =
        ground (arith, within p.id, enough p.id) in
      (
        pending_flush-Submitted p.id pending present some_request,
        found_requests all_participants participants pending present enough
            (λ id. ground (arith, within id)),
      )

  length-request_ids :
      (pending : List (PendingRequest F S)) → length (request_ids pending) ≡ length pending
  unfolding request_ids
  length-request_ids [] = refl
  length-request_ids (r ∷ pending) = ap suc (length-request_ids pending)

  -- In a consistent state with as many pending requests as participants, the flush of every participant
  -- is collected: the run never ends with some flushes moved out of their requests and lost.
  pub collect-Complete :
      (s : Scheduler F S)
      → IsConsistent s
      → length s.participants ≤ length s.pending_requests
      → Collected s.pending_requests s.participants ((collect s.participants s.pending_requests).0)
  collect-Complete s v enough = collect-Collected s.participants s.pending_requests v.distinct (
      found_requests s.participants s.participants s.pending_requests v.present
        (same_counts (request_ids s.pending_requests) (ids s.participants) v.known
          (omega (arith, length-ids s.participants, length-request_ids s.pending_requests)))
        (λ id. omega arith))
