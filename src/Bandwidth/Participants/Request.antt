-- ===== src/Bandwidth/Participants/Request.antt =====
-- The request that a submitted flush adds or replaces.
use ashiato_sync.Base.{
  ℕ, ◌≡◌, ◌≢◌, refl, sym, ◌∙◌, true, false, List, [], ◌∷◌, ◌++◌, some, any, ◌==◌, Bool-cases, inl,
  inr, ==_self, ne→==_false,
}
use ashiato_sync.Bandwidth.Share.{Flush}
use ashiato_sync.Bandwidth.Participants.{
  PendingRequest, Scheduler, from_participant, pending_flush, set_flush, with_request,
}
use ashiato_sync.Bandwidth.Participants.Complete.{pending_flush-set_flush}

module _ {F S : Type 0} where
  -- The flush is the pending one of its participant, and those of the others are what they were.
  abbrev pub Requested :
      (participant : ℕ) → Flush F S → (before after : List (PendingRequest F S)) → Type 0
  Requested participant flush before after =
      (pending_flush participant after ≡ some flush)
      × ((other : ℕ) → other ≢ participant → pending_flush other after ≡ pending_flush other before)

  pending_flush-set_flush_self :
      (participant : ℕ) (flush : Flush F S) (pending : List (PendingRequest F S))
      → any (from_participant participant) pending ≡ true
      → pending_flush participant (set_flush participant (some flush) pending) ≡ some flush
  unfolding pending_flush set_flush from_participant
  pending_flush-set_flush_self participant flush [] h = absurd (cc)
  pending_flush-set_flush_self participant flush (r ∷ pending) h =
      elim (Bool-cases (r.participant == participant)) [
        | inl here ↦ rw (here, set_flush, pending_flush) (rw here refl)
        | inr there ↦
            rw (there, set_flush, pending_flush)
              (rw there (pending_flush-set_flush_self participant flush pending (rw there at h)))
      ]

  pending_flush-append :
      (id : ℕ) (pending : List (PendingRequest F S)) (last : PendingRequest F S)
      → any (from_participant id) pending ≡ false
      → pending_flush id (pending ++ (last ∷ [])) ≡ pending_flush id (last ∷ [])
  unfolding pending_flush from_participant
  pending_flush-append id [] last h = refl
  pending_flush-append id (r ∷ pending) last h = elim (Bool-cases (r.participant == id)) [
    | inl here ↦ absurd (cc (rw here at h))
    | inr there ↦ rw (there, pending_flush) (pending_flush-append id pending last (rw there at h))
  ]

  pending_flush-append_ne :
      (id : ℕ) (pending : List (PendingRequest F S)) (last : PendingRequest F S)
      → (last.participant == id) ≡ false
      → pending_flush id (pending ++ (last ∷ [])) ≡ pending_flush id pending
  unfolding pending_flush from_participant
  pending_flush-append_ne id [] last h = rw (h, pending_flush) refl
  pending_flush-append_ne id (r ∷ pending) last h = elim (Bool-cases (r.participant == id)) [
    | inl here ↦ rw (here, pending_flush) refl
    | inr there ↦ rw (there, pending_flush) (pending_flush-append_ne id pending last h)
  ]

  pending_flush_only :
      (participant : ℕ) (flush : Flush F S)
      → pending_flush participant (record { participant = participant; flush = some flush } ∷ [])
        ≡ some flush
  unfolding pending_flush from_participant
  pending_flush_only participant flush = rw (pending_flush, ==_self participant) refl

  -- A flush becomes the pending one of its participant, and the pending flushes of the others stay.
  pub with_request-Requested :
      (participant : ℕ) (flush : Flush F S) (s : Scheduler F S)
      → Requested participant flush s.pending_requests
          (with_request participant flush s).pending_requests
  unfolding with_request
  with_request-Requested participant flush s =
      elim (Bool-cases (any (from_participant participant) s.pending_requests)) [
        | inl again ↦
            rw (again, with_request)
              (
                pending_flush-set_flush_self participant flush s.pending_requests again,
                λ other ne.
                    pending_flush-set_flush participant other (some flush) s.pending_requests ne,
              )
        | inr first ↦
            let last : PendingRequest F S = record {
              participant = participant;
              flush = some flush;
            } in
            rw (first, with_request)
              (
                pending_flush-append participant s.pending_requests last first
                    ∙ pending_flush_only participant flush,
                λ other ne.
                    pending_flush-append_ne other s.pending_requests last
                      (ne→==_false participant other (λ e. ne (sym e))),
              )
      ]
