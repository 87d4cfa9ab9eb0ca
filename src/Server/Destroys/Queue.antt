-- ===== src/Server/Destroys/Queue.antt =====
-- Queueing a destruction, and the acknowledgement of one.
use ashiato_sync.Base.{
  ℕ, ◌≤◌, ◌<◌, ◌≡◌, ◌⊎◌, All, subst, refl, sym, ap, Bool, true, false, List, [], ◌∷◌, ◌++◌, none,
  some, arith, find, erase_first, any, Bool-cases, Option-cases, inl, inr,
}
use ashiato_sync.Server.NetworkIds.{NetworkIds, free}
use ashiato_sync.Server.NetworkIds.Invariant.{IsValid}
use ashiato_sync.Server.NetworkIds.Preserve.{free-IsValid}
use ashiato_sync.Server.Destroys.{
  ClientDestroyState, same_destroy, enqueue, acknowledges, acknowledge, contains_ack_record,
}

-- No two entries are of one entity and one network id.
abbrev pub Apart : List ClientDestroyState → Type 0
Apart [] = Unit {0}
Apart (d ∷ ds) = (any (same_destroy d.entity d.network_id) ds ≡ false) × Apart ds

any-append {ℓ} :
    {A : Type ℓ} (p : A → Bool) (xs : List A) (y : A)
    → any p xs ≡ false
    → p y ≡ false
    → any p (xs ++ (y ∷ [])) ≡ false
any-append p [] y h k = rw k
any-append p (x ∷ xs) y h k = elim (Bool-cases (p x)) [
  | inl hit ↦ absurd (cc (rw hit at h))
  | inr miss ↦ rw miss (any-append p xs y (rw miss at h) k)
]

same_destroy_sym :
    (d e : ClientDestroyState)
    → same_destroy d.entity d.network_id e ≡ true
    → same_destroy e.entity e.network_id d ≡ true
unfolding same_destroy
same_destroy_sym d e h = ground arith

Apart-append :
    (ds : List ClientDestroyState) (e : ClientDestroyState)
    → any (same_destroy e.entity e.network_id) ds ≡ false
    → Apart ds
    → Apart (ds ++ (e ∷ []))
Apart-append [] e h a = (refl, tt)
Apart-append (d ∷ ds) e h (first, rest) = elim (Bool-cases (same_destroy e.entity e.network_id d)) [
  | inl hit ↦ absurd (cc (rw hit at h))
  | inr miss ↦ (
    any-append (same_destroy d.entity d.network_id) ds e first (other miss),
    Apart-append ds e (rw miss at h) rest,
  )
]
  where
    other :
        same_destroy e.entity e.network_id d ≡ false → same_destroy d.entity d.network_id e ≡ false
    other miss = elim (Bool-cases (same_destroy d.entity d.network_id e)) [
      | inl hit ↦ let back = same_destroy_sym d e hit in absurd (cc)
      | inr ok ↦ ok
    ]

-- When no two queued destructions are of one entity and one network id, that still holds after a
-- destruction is queued, and the queue has one of its entity and network id.
pub enqueue-Apart :
    (ds : List ClientDestroyState) (entity frame network_id version : ℕ)
    → Apart ds
    → Apart (enqueue ds entity frame network_id version)
      × (any (same_destroy entity network_id) (enqueue ds entity frame network_id version) ≡ true)
unfolding enqueue
enqueue-Apart ds entity frame network_id version a =
    elim (Bool-cases (any (same_destroy entity network_id) ds)) [
      | inl known ↦ rw (enqueue, known) (a, known)
      | inr fresh ↦
          rw (enqueue, fresh)
            (Apart-append ds _ fresh a, any-last ds _ (self entity frame network_id version))
    ]
  where
    self :
        (entity frame network_id version : ℕ)
        → same_destroy entity network_id (record {
          entity = entity;
          frame = frame;
          reset_epoch = 0;
          network_id = network_id;
          network_version = version;
        })
          ≡ true
    self entity frame network_id version = ground arith

    any-last :
        (ds : List ClientDestroyState) (d : ClientDestroyState)
        → same_destroy entity network_id d ≡ true
        → any (same_destroy entity network_id) (ds ++ (d ∷ [])) ≡ true
    any-last [] d h = rw h
    any-last (x ∷ ds) d h = elim (Bool-cases (same_destroy entity network_id x)) [
      | inl hit ↦ rw hit
      | inr miss ↦ rw miss (any-last ds d h)
    ]

-- None of the destructions is of the entity and at least as new as the acknowledged frame.
abbrev pub Unmatched : (entity frame : ℕ) → List ClientDestroyState → Type 0
Unmatched entity frame ds = All (λ (d : ClientDestroyState). d.entity ≡ entity → d.frame < frame) ds

-- The first destruction of the entity that is at least as new as the acknowledged frame, and what is
-- left without it.
abbrev pub FirstMatch :
    (entity frame : ℕ) (ds rest : List ClientDestroyState) → ClientDestroyState → Type 0
FirstMatch entity frame ds rest found =
    (before : List ClientDestroyState) × (after : List ClientDestroyState) × (ds
      ≡ before ++ (found ∷ after))
    × (rest ≡ before ++ after)
    × Unmatched entity frame before
    × (found.entity ≡ entity)
    × (frame ≤ found.frame)

unmatched :
    (entity frame : ℕ) (d : ClientDestroyState)
    → acknowledges entity frame d ≡ false
    → d.entity ≡ entity
    → d.frame < frame
unfolding acknowledges
unmatched entity frame d h = λ e. ground arith

matched :
    (entity frame : ℕ) (d : ClientDestroyState)
    → acknowledges entity frame d ≡ true
    → (d.entity ≡ entity) × (frame ≤ d.frame)
unfolding acknowledges
matched entity frame d h = ground arith

none_found :
    (entity frame : ℕ) (ds : List ClientDestroyState)
    → find (acknowledges entity frame) ds ≡ none
    → (any (acknowledges entity frame) ds ≡ false) × Unmatched entity frame ds
none_found entity frame [] h = (refl, tt)
none_found entity frame (d ∷ ds) h = elim (Bool-cases (acknowledges entity frame d)) [
  | inl hit ↦ absurd (cc (rw hit at h))
  | inr miss ↦
      let (absent, rest) = none_found entity frame ds (rw miss at h) in
      (rw miss absent, (unmatched entity frame d miss, rest))
]

first_found :
    (entity frame : ℕ) (ds : List ClientDestroyState) {found : ClientDestroyState}
    → find (acknowledges entity frame) ds ≡ some found
    → (any (acknowledges entity frame) ds ≡ true)
      × FirstMatch entity frame ds (erase_first (acknowledges entity frame) ds) found
first_found entity frame [] h = absurd (cc)
first_found entity frame (d ∷ ds) {found} h = elim (Bool-cases (acknowledges entity frame d)) [
  | inl hit ↦
      let first_hit : some d ≡ some found = rw hit at h in
      let same : d ≡ found = cc in
      let (own, new) = matched entity frame d hit in
      (
        rw hit refl,
        (
          [],
          ds,
          ap (λ x. x ∷ ds) same,
          rw hit refl,
          tt,
          subst (λ (x : ClientDestroyState). x.entity ≡ entity) same own,
          subst (λ (x : ClientDestroyState). frame ≤ x.frame) same new,
        ),
      )
  | inr miss ↦
      let (present, (before, after, whole, left, early, own, new)) =
        first_found entity frame ds (rw miss at h) in
      (
        rw miss present,
        (
          d ∷ before,
          after,
          ap (λ t. d ∷ t) whole,
          rw miss (ap (λ t. d ∷ t) left),
          (unmatched entity frame d miss, early),
          own,
          new,
        ),
      )
]

-- With a well-formed table of ids, an acknowledgement is taken exactly if a record of it is pending,
-- and the table stays well formed. Taken, it removes the first destruction of the entity that is at
-- least as new as the frame, and frees the network id of that one. Otherwise every destruction of the
-- entity is older, and the queue and the table stay as they are.
pub acknowledge_lem :
    (ds : List ClientDestroyState) (ids : NetworkIds) (entity frame : ℕ)
    → IsValid ids
    → let (taken, rest, ids') = acknowledge ds ids entity frame in
      (taken ≡ contains_ack_record ds entity frame)
      × IsValid ids'
      × (((taken ≡ false) × Unmatched entity frame ds × (rest ≡ ds) × (ids' ≡ ids))
          ⊎ ((taken ≡ true)
              × ((found : ClientDestroyState) × FirstMatch entity frame ds rest found
                  × (ids' ≡ free ids found.network_id))))
unfolding acknowledge contains_ack_record
acknowledge_lem ds ids entity frame v = elim (Option-cases (find (acknowledges entity frame) ds)) [
  | inl e ↦
      let (absent, older) = none_found entity frame ds e in
      rw (acknowledge, e) (sym absent, v, inl (refl, older, refl, refl))
  | inr (found, e) ↦
      let (present, first) = first_found entity frame ds e in
      rw (acknowledge, e)
        (sym present, free-IsValid found.network_id v, inr (refl, (found, first, refl)))
]
