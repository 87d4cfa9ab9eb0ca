-- ===== src/Base/Bytes.antt =====
-- Runs of bytes in a vector: what `memcpy` reads and writes.
use Prim.Native.Nat.{ℕ, zero, suc, ◌+◌, ◌≤◌, ◌<◌}
use mathlib.Core.Path.{◌≡◌, refl, ap, ap₂, ◌∙◌}
use mathlib.Core.Logic.{◌≢◌, ◌⊎◌, inl, inr}
use mathlib.Core.List.{List, [], ◌∷◌, ◌++◌}
use native.Mathlib.Omega.{arith}
use ashiato_sync.Base.Lists.{length, get_or, set, replicate, length-set}

-- The `count` bytes from `offset` on.
abbrev pub slice : (offset count : ℕ) → List ℕ → List ℕ
slice offset zero bytes = []
slice offset (suc count) bytes = get_or bytes offset 0 ∷ slice (offset + 1) count bytes

-- The vector with the bytes `source` written from `offset` on.
abbrev pub splice : (offset : ℕ) → (source : List ℕ) → List ℕ → List ℕ
splice offset [] bytes = bytes
splice offset (x ∷ source) bytes = splice (offset + 1) source (set bytes offset x)

module _ {ℓ} {A : Type ℓ} where
  pub get_or-set_self :
      (xs : List A) (i : ℕ) (v d : A) → i < length xs → get_or (set xs i v) i d ≡ v
  get_or-set_self [] i v d h = absurd (omega arith)
  get_or-set_self (x ∷ xs) zero v d h = refl
  get_or-set_self (x ∷ xs) (suc i) v d h = get_or-set_self xs i v d (omega arith)

  pub get_or-set_ne :
      (xs : List A) (i j : ℕ) (v d : A) → i ≢ j → get_or (set xs i v) j d ≡ get_or xs j d
  get_or-set_ne [] i j v d h = refl
  get_or-set_ne (x ∷ xs) zero zero v d h = absurd (h refl)
  get_or-set_ne (x ∷ xs) zero (suc j) v d h = refl
  get_or-set_ne (x ∷ xs) (suc i) zero v d h = refl
  get_or-set_ne (x ∷ xs) (suc i) (suc j) v d h = get_or-set_ne xs i j v d (λ e. h (ap suc e))

pub length-slice : (offset count : ℕ) (bytes : List ℕ) → length (slice offset count bytes) ≡ count
length-slice offset zero bytes = refl
length-slice offset (suc count) bytes = ap suc (length-slice (offset + 1) count bytes)

pub length-splice :
    (offset : ℕ) (source bytes : List ℕ) → length (splice offset source bytes) ≡ length bytes
length-splice offset [] bytes = refl
length-splice offset (x ∷ source) bytes =
    length-splice (offset + 1) source (set bytes offset x) ∙ length-set bytes offset x

-- A write keeps the bytes outside of it.
pub splice_outside :
    (offset : ℕ) (source bytes : List ℕ) (i : ℕ)
    → (i < offset) ⊎ (offset + length source ≤ i)
    → get_or (splice offset source bytes) i 0 ≡ get_or bytes i 0
splice_outside offset [] bytes i h = refl
splice_outside offset (x ∷ source) bytes i h =
    splice_outside (offset + 1) source (set bytes offset x) i
      (elim h [ inl before ↦ inl (omega arith) | inr after ↦ inr (omega arith) ])
    ∙ get_or-set_ne bytes offset i x 0
        (elim h [ inl before ↦ λ e. absurd (omega arith) | inr after ↦ λ e. absurd (omega arith) ])

-- What was written is read.
pub slice-splice :
    (offset : ℕ) (source bytes : List ℕ)
    → offset + length source ≤ length bytes
    → slice offset (length source) (splice offset source bytes) ≡ source
slice-splice offset [] bytes h = refl
slice-splice offset (x ∷ source) bytes h =
    ap₂ (λ (y : ℕ) (ys : List ℕ). y ∷ ys)
      (splice_outside (offset + 1) source (set bytes offset x) offset (inl (omega arith))
        ∙ get_or-set_self bytes offset x 0 (omega arith))
      (slice-splice (offset + 1) source (set bytes offset x)
        (omega (arith, length-set bytes offset x)))

-- Two vectors that agree from `from` to `to`.
abbrev pub Agree : (from to : ℕ) → (bytes others : List ℕ) → Type 0
Agree from to bytes others = (i : ℕ) → from ≤ i → i < to → get_or bytes i 0 ≡ get_or others i 0

pub slice_cong :
    (offset count : ℕ) (bytes others : List ℕ)
    → Agree offset (offset + count) bytes others
    → slice offset count bytes ≡ slice offset count others
slice_cong offset zero bytes others h = refl
slice_cong offset (suc count) bytes others h =
    ap₂ (λ (y : ℕ) (ys : List ℕ). y ∷ ys) (h offset (omega arith) (omega arith))
      (slice_cong (offset + 1) count bytes others (λ i from to. h i (omega arith) (omega arith)))

-- A run that a write does not touch.
pub slice-splice_apart :
    (offset : ℕ) (source bytes : List ℕ) (other count : ℕ)
    → (other + count ≤ offset) ⊎ (offset + length source ≤ other)
    → slice other count (splice offset source bytes) ≡ slice other count bytes
slice-splice_apart offset source bytes other count h =
    slice_cong other count (splice offset source bytes) bytes (λ i from to.
      splice_outside offset source bytes i
        (elim h [ inl before ↦ inl (omega arith) | inr after ↦ inr (omega arith) ]))

pub slice-append :
    (offset first second : ℕ) (bytes : List ℕ)
    → slice offset (first + second) bytes
      ≡ slice offset first bytes ++ slice (offset + first) second bytes
slice-append offset zero second bytes = ap₂ (λ n m. slice n m bytes) (omega arith) (omega arith)
slice-append offset (suc first) second bytes =
    ap (λ n. slice offset n bytes) shift
    ∙ ap (λ (r : List ℕ). get_or bytes offset 0 ∷ r)
        (slice-append (offset + 1) first second bytes
          ∙ ap (λ n. slice (offset + 1) first bytes ++ slice n second bytes) (omega arith))
  where
    shift : suc first + second ≡ suc (first + second)
    shift = omega arith

get_or-replicate_zero : (size i : ℕ) → get_or {A = ℕ} (replicate size 0) i 0 ≡ 0
get_or-replicate_zero zero i = refl
get_or-replicate_zero (suc size) zero = refl
get_or-replicate_zero (suc size) (suc i) = get_or-replicate_zero size i

pub slice-replicate_zero :
    (offset count size : ℕ) → slice offset count (replicate size 0) ≡ replicate count 0
slice-replicate_zero offset zero size = refl
slice-replicate_zero offset (suc count) size =
    ap₂ (λ (y : ℕ) (ys : List ℕ). y ∷ ys) (get_or-replicate_zero size offset)
      (slice-replicate_zero (offset + 1) count size)
