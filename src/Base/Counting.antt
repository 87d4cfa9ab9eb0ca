-- ===== src/Base/Counting.antt =====
-- How often a list of indices holds one.
use Prim.Native.Nat.{ℕ, ◌+◌, ◌≤◌}
use mathlib.Core.Path.{◌≡◌}
use mathlib.Core.Logic.{◌≢◌}
use mathlib.Core.List.{List, [], ◌∷◌, ◌++◌}
use native.Mathlib.Omega.{arith}
use ashiato_sync.Base.Tests.{◌==◌, if◌then◌else◌}
use ashiato_sync.Base.Lists.{length}

-- How often a list holds a number.
abbrev pub count : ℕ → List ℕ → ℕ
count q [] = 0
count q (r ∷ rs) = (if r == q then 1 else 0) + count q rs

pub count-append : (q : ℕ) (rs ts : List ℕ) → count q (rs ++ ts) ≡ count q rs + count q ts
count-append q [] ts = omega arith
count-append q (r ∷ rs) ts = ground (arith, count-append q rs ts)

pub count-le-length : (q : ℕ) (rs : List ℕ) → count q rs ≤ length rs
count-le-length q [] = omega arith
count-le-length q (r ∷ rs) = ground (arith, count-le-length q rs)

pub count-cons_ne : (q p : ℕ) (refs : List ℕ) → p ≢ q → count p (q ∷ refs) ≡ count p refs
count-cons_ne q p refs ne = ground arith

pub count-cons_self : (q : ℕ) (refs : List ℕ) → count q (q ∷ refs) ≡ count q refs + 1
count-cons_self q refs = ground arith
