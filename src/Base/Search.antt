-- ===== src/Base/Search.antt =====
-- `s.indexOf(c)` for one code unit, `s.indexOf(t)` for a text that is not empty, and `s.trimEnd()`.
use Prim.Native.Nat.{ℕ, suc, ◌+◌}
use mathlib.Core.Path.{◌≡◌}
use mathlib.Core.Bool.{false}
use mathlib.Core.Option.{Option, none, some}
use mathlib.Core.List.{[], ◌∷◌, ◌++◌}
use native.Mathlib.Omega.{arith}
use just_git.Base.Tests.{◌==◌, if◌then◌else◌}
use just_git.Base.Lists.{length}
use just_git.Base.Strings.{Text, includes_unit, starts_with}

unfoldable pub index_of : ℕ → Text → Option ℕ
index_of c [] = none
index_of c (x ∷ s) =
    if x == c
    then some 0
    else elim (index_of c s) as (λ _. Option ℕ) [ none ↦ none | some i ↦ some (suc i) ]

unfoldable pub index_of_text : Text → Text → Option ℕ
index_of_text t [] = none
index_of_text t (x ∷ s) =
    if starts_with (x ∷ s) t
    then some 0
    else elim (index_of_text t s) as (λ _. Option ℕ) [ none ↦ none | some i ↦ some (suc i) ]

pub index_of-append :
    (c : ℕ) (a b : Text) → includes_unit c a ≡ false → index_of c (a ++ (c ∷ b)) ≡ some (length a)
unfolding index_of includes_unit
index_of-append c [] b h = ground arith
index_of-append c (x ∷ a) b h = ground (arith, index_of-append c a b)

-- Nothing of a pair of a unit is found before its first place.
pub index_of_text-skip :
    (c n : ℕ) (p s : Text)
    → includes_unit c p ≡ false
    → index_of_text (c ∷ c ∷ []) s ≡ some n
    → index_of_text (c ∷ c ∷ []) (p ++ s) ≡ some (length p + n)
unfolding index_of_text includes_unit starts_with
index_of_text-skip c n [] s h e = ground (arith, e)
index_of_text-skip c n (x ∷ p) s h e = ground (arith, h, index_of_text-skip c n p s)

pub index_of_text-single :
    (c n y : ℕ) (s : Text)
    → (y == c) ≡ false
    → index_of_text (c ∷ c ∷ []) (y ∷ s) ≡ some n
    → index_of_text (c ∷ c ∷ []) (c ∷ y ∷ s) ≡ some (suc n)
unfolding index_of_text starts_with
index_of_text-single c n y s h e = ground (arith, h, e)
