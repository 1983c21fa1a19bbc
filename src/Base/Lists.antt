-- ===== src/Base/Lists.antt =====
-- Lists measured, cut and searched by native numbers, under the library's names.
use Prim.Native.Nat.{ℕ, zero, suc, ◌+◌, ◌-◌, ◌≤◌, min}
use mathlib.Core.Path.{◌≡◌, refl, ap}
use mathlib.Core.List.{List, [], ◌∷◌, ◌++◌}
use mathlib.Core.Option.{Option, none, some}
use mathlib.Core.Bool.{Bool, true, false, ◌||◌}
use mathlib.Core.Logic.{◌⊎◌, inl, inr}
use just_git.Base.Tests.{if◌then◌else◌, is_some, Bool-cases}
use native.Mathlib.Omega.{arith}

module _ {ℓ} {A : Type ℓ} where
  abbrev pub length : List A → ℕ
  length [] = 0
  length (x ∷ xs) = suc (length xs)

  abbrev pub get_elem? : List A → ℕ → Option A
  get_elem? [] i = none
  get_elem? (x ∷ xs) zero = some x
  get_elem? (x ∷ xs) (suc i) = get_elem? xs i

  abbrev pub take : ℕ → List A → List A
  take zero xs = []
  take (suc n) [] = []
  take (suc n) (x ∷ xs) = x ∷ take n xs

  abbrev pub drop : ℕ → List A → List A
  drop zero xs = xs
  drop (suc n) [] = []
  drop (suc n) (x ∷ xs) = drop n xs

  -- A predicate of every element.
  abbrev pub All {κ} : (A → Type κ) → List A → Type κ
  All P [] = Unit {κ}
  All P (x ∷ xs) = P x × All P xs

module _ {ℓ} {A : Type ℓ} where
  pub length-append : (xs ys : List A) → length (xs ++ ys) ≡ length xs + length ys
  length-append [] ys = omega arith
  length-append (x ∷ xs) ys = omega (arith, length-append xs ys)

  pub take-append-drop : (n : ℕ) (xs : List A) → take n xs ++ drop n xs ≡ xs
  take-append-drop zero xs = refl
  take-append-drop (suc n) [] = refl
  take-append-drop (suc n) (x ∷ xs) = rw (take-append-drop n xs)

  pub length-take : (n : ℕ) (xs : List A) → length (take n xs) ≡ min n (length xs)
  length-take zero xs = omega arith
  length-take (suc n) [] = omega arith
  length-take (suc n) (x ∷ xs) = omega (arith, length-take n xs)

  pub length-drop : (n : ℕ) (xs : List A) → length (drop n xs) ≡ length xs - n
  length-drop zero xs = omega arith
  length-drop (suc n) [] = omega arith
  length-drop (suc n) (x ∷ xs) = omega (arith, length-drop n xs)

  pub take_append : (xs ys : List A) (n : ℕ) → n ≡ length xs → take n (xs ++ ys) ≡ xs
  take_append [] ys zero e = refl
  take_append [] ys (suc n) e = absurd (omega arith)
  take_append (x ∷ xs) ys zero e = absurd (omega arith)
  take_append (x ∷ xs) ys (suc n) e = ap (λ l. x ∷ l) (take_append xs ys n (omega arith))

  pub drop_append : (xs ys : List A) (n : ℕ) → n ≡ length xs → drop n (xs ++ ys) ≡ ys
  drop_append [] ys zero e = refl
  drop_append [] ys (suc n) e = absurd (omega arith)
  drop_append (x ∷ xs) ys zero e = absurd (omega arith)
  drop_append (x ∷ xs) ys (suc n) e = drop_append xs ys n (omega arith)

  pub All-append {κ} : (P : A → Type κ) (xs ys : List A) → All P xs → All P ys → All P (xs ++ ys)
  All-append P [] ys hx hy = hy
  All-append P (x ∷ xs) ys hx hy = (hx.0, All-append P xs ys hx.1 hy)

module _ {ℓ} {A : Type ℓ} where
  -- `xs.filter(test)`, `xs.find(test)` and `xs.some(test)`
  unfoldable pub filter : (A → Bool) → List A → List A
  filter test [] = []
  filter test (x ∷ xs) = let rest = filter test xs in if test x then x ∷ rest else rest

  unfoldable pub find : (A → Bool) → List A → Option A
  find test [] = none
  find test (x ∷ xs) = if test x then some x else find test xs

  unfoldable pub some_of : (A → Bool) → List A → Bool
  some_of test [] = false
  some_of test (x ∷ xs) = test x || some_of test xs

module _ {ℓ} {A : Type ℓ} where
  pub find-append :
      (test : A → Bool) (xs ys : List A)
      → find test (xs ++ ys) ≡ (if is_some (find test xs) then find test xs else find test ys)
  unfolding find
  find-append test [] ys = refl
  find-append test (x ∷ xs) ys = elim (Bool-cases (test x)) [
    | inl e ↦ rw e
    | inr e ↦ rw e (find-append test xs ys)
  ]

  -- A filter that keeps what the test accepts does not change what is found.
  pub find-filter :
      (test keep : A → Bool) (xs : List A)
      → ((x : A) → test x ≡ true → keep x ≡ true)
      → find test (filter keep xs) ≡ find test xs
  unfolding find filter
  find-filter test keep [] h = refl
  find-filter test keep (x ∷ xs) h = elim (Bool-cases (keep x)) [
    | inl k ↦ rw k (by_test (find-filter test keep xs h) (Bool-cases (test x)))
    | inr k ↦ rw (k, dropped k) (find-filter test keep xs h)
  ]
    where
      dropped : keep x ≡ false → test x ≡ false
      dropped k = elim (Bool-cases (test x)) [ inl t ↦ cc (h x t, k) | inr t ↦ t ]

      by_test :
          find test (filter keep xs) ≡ find test xs
          → (test x ≡ true) ⊎ (test x ≡ false)
          → (if test x then some x else find test (filter keep xs))
            ≡ (if test x then some x else find test xs)
      by_test ih (inl t) = rw t
      by_test ih (inr t) = rw t ih

  -- A filter that drops all that the test accepts leaves nothing to find.
  pub find-filter-none :
      (test keep : A → Bool) (xs : List A)
      → ((x : A) → test x ≡ true → keep x ≡ false)
      → find test (filter keep xs) ≡ none
  unfolding find filter
  find-filter-none test keep [] h = refl
  find-filter-none test keep (x ∷ xs) h = elim (Bool-cases (keep x)) [
    | inl k ↦ rw (k, kept k) (find-filter-none test keep xs h)
    | inr k ↦ rw k (find-filter-none test keep xs h)
  ]
    where
      kept : keep x ≡ true → test x ≡ false
      kept k = elim (Bool-cases (test x)) [ inl t ↦ cc (h x t, k) | inr t ↦ t ]

module _ {ℓ} {A : Type ℓ} where
  pub take-append_le : (n : ℕ) (xs ys : List A) → n ≤ length xs → take n (xs ++ ys) ≡ take n xs
  take-append_le zero xs ys h = refl
  take-append_le (suc n) [] ys h = absurd (omega arith)
  take-append_le (suc n) (x ∷ xs) ys h = ap (λ l. x ∷ l) (take-append_le n xs ys (omega arith))

  pub drop-append_le :
      (n : ℕ) (xs ys : List A) → n ≤ length xs → drop n (xs ++ ys) ≡ drop n xs ++ ys
  drop-append_le zero xs ys h = refl
  drop-append_le (suc n) [] ys h = absurd (omega arith)
  drop-append_le (suc n) (x ∷ xs) ys h = drop-append_le n xs ys (omega arith)
