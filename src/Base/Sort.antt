-- ===== src/Base/Sort.antt =====
-- `Array.prototype.sort`: the stable sort, by insertion. `before a b` is `compare(a, b) < 0`.
use Prim.Native.Nat.{compare, Ordering}
use mathlib.Core.Path.{◌≡◌, refl}
use native.Mathlib.Omega.{arith}
use mathlib.Core.Bool.{Bool, true, false}
use mathlib.Core.List.{List, [], ◌∷◌}
use just_git.Base.Tests.{if◌then◌else◌, Bool-cases}
use mathlib.Core.Logic.{inl, inr}
use mathlib.Core.Option.{some}
use just_git.Base.Lists.{All, find}
use just_git.Base.Strings.{Text}

module _ {ℓ} {A : Type ℓ} (before : A → A → Bool) where
  unfoldable pub insert : A → List A → List A
  insert x [] = x ∷ []
  insert x (y ∷ ys) = let rest = insert x ys in if before y x then y ∷ rest else x ∷ y ∷ ys

  unfoldable pub sort_by : List A → List A
  unfolding insert
  sort_by [] = []
  sort_by (x ∷ xs) = insert x (sort_by xs)

  pub All-insert {κ} : (P : A → Type κ) (x : A) (ys : List A) → P x → All P ys → All P (insert x ys)
  unfolding insert
  All-insert P x [] h a = (h, tt)
  All-insert P x (y ∷ ys) h a = elim (Bool-cases (before y x)) [
    | inl e ↦ rw e (a.0, All-insert P x ys h a.1)
    | inr e ↦ rw e (h, a)
  ]

  -- Whatever holds of every element holds after the sort.
  pub All-sort_by {κ} : (P : A → Type κ) (xs : List A) → All P xs → All P (sort_by xs)
  unfolding sort_by
  All-sort_by P [] h = tt
  All-sort_by P (x ∷ xs) h = All-insert P x (sort_by xs) h.0 (All-sort_by P xs h.1)

-- `a < b` on strings: by code units.
unfoldable pub text_lt : Text → Text → Bool
text_lt [] [] = false
text_lt [] (y ∷ ys) = true
text_lt (x ∷ xs) [] = false
text_lt (x ∷ xs) (y ∷ ys) =
    let rest = text_lt xs ys in
    elim (compare x y) [ Ordering.lt ↦ true | Ordering.eq ↦ rest | Ordering.gt ↦ false ]

-- `texts.sort()`
unfoldable pub sort_texts : List Text → List Text
unfolding sort_by text_lt
sort_texts = sort_by text_lt

pub text_lt_irrefl : (a : Text) → text_lt a a ≡ false
unfolding text_lt
text_lt_irrefl [] = refl
text_lt_irrefl (x ∷ a) = ground (arith, text_lt_irrefl a)

-- Sorting does not change which element a test finds first, if the test accepts only elements that
-- the order does not tell apart.
module _ {ℓ} {A : Type ℓ} (before : A → A → Bool) (test : A → Bool)
    (alike : (x y : A) → test x ≡ true → test y ≡ true → before y x ≡ false) where
  find-insert :
      (x : A) (ys : List A)
      → find test (insert before x ys) ≡ (if test x then some x else find test ys)
  unfolding find insert
  find-insert x [] = refl
  find-insert x (y ∷ ys) = elim (Bool-cases (before y x)) [
    | inr e ↦ rw e
    | inl e ↦ elim (Bool-cases (test x)) [
      | inl t ↦ elim (Bool-cases (test y)) [
        | inl u ↦ cc (alike x y t u, e)
        | inr u ↦ rw (e, u, find-insert x ys)
      ]
      | inr t ↦ rw (e, find-insert x ys, t)
    ]
  ]

  pub find-sort_by : (xs : List A) → find test (sort_by before xs) ≡ find test xs
  unfolding find sort_by
  find-sort_by [] = refl
  find-sort_by (x ∷ xs) = rw (find-insert x (sort_by before xs), find-sort_by xs)
