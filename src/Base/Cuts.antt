-- ===== src/Base/Cuts.antt =====
-- Lists cut at a position, and reversed.
use Prim.Native.Nat.{ℕ, zero, suc, ◌+◌, ◌-◌, ◌≤◌, ◌<◌, min}
use mathlib.Core.Path.{◌≡◌, refl, sym, ap, ◌∙◌}
use mathlib.Core.List.{List, [], ◌∷◌, ◌++◌, reverse, reverse-cons, reverse-append}
use mathlib.Core.Option.{some}
use just_git.Base.Tests.{ltb, if◌then◌else◌}
use just_git.Base.Lists.{length, get_elem?, take, drop, length-append}
use native.Mathlib.Omega.{arith}

-- An index of `subarray` and `slice`: a negative one counts from the end. `back` is what it is below zero.
unfoldable pub clamp_index : ℕ → ℕ → ℕ → ℕ
clamp_index size up back = if ltb up back then size - (back - up) else min (up - back) size

module _ {ℓ} {A : Type ℓ} where
  pub take_next :
      (n : ℕ) (xs : List A) (x : A)
      → get_elem? xs n ≡ some x
      → take (suc n) xs ≡ take n xs ++ (x ∷ [])
  take_next n [] x e = cc
  take_next zero (y ∷ xs) x e = cc
  take_next (suc n) (y ∷ xs) x e = ap (λ l. y ∷ l) (take_next n xs x e)

  pub drop_next :
      (n : ℕ) (xs : List A) (x : A) → get_elem? xs n ≡ some x → drop n xs ≡ x ∷ drop (suc n) xs
  drop_next n [] x e = cc
  drop_next zero (y ∷ xs) x e = cc
  drop_next (suc n) (y ∷ xs) x e = drop_next n xs x e

  pub get_elem?-some : (n : ℕ) (xs : List A) → n < length xs → (x : A) × (get_elem? xs n ≡ some x)
  get_elem?-some n [] h = absurd (omega arith)
  get_elem?-some zero (x ∷ xs) h = (x, refl)
  get_elem?-some (suc n) (x ∷ xs) h = get_elem?-some n xs (omega arith)

  pub reverse-take_next :
      (n : ℕ) (xs : List A) (x : A)
      → get_elem? xs n ≡ some x
      → reverse (take (suc n) xs) ≡ x ∷ reverse (take n xs)
  reverse-take_next n xs x e = ap reverse (take_next n xs x e) ∙ reverse-append (take n xs) (x ∷ [])

  pub take_zero : (n : ℕ) → take {A = A} n [] ≡ []
  take_zero zero = refl
  take_zero (suc n) = refl

  pub drop_zero : (n : ℕ) → drop {A = A} n [] ≡ []
  drop_zero zero = refl
  drop_zero (suc n) = refl

  pub take_add : (m n k : ℕ) (xs : List A) → k ≡ m + n → take k xs ≡ take m xs ++ take n (drop m xs)
  take_add zero n k xs h = let e : k ≡ n = omega arith in ap (λ i. take i xs) e
  take_add (suc m) n zero xs h = absurd (omega arith)
  take_add (suc m) n (suc k) [] h = sym (take_zero n)
  take_add (suc m) n (suc k) (x ∷ xs) h = ap (λ l. x ∷ l) (take_add m n k xs (omega arith))

  pub drop-take : (m n k : ℕ) (xs : List A) → k ≡ m + n → drop m (take k xs) ≡ take n (drop m xs)
  drop-take zero n k xs h = let e : k ≡ n = omega arith in ap (λ i. take i xs) e
  drop-take (suc m) n zero xs h = absurd (omega arith)
  drop-take (suc m) n (suc k) [] h = sym (take_zero n)
  drop-take (suc m) n (suc k) (x ∷ xs) h = drop-take m n k xs (omega arith)

  pub take-take : (m k : ℕ) (xs : List A) → m ≤ k → take m (take k xs) ≡ take m xs
  take-take zero k xs h = refl
  take-take (suc m) zero xs h = absurd (omega arith)
  take-take (suc m) (suc k) [] h = refl
  take-take (suc m) (suc k) (x ∷ xs) h = ap (λ l. x ∷ l) (take-take m k xs (omega arith))

  pub drop-drop : (m n k : ℕ) (xs : List A) → k ≡ m + n → drop n (drop m xs) ≡ drop k xs
  drop-drop zero n k xs h = let e : n ≡ k = omega arith in ap (λ i. drop i xs) e
  drop-drop (suc m) n zero xs h = absurd (omega arith)
  drop-drop (suc m) n (suc k) [] h = drop_zero n
  drop-drop (suc m) n (suc k) (x ∷ xs) h = drop-drop m n k xs (omega arith)

  pub length-reverse : (xs : List A) → length (reverse xs) ≡ length xs
  length-reverse [] = refl
  length-reverse (x ∷ xs) =
      ap length (reverse-cons x xs)
      ∙ omega (arith, length-append (reverse xs) (x ∷ []), length-reverse xs)

  pub take_all : (n : ℕ) (xs : List A) → n ≡ length xs → take n xs ≡ xs
  take_all zero [] h = refl
  take_all (suc n) [] h = absurd (omega arith)
  take_all zero (x ∷ xs) h = absurd (omega arith)
  take_all (suc n) (x ∷ xs) h = ap (λ l. x ∷ l) (take_all n xs (omega arith))
