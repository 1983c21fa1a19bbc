-- ===== src/Pack/Delta/Window.antt =====
-- The sliding window of `findBestDeltas` of src/lib/pack/delta.ts follows the objects.
use just_git.Base.{
  ℕ, zero, suc, ◌+◌, ◌-◌, ◌≤◌, ◌<◌, ◌≡◌, refl, ap, ◌∙◌, min, false, Option, some, List, [], ◌∷◌,
  ◌++◌, length, drop, get_elem?, leb, ◌==◌, arith, Bool-cases, inl, inr, ==_iff, leb→le,
  length-append, length-drop,
}
use just_git.Pack.Delta.Match.{DeltaIndex}
use just_git.Pack.Delta.Index.{create_delta_index}
use just_git.Pack.Delta.Search.{DeltaObject, index_at, slide}
use just_git.Pack.Delta.Best.{not_le, IsWindow}

index_at-append :
    (xs : List (Option DeltaIndex)) (x : Option DeltaIndex) (n : ℕ)
    → n ≡ length xs
    → index_at (xs ++ (x ∷ [])) n ≡ x
unfolding index_at
index_at-append [] x zero h = refl
index_at-append [] x (suc n) h = absurd (omega arith)
index_at-append (y ∷ xs) x zero h = absurd (omega arith)
index_at-append (y ∷ xs) x (suc n) h = index_at-append xs x n (omega arith)

index_at-append_lt :
    (xs : List (Option DeltaIndex)) (x : Option DeltaIndex) (n : ℕ)
    → n < length xs
    → index_at (xs ++ (x ∷ [])) n ≡ index_at xs n
unfolding index_at
index_at-append_lt [] x n h = absurd (omega arith)
index_at-append_lt (y ∷ xs) x zero h = refl
index_at-append_lt (y ∷ xs) x (suc n) h = index_at-append_lt xs x n (omega arith)

index_at-drop :
    (xs : List (Option DeltaIndex)) (n : ℕ) → index_at (drop 1 xs) n ≡ index_at xs (suc n)
unfolding index_at
index_at-drop [] n = refl
index_at-drop (x ∷ xs) n = refl

pub length-slide :
    (window i : ℕ) (indices : List (Option DeltaIndex)) (x : Option DeltaIndex)
    → 0 < window
    → length indices ≡ min i window
    → length (slide window indices x) ≡ min (i + 1) window
unfolding slide
length-slide window i indices x p h = elim (Bool-cases (leb window (length indices))) [
  | inl k ↦ rw k (
      omega (
        arith,
        leb→le window (length indices) k,
        length-append (drop 1 indices) (x ∷ []),
        length-drop 1 indices,
      ))
  | inr k ↦ rw k (omega (arith, not_le window (length indices) k, length-append indices (x ∷ [])))
]

unequal : (a b : ℕ) → (a == b) ≡ false → a ≤ b → a < b
unequal a b h l = ground arith

pub drop_head {ℓ} :
    {A : Type ℓ} (n : ℕ) (xs : List A) (x : A) (rest : List A)
    → drop n xs ≡ x ∷ rest
    → get_elem? xs n ≡ some x
drop_head zero [] x rest e = cc
drop_head zero (y ∷ xs) x rest e = cc
drop_head (suc n) [] x rest e = cc
drop_head (suc n) (y ∷ xs) x rest e = drop_head n xs x rest e

pub drop_tail {ℓ} :
    {A : Type ℓ} (n : ℕ) (xs : List A) (x : A) (rest : List A)
    → drop n xs ≡ x ∷ rest
    → drop (n + 1) xs ≡ rest
drop_tail {A} n xs x rest e =
    let s : n + 1 ≡ suc n = omega arith in ap (λ m. drop m xs) s ∙ by_tail n xs e
  where
    by_tail : (n : ℕ) (ys : List A) → drop n ys ≡ x ∷ rest → drop (suc n) ys ≡ rest
    by_tail zero [] e = cc
    by_tail zero (y ∷ ys) e = cc
    by_tail (suc n) [] e = cc
    by_tail (suc n) (y ∷ ys) e = by_tail n ys e

module _ (sorted : List DeltaObject) where
  pub slide-IsWindow :
      (window i : ℕ) (indices : List (Option DeltaIndex)) (obj : DeltaObject)
      → get_elem? sorted i ≡ some obj
      → (0 < window → length indices ≡ min i window)
      → IsWindow sorted (i - window) (i - (i - window)) indices
      → IsWindow sorted
          (i + 1 - window)
          (i + 1 - (i + 1 - window))
          (slide window indices (create_delta_index obj.content))
  unfolding slide
  slide-IsWindow window i indices obj here len w n c lt at =
      let count = len (omega arith) in
      elim (Bool-cases (leb window (length indices))) [
        | inl k ↦ rw k (full (leb→le window (length indices) k) count)
        | inr k ↦ rw k (growing (not_le window (length indices) k) count)
      ]
    where
      at_pos : (m : ℕ) → i + 1 - window + n ≡ m → get_elem? sorted m ≡ some c
      at_pos m e = rw (← e) at

      newest :
          i + 1 - window + n ≡ i → create_delta_index obj.content ≡ create_delta_index c.content
      newest e = cc (here, at_pos i e)

      full :
          window ≤ length indices
          → length indices ≡ min i window
          → index_at (drop 1 indices ++ (create_delta_index obj.content ∷ [])) n
            ≡ create_delta_index c.content
      full g count = elim (Bool-cases (n == window - 1)) [
        | inl k ↦
            let e : n ≡ window - 1 = (==_iff n (window - 1)).0 k in
            index_at-append (drop 1 indices) (create_delta_index obj.content) n
              (omega (arith, length-drop 1 indices))
            ∙ newest (omega arith)
        | inr k ↦
            let e : n < window - 1 = unequal n (window - 1) k (omega arith) in
            index_at-append_lt (drop 1 indices) (create_delta_index obj.content) n
              (omega (arith, length-drop 1 indices))
            ∙ index_at-drop indices n
            ∙ w (suc n) c (omega arith) (at_pos (i - window + suc n) (omega arith))
      ]

      growing :
          length indices < window
          → length indices ≡ min i window
          → index_at (indices ++ (create_delta_index obj.content ∷ [])) n
            ≡ create_delta_index c.content
      growing g count = elim (Bool-cases (n == i)) [
        | inl k ↦
            let e : n ≡ i = (==_iff n i).0 k in
            index_at-append indices (create_delta_index obj.content) n (omega arith)
            ∙ newest (omega arith)
        | inr k ↦
            let e : n < i = unequal n i k (omega arith) in
            index_at-append_lt indices (create_delta_index obj.content) n (omega arith)
            ∙ w n c (omega arith) (at_pos (i - window + n) (omega arith))
      ]
