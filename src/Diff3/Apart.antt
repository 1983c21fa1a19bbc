-- ===== src/Diff3/Apart.antt =====
-- Proofs about the differences of two texts, `diffIndices` of src/lib/diff3.ts: kept lines stand between them.
use just_git.Base.{
  ℕ, zero, suc, ◌+◌, ◌≤◌, ◌<◌, ◌≡◌, refl, sym, ◌∙◌, Bool, true, false, ◌||◌, Option, none, some,
  List, [], ◌∷◌, ltb, if◌then◌else◌, arith, Bool-cases, inl, inr, ◌⊎◌,
}
use just_git.Diff3.Indices.{
  Lines, Flags, DiffIndex, skip_matched, skip_changed, are_ended, diff_indices_from,
}
use just_git.Diff3.Sides.{IsDiff, Passed, skip_matched-Passed, Skipped, skip_changed-Skipped}
use just_git.Diff3.Progress.{both_kept}

-- Every difference starts behind `end`, with a line between it and the difference before.
abbrev pub Apart : ℕ → List DiffIndex → Type 0
Apart end [] = Unit
Apart end (d ∷ ds) = (end < d.start_1) × Apart (d.start_1 + d.length_1) ds

-- The first difference may start the text.
abbrev pub Separate : List DiffIndex → Type 0
Separate [] = Unit
Separate (d ∷ ds) = Apart (d.start_1 + d.length_1) ds

abbrev ApartIn : ℕ → Option (List DiffIndex) → Type 0
ApartIn end none = Unit
ApartIn end (some ds) = Apart end ds

abbrev pub SeparateIn : Option (List DiffIndex) → Type 0
SeparateIn none = Unit
SeparateIn (some ds) = Separate ds

-- Behind the changed lines there is a kept line of both texts, or the end of both.
abbrev settled : Flags → Flags → Bool
settled fa fb = are_ended fa fb || both_kept fa fb

skip_changed-settled :
    (fa fb : Flags) (xs ys : Lines)
    → IsDiff xs ys ((skip_changed fa).1, (skip_changed fb).1)
    → settled (skip_changed fa).1 (skip_changed fb).1 ≡ true
unfolding skip_changed are_ended both_kept
skip_changed-settled (true ∷ fa) fb xs ys d = skip_changed-settled fa fb xs ys d
skip_changed-settled [] (true ∷ fb) xs ys d = skip_changed-settled [] fb xs ys d
skip_changed-settled [] [] xs ys d = refl
skip_changed-settled [] (false ∷ fb) xs [] d = absurd (omega (arith, d.new_flags))
skip_changed-settled [] (false ∷ fb) xs (y ∷ ys) d = cc (d.same_kept)
skip_changed-settled (false ∷ fa) [] [] ys d = absurd (omega (arith, d.old_flags))
skip_changed-settled (false ∷ fa) [] (x ∷ xs) ys d = cc (d.same_kept)
skip_changed-settled (false ∷ fa) (true ∷ fb) xs ys d = skip_changed-settled (false ∷ fa) fb xs ys d
skip_changed-settled (false ∷ fa) (false ∷ fb) xs ys d = refl

-- A round from a settled place passes a kept line, unless the texts have ended.
settled_steps :
    (fa fb : Flags)
    → settled fa fb ≡ true
    → (are_ended (skip_matched fa fb).1 (skip_matched fa fb).2 ≡ true)
      ⊎ (0 < (skip_matched fa fb).0)
unfolding skip_matched are_ended both_kept
settled_steps [] [] e = inl refl
settled_steps [] (y ∷ fb) e = cc
settled_steps (true ∷ fa) fb e = cc
settled_steps (false ∷ fa) [] e = cc
settled_steps (false ∷ fa) (true ∷ fb) e = cc
settled_steps (false ∷ fa) (false ∷ fb) e = inr (omega arith)

-- What a round makes of the differences that follow.
abbrev pub round : Bool → Bool → DiffIndex → Option (List DiffIndex) → Option (List DiffIndex)
round ended moved index more = elim ended as (λ _. Option (List DiffIndex)) [
  | true ↦ some []
  | false ↦ elim more as (λ _. Option (List DiffIndex)) [
    | none ↦ none
    | some rest ↦ some (if moved then index ∷ rest else rest)
  ]
]

Apart-weaken : (m n : ℕ) (ds : List DiffIndex) → m ≤ n → Apart n ds → Apart m ds
Apart-weaken m n [] h a = tt
Apart-weaken m n (d ∷ ds) h a = (omega (arith, a.0), a.1)

round-ApartIn :
    (end : ℕ) (ended moved : Bool) (index : DiffIndex) (more : Option (List DiffIndex))
    → (ended ≡ true) ⊎ (end < index.start_1)
    → ApartIn (index.start_1 + index.length_1) more
    → ApartIn end (round ended moved index more)
round-ApartIn end true moved index more s a = tt
round-ApartIn end false moved index none s a = tt
round-ApartIn end false moved index (some rest) (inl e) a = cc
round-ApartIn end false true index (some rest) (inr h) a = (h, a)
round-ApartIn end false false index (some rest) (inr h) a =
    Apart-weaken end (index.start_1 + index.length_1) rest (omega arith) a

round-SeparateIn :
    (ended moved : Bool) (index : DiffIndex) (more : Option (List DiffIndex))
    → ApartIn (index.start_1 + index.length_1) more
    → SeparateIn (round ended moved index more)
round-SeparateIn true moved index more a = tt
round-SeparateIn false moved index none a = tt
round-SeparateIn false true index (some rest) a = a
round-SeparateIn false false index (some []) a = tt
round-SeparateIn false false index (some (d ∷ ds)) a = a.1

module _ (xs ys : Lines) (fa fb : Flags) (d : IsDiff xs ys (fa, fb)) where
  abbrev pub matched : ℕ × Flags × Flags
  matched = skip_matched fa fb

  abbrev pub passed : Passed fa fb xs ys matched.0 matched.1 matched.2
  passed = skip_matched-Passed fa fb xs ys d

  abbrev pub old_skipped :
      Skipped matched.1 passed.xs' (skip_changed matched.1).0 (skip_changed matched.1).1
  old_skipped = skip_changed-Skipped matched.1 passed.xs' passed.rest.old_flags

  abbrev pub new_skipped :
      Skipped matched.2 passed.ys' (skip_changed matched.2).0 (skip_changed matched.2).1
  new_skipped = skip_changed-Skipped matched.2 passed.ys' passed.rest.new_flags

  -- What a round leaves is a difference again.
  pub next-IsDiff :
      IsDiff old_skipped.xs' new_skipped.xs'
        ((skip_changed matched.1).1, (skip_changed matched.2).1)
  next-IsDiff = record {
    old_flags = old_skipped.flags;
    new_flags = new_skipped.flags;
    same_kept = sym old_skipped.same ∙ passed.rest.same_kept ∙ new_skipped.same;
  }

  next_settled : settled (skip_changed matched.1).1 (skip_changed matched.2).1 ≡ true
  next_settled =
      skip_changed-settled matched.1 matched.2 old_skipped.xs' new_skipped.xs' next-IsDiff

diff_indices_from-ApartIn :
    (fuel : ℕ) (xs ys : Lines) (i_a i_b : ℕ) (fa fb : Flags)
    → IsDiff xs ys (fa, fb)
    → settled fa fb ≡ true
    → ApartIn i_a (diff_indices_from fuel i_a i_b fa fb)
unfolding diff_indices_from
diff_indices_from-ApartIn zero xs ys i_a i_b fa fb d e = elim (Bool-cases (are_ended fa fb)) [
  | inl h ↦ rw h tt
  | inr h ↦ rw h tt
]
diff_indices_from-ApartIn (suc fuel) xs ys i_a i_b fa fb d e =
    let s = skip_matched fa fb in
    let a = skip_changed s.1 in
    let b = skip_changed s.2 in
    let index : DiffIndex = record {
      start_1 = i_a + s.0;
      length_1 = a.0;
      start_2 = i_b + s.0;
      length_2 = b.0;
    } in
    round-ApartIn i_a (are_ended s.1 s.2) (ltb 0 a.0 || ltb 0 b.0) index
      (diff_indices_from fuel (i_a + s.0 + a.0) (i_b + s.0 + b.0) a.1 b.1)
      (elim (settled_steps fa fb e) [ inl h ↦ inl h | inr h ↦ inr (omega (arith, h)) ])
      (diff_indices_from-ApartIn fuel _ _ (i_a + s.0 + a.0) (i_b + s.0 + b.0) a.1 b.1
        (next-IsDiff xs ys fa fb d) (next_settled xs ys fa fb d))

pub diff_indices_from-SeparateIn :
    (fuel : ℕ) (xs ys : Lines) (i_a i_b : ℕ) (fa fb : Flags)
    → IsDiff xs ys (fa, fb)
    → SeparateIn (diff_indices_from fuel i_a i_b fa fb)
unfolding diff_indices_from
diff_indices_from-SeparateIn zero xs ys i_a i_b fa fb d = elim (Bool-cases (are_ended fa fb)) [
  | inl h ↦ rw h tt
  | inr h ↦ rw h tt
]
diff_indices_from-SeparateIn (suc fuel) xs ys i_a i_b fa fb d =
    let s = skip_matched fa fb in
    let a = skip_changed s.1 in
    let b = skip_changed s.2 in
    let index : DiffIndex = record {
      start_1 = i_a + s.0;
      length_1 = a.0;
      start_2 = i_b + s.0;
      length_2 = b.0;
    } in
    round-SeparateIn (are_ended s.1 s.2) (ltb 0 a.0 || ltb 0 b.0) index
      (diff_indices_from fuel (i_a + s.0 + a.0) (i_b + s.0 + b.0) a.1 b.1)
      (diff_indices_from-ApartIn fuel _ _ (i_a + s.0 + a.0) (i_b + s.0 + b.0) a.1 b.1
        (next-IsDiff xs ys fa fb d) (next_settled xs ys fa fb d))
