-- ===== src/Diff3/Differs.antt =====
-- Proofs about `diffIndices` of src/lib/diff3.ts: its differences turn the first text into the second.
use just_git.Base.{
  ℕ, zero, suc, ◌+◌, ◌<◌, ◌≡◌, refl, sym, ap, ◌∙◌, subst, Bool, true, false, ◌||◌, Option, none,
  some, List, [], ◌∷◌, ◌++◌, append-nil, length, ltb, arith, Bool-cases, inl, inr,
}
use just_git.Diff3.Indices.{
  Lines, Flags, ChangedLines, DiffIndex, skip_matched, skip_changed, are_ended, diff_indices_from,
  build_diff_indices, diff_indices,
}
use just_git.Diff3.Sides.{IsDiff}
use just_git.Diff3.Refined.{last_round}
use just_git.Diff3.Progress.{progress, skip_matched_stops}
use just_git.Diff3.Kept.{FindsDiffs}
use just_git.Diff3.Apart.{round, passed, old_skipped, new_skipped, next-IsDiff}
use just_git.Diff3.Turned.{Turned}

abbrev TurnedIn : ℕ → ℕ → Lines → Lines → Option (List DiffIndex) → Type 0
TurnedIn i j os xs none = Unit
TurnedIn i j os xs (some ds) = Turned i j os xs ds

round-TurnedIn :
    (i j : ℕ) (os xs : Lines) (ended moved : Bool) (index : DiffIndex)
    (more : Option (List DiffIndex))
    → (ended ≡ true → os ≡ xs)
    → (ended ≡ false → moved ≡ true)
    → (keep u v os' xs' : Lines) → os ≡ keep ++ (u ++ os')
    → xs ≡ keep ++ (v ++ xs')
    → index.start_1 ≡ i + length keep
    → index.start_2 ≡ j + length keep
    → index.length_1 ≡ length u
    → index.length_2 ≡ length v
    → TurnedIn (index.start_1 + index.length_1) (index.start_2 + index.length_2) os' xs' more
    → TurnedIn i j os xs (round ended moved index more)
round-TurnedIn i j os xs true moved index more same step keep u v os' xs' eo ex s1 s2 l1 l2 t =
    same refl
round-TurnedIn i j os xs false moved index none same step keep u v os' xs' eo ex s1 s2 l1 l2 t = tt
round-TurnedIn i j os xs false true index (some ds) same step keep u v os' xs' eo ex s1 s2 l1 l2 t =
    (keep, u, v, os', xs', eo, ex, s1, s2, l1, l2, t)
round-TurnedIn i j os xs false false index (some ds) same step keep u v os' xs' eo ex s1 s2 l1 l2
      t =
    cc (step refl)

ended_same :
    (fa fb : Flags) (xs ys : Lines) → IsDiff xs ys (fa, fb) → are_ended fa fb ≡ true → xs ≡ ys
unfolding are_ended
ended_same [] [] [] [] d e = refl
ended_same [] [] [] (y ∷ ys) d e = absurd (omega (arith, d.new_flags))
ended_same [] [] (x ∷ xs) ys d e = absurd (omega (arith, d.old_flags))
ended_same [] (y ∷ fb) xs ys d e = cc
ended_same (x ∷ fa) fb xs ys d e = cc

diff_indices_from-TurnedIn :
    (fuel : ℕ) (xs ys : Lines) (i_a i_b : ℕ) (fa fb : Flags)
    → IsDiff xs ys (fa, fb)
    → TurnedIn i_a i_b xs ys (diff_indices_from fuel i_a i_b fa fb)
unfolding diff_indices_from
diff_indices_from-TurnedIn zero xs ys i_a i_b fa fb d = elim (Bool-cases (are_ended fa fb)) [
  | inl h ↦ rw h (ended_same fa fb xs ys d h)
  | inr h ↦ rw h tt
]
diff_indices_from-TurnedIn (suc fuel) xs ys i_a i_b fa fb d =
    let s = skip_matched fa fb in
    let a = skip_changed s.1 in
    let b = skip_changed s.2 in
    let index : DiffIndex = record {
      start_1 = i_a + s.0;
      length_1 = a.0;
      start_2 = i_b + s.0;
      length_2 = b.0;
    } in
    let p = passed xs ys fa fb d in
    let u = old_skipped xs ys fa fb d in
    let v = new_skipped xs ys fa fb d in
    round-TurnedIn i_a i_b xs ys (are_ended s.1 s.2) (ltb 0 a.0 || ltb 0 b.0) index
      (diff_indices_from fuel (i_a + s.0 + a.0) (i_b + s.0 + b.0) a.1 b.1)
      (λ e. last_round fa fb xs ys s.0 s.1 s.2 p e)
      (λ e. some_moved a.0 b.0 (progress s.1 s.2 p.xs' p.ys' e (skip_matched_stops fa fb) p.rest))
      p.run u.run v.run u.xs' v.xs' (p.old_run ∙ ap (λ l. p.run ++ l) u.whole)
      (p.new_run ∙ ap (λ l. p.run ++ l) v.whole) (ap (λ n. i_a + n) p.counted)
      (ap (λ n. i_b + n) p.counted) u.counted v.counted
      (diff_indices_from-TurnedIn fuel u.xs' v.xs' (i_a + s.0 + a.0) (i_b + s.0 + b.0) a.1 b.1
        (next-IsDiff xs ys fa fb d))
  where
    some_moved : (m n : ℕ) → 0 < m + n → (ltb 0 m || ltb 0 n) ≡ true
    some_moved m n h = ground arith

pub diff_indices-TurnedIn :
    (changed : ChangedLines) (o x : Lines) (ds : List DiffIndex)
    → FindsDiffs changed
    → diff_indices changed o x ≡ some ds
    → Turned 0 0 o x ds
unfolding diff_indices build_diff_indices
diff_indices-TurnedIn changed [] [] ds law e = subst (TurnedIn 0 0 [] []) e refl
diff_indices-TurnedIn changed [] (y ∷ ys) ds law e = subst (TurnedIn 0 0 [] (y ∷ ys)) e (
  [],
  [],
  y ∷ ys,
  [],
  [],
  refl,
  ap (λ l. y ∷ l) (sym (append-nil ys)),
  refl,
  refl,
  refl,
  refl,
  refl,
)
diff_indices-TurnedIn changed (x ∷ xs) [] ds law e = subst (TurnedIn 0 0 (x ∷ xs) []) e (
  [],
  x ∷ xs,
  [],
  [],
  [],
  ap (λ l. x ∷ l) (sym (append-nil xs)),
  refl,
  refl,
  refl,
  refl,
  refl,
  refl,
)
diff_indices-TurnedIn changed (x ∷ xs) (y ∷ ys) ds law e =
    let flags = changed (x ∷ xs) (y ∷ ys) in
    subst (TurnedIn 0 0 (x ∷ xs) (y ∷ ys)) e (
      diff_indices_from-TurnedIn (length flags.0 + length flags.1) (x ∷ xs) (y ∷ ys) 0 0 flags.0
        flags.1 (law (x ∷ xs) (y ∷ ys)))
