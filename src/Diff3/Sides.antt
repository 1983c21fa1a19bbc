-- ===== src/Diff3/Sides.antt =====
-- Proofs about src/lib/diff3.ts: what follows the first pass keeps the lines of both sides.
use just_git.Base.{ℕ, suc, ◌+◌, ◌≡◌, refl, ap, true, false, List, [], ◌∷◌, ◌++◌, length, arith}
use just_git.Diff3.Indices.{Lines, Flags, skip_matched, skip_changed}
use just_git.Diff3.Blocks.{MergeBlock, agreed, conflict, push_agreed}

-- The lines that are not changed.
abbrev pub kept : Flags → Lines → Lines
kept [] xs = []
kept (f ∷ fs) [] = []
kept (true ∷ fs) (x ∷ xs) = kept fs xs
kept (false ∷ fs) (x ∷ xs) = x ∷ kept fs xs

-- A flag for each line, and the same lines kept in both texts.
pub record IsDiff (old new : Lines) (flags : Flags × Flags) : Type 0 where
  pub old_flags : length flags.0 ≡ length old
  pub new_flags : length flags.1 ≡ length new
  pub same_kept : kept flags.0 old ≡ kept flags.1 new

-- What a side reads of the blocks.
abbrev pub ours : List MergeBlock → Lines
ours [] = []
ours (agreed l ∷ blocks) = l ++ ours blocks
ours (conflict a o b ∷ blocks) = a ++ ours blocks

abbrev pub theirs : List MergeBlock → Lines
theirs [] = []
theirs (agreed l ∷ blocks) = l ++ theirs blocks
theirs (conflict a o b ∷ blocks) = b ++ theirs blocks

-- Two lists of blocks that read the same on either side.
pub record SameSides (p q : List MergeBlock) : Type 0 where
  pub ours_same : ours p ≡ ours q
  pub theirs_same : theirs p ≡ theirs q

pub ours_push : (l : Lines) (rest : List MergeBlock) → ours (push_agreed l rest) ≡ l ++ ours rest
unfolding push_agreed
ours_push [] rest = refl
ours_push (x ∷ l) rest = refl

pub theirs_push :
    (l : Lines) (rest : List MergeBlock) → theirs (push_agreed l rest) ≡ l ++ theirs rest
unfolding push_agreed
theirs_push [] rest = refl
theirs_push (x ∷ l) rest = refl

-- The lines that both loops of a round pass.
pub record Passed (fa fb : Flags) (xs ys : Lines) (n : ℕ) (fa' fb' : Flags) : Type 0 where
  pub run : Lines
  pub xs' : Lines
  pub ys' : Lines
  pub counted : n ≡ length run
  pub old_run : xs ≡ run ++ xs'
  pub new_run : ys ≡ run ++ ys'
  pub rest : IsDiff xs' ys' (fa', fb')

pub skip_matched-Passed :
    (fa fb : Flags) (xs ys : Lines)
    → IsDiff xs ys (fa, fb)
    → Passed fa fb xs ys (skip_matched fa fb).0 (skip_matched fa fb).1 (skip_matched fa fb).2
unfolding skip_matched
skip_matched-Passed [] fb xs ys d = record {
  run = [];
  xs' = xs;
  ys' = ys;
  counted = refl;
  old_run = refl;
  new_run = refl;
  rest = d;
}
skip_matched-Passed (x ∷ fa) [] xs ys d = record {
  run = [];
  xs' = xs;
  ys' = ys;
  counted = refl;
  old_run = refl;
  new_run = refl;
  rest = d;
}
skip_matched-Passed (true ∷ fa) (y ∷ fb) xs ys d = record {
  run = [];
  xs' = xs;
  ys' = ys;
  counted = refl;
  old_run = refl;
  new_run = refl;
  rest = d;
}
skip_matched-Passed (false ∷ fa) (true ∷ fb) xs ys d = record {
  run = [];
  xs' = xs;
  ys' = ys;
  counted = refl;
  old_run = refl;
  new_run = refl;
  rest = d;
}
skip_matched-Passed (false ∷ fa) (false ∷ fb) [] ys d = absurd (omega (arith, d.old_flags))
skip_matched-Passed (false ∷ fa) (false ∷ fb) (x ∷ xs) [] d = absurd (omega (arith, d.new_flags))
skip_matched-Passed (false ∷ fa) (false ∷ fb) (x ∷ xs) (y ∷ ys) d =
    let d' : IsDiff xs ys (fa, fb) = record {
      old_flags = omega (arith, d.old_flags);
      new_flags = omega (arith, d.new_flags);
      same_kept = cc (d.same_kept);
    } in
    let p = skip_matched-Passed fa fb xs ys d' in
    record {
      run = x ∷ p.run;
      xs' = p.xs';
      ys' = p.ys';
      counted = ap suc p.counted;
      old_run = ap (λ l. x ∷ l) p.old_run;
      new_run = cc (p.new_run, d.same_kept);
      rest = p.rest;
    }

-- A run of changed lines.
pub record Skipped (f : Flags) (xs : Lines) (n : ℕ) (f' : Flags) : Type 0 where
  pub run : Lines
  pub xs' : Lines
  pub counted : n ≡ length run
  pub whole : xs ≡ run ++ xs'
  pub flags : length f' ≡ length xs'
  pub same : kept f xs ≡ kept f' xs'
  pub flags_left : n + length f' ≡ length f

pub skip_changed-Skipped :
    (f : Flags) (xs : Lines)
    → length f ≡ length xs
    → Skipped f xs (skip_changed f).0 (skip_changed f).1
unfolding skip_changed
skip_changed-Skipped [] xs h = record {
  run = [];
  xs' = xs;
  counted = refl;
  whole = refl;
  flags = h;
  same = refl;
  flags_left = omega arith;
}
skip_changed-Skipped (false ∷ f) xs h = record {
  run = [];
  xs' = xs;
  counted = refl;
  whole = refl;
  flags = h;
  same = refl;
  flags_left = omega arith;
}
skip_changed-Skipped (true ∷ f) [] h = absurd (omega arith)
skip_changed-Skipped (true ∷ f) (x ∷ xs) h =
    let s = skip_changed-Skipped f xs (omega arith) in
    record {
      run = x ∷ s.run;
      xs' = s.xs';
      counted = ap suc s.counted;
      whole = ap (λ l. x ∷ l) s.whole;
      flags = s.flags;
      same = s.same;
      flags_left = omega (arith, s.flags_left);
    }
