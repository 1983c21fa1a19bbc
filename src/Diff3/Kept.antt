-- ===== src/Diff3/Kept.antt =====
-- Proofs about the refinement of conflicts in src/lib/diff3.ts: either side reads as before.
use just_git.Base.{
  ℕ, suc, ◌+◌, ◌≡◌, refl, sym, ap, ◌∙◌, false, Option, none, some, List, [], ◌∷◌, ◌++◌,
  append_assoc, append-nil, Text, length, ◌==◌, arith, Bool-cases, inl, inr,
}
use just_git.Diff3.Indices.{Lines, ChangedLines, DiffIndex, build_diff_indices, diff_indices}
use just_git.Diff3.Blocks.{
  MergeBlock, agreed, conflict, refine_from, whole_or, refine_conflict_block, refine_conflicts,
  arrays_equal,
}
use just_git.Diff3.Sides.{IsDiff, ours, theirs, theirs_push}
use just_git.Diff3.Refined.{IsRefined, diff_indices_from-IsRefined}

-- The flags are those of a difference of the two texts.
abbrev pub FindsDiffs : ChangedLines → Type 0
FindsDiffs changed = (xs ys : Lines) → IsDiff xs ys (changed xs ys)

ours-append : (p q : List MergeBlock) → ours (p ++ q) ≡ ours p ++ ours q
ours-append [] q = refl
ours-append (agreed l ∷ p) q =
    ap (λ r. l ++ r) (ours-append p q) ∙ sym (append_assoc l (ours p) (ours q))
ours-append (conflict a o b ∷ p) q =
    ap (λ r. a ++ r) (ours-append p q) ∙ sym (append_assoc a (ours p) (ours q))

theirs-append : (p q : List MergeBlock) → theirs (p ++ q) ≡ theirs p ++ theirs q
theirs-append [] q = refl
theirs-append (agreed l ∷ p) q =
    ap (λ r. l ++ r) (theirs-append p q) ∙ sym (append_assoc l (theirs p) (theirs q))
theirs-append (conflict a o b ∷ p) q =
    ap (λ r. b ++ r) (theirs-append p q) ∙ sym (append_assoc b (theirs p) (theirs q))

pub diff_indices-IsRefined :
    (changed : ChangedLines) (x : Text) (a : Lines) (y : Text) (b : Lines)
    → FindsDiffs changed
    → IsRefined (x ∷ a) (y ∷ b) (x ∷ a) (y ∷ b) 0 (diff_indices changed (x ∷ a) (y ∷ b))
unfolding diff_indices build_diff_indices
diff_indices-IsRefined changed x a y b law =
    let flags = changed (x ∷ a) (y ∷ b) in
    diff_indices_from-IsRefined (length flags.0 + length flags.1) (x ∷ a) (y ∷ b) [] [] (x ∷ a)
      (y ∷ b) 0 0 flags.0 flags.1 refl refl refl refl (law (x ∷ a) (y ∷ b)) (omega arith)

-- Blocks that read as the two sides.
pub record Reads (a b : Lines) (found : Option (List MergeBlock)) : Type 0 where
  pub blocks : List MergeBlock
  pub there : found ≡ some blocks
  pub reads_ours : ours blocks ≡ a
  pub reads_theirs : theirs blocks ≡ b

alone : (a o b : Lines) → Reads a b (some (conflict a o b ∷ []))
alone a o b = record {
  blocks = conflict a o b ∷ [];
  there = refl;
  reads_ours = append-nil a;
  reads_theirs = append-nil b;
}

whole_or-Reads :
    (a o b : Lines) (refined : List MergeBlock)
    → ours refined ≡ a
    → theirs refined ≡ b
    → Reads a b (some (whole_or (conflict a o b) refined))
unfolding whole_or
whole_or-Reads a o b [] e f = record { blocks = []; there = refl; reads_ours = e; reads_theirs = f }
whole_or-Reads a o b (agreed l ∷ rest) e f = record {
  blocks = agreed l ∷ rest;
  there = refl;
  reads_ours = e;
  reads_theirs = f;
}
whole_or-Reads a o b (conflict p q r ∷ []) e f = alone a o b
whole_or-Reads a o b (conflict p q r ∷ s ∷ rest) e f = record {
  blocks = conflict p q r ∷ s ∷ rest;
  there = refl;
  reads_ours = e;
  reads_theirs = f;
}

read_run : (a b : Lines) → theirs (refine_from a b 0 []) ≡ a
unfolding refine_from
read_run a b = theirs_push a [] ∙ append-nil a

refined_block :
    (a o b : Lines) (found : Option (List DiffIndex))
    → IsRefined a b a b 0 found
    → Reads a b (elim found as (λ _. Option (List MergeBlock)) [
      | none ↦ none
      | some [] ↦ some (agreed a ∷ [])
      | some (d ∷ ds) ↦ some (whole_or (conflict a o b) (refine_from a b 0 (d ∷ ds)))
    ])
refined_block a o b none r = cc (r.there)
refined_block a o b (some []) r = record {
  blocks = agreed a ∷ [];
  there = refl;
  reads_ours = append-nil a;
  reads_theirs = append-nil a ∙ sym (read_run a b) ∙ none_left ∙ r.theirs_kept;
}
  where
    none_left : theirs (refine_from a b 0 []) ≡ theirs (refine_from a b 0 r.ds)
    none_left = cc (r.there)
refined_block a o b (some (d ∷ ds)) r =
    whole_or-Reads a o b (refine_from a b 0 (d ∷ ds)) (same ∙ r.ours_kept) (same' ∙ r.theirs_kept)
  where
    same : ours (refine_from a b 0 (d ∷ ds)) ≡ ours (refine_from a b 0 r.ds)
    same = cc (r.there)

    same' : theirs (refine_from a b 0 (d ∷ ds)) ≡ theirs (refine_from a b 0 r.ds)
    same' = cc (r.there)

not_zero : (n : ℕ) → (suc n == 0) ≡ false
not_zero n = ground arith

refine_conflict_block-Reads :
    (changed : ChangedLines) (a o b : Lines)
    → FindsDiffs changed
    → Reads a b (refine_conflict_block changed a o b)
unfolding refine_conflict_block
refine_conflict_block-Reads changed [] o b law = alone [] o b
refine_conflict_block-Reads changed (x ∷ a) o [] law = rw (not_zero (length a)) (alone (x ∷ a) o [])
refine_conflict_block-Reads changed (x ∷ a) o (y ∷ b) law =
    let found =
      refined_block (x ∷ a) o (y ∷ b) (diff_indices changed (x ∷ a) (y ∷ b))
        (diff_indices-IsRefined changed x a y b law) in
    elim (Bool-cases (arrays_equal (x ∷ a) (y ∷ b))) [
      | inl e ↦ rw (not_zero (length a), not_zero (length b), e) (alone (x ∷ a) o (y ∷ b))
      | inr e ↦ rw (not_zero (length a), not_zero (length b), e) found
    ]

pub refine_conflicts-Reads :
    (changed : ChangedLines) (blocks : List MergeBlock)
    → FindsDiffs changed
    → Reads (ours blocks) (theirs blocks) (refine_conflicts changed blocks)
unfolding refine_conflicts
refine_conflicts-Reads changed [] law = record {
  blocks = [];
  there = refl;
  reads_ours = refl;
  reads_theirs = refl;
}
refine_conflicts-Reads changed (agreed l ∷ blocks) law =
    let r = refine_conflicts-Reads changed blocks law in
    record {
      blocks = agreed l ∷ r.blocks;
      there = ground (arith, r.there);
      reads_ours = ap (λ z. l ++ z) r.reads_ours;
      reads_theirs = ap (λ z. l ++ z) r.reads_theirs;
    }
refine_conflicts-Reads changed (conflict a o b ∷ blocks) law =
    let q = refine_conflict_block-Reads changed a o b law in
    let r = refine_conflicts-Reads changed blocks law in
    record {
      blocks = q.blocks ++ r.blocks;
      there = ground (arith, q.there, r.there);
      reads_ours = ours-append q.blocks r.blocks ∙ rw (q.reads_ours, r.reads_ours);
      reads_theirs = theirs-append q.blocks r.blocks ∙ rw (q.reads_theirs, r.reads_theirs);
    }
