-- ===== src/Diff3/Finished.antt =====
-- Proofs about the end of `diff3Merge` in src/lib/diff3.ts: what follows the first pass is done, and loses no line.
use just_git.Base.{◌≡◌, refl, ◌∙◌, Option, some, List, arith}
use just_git.Diff3.Indices.{ChangedLines}
use just_git.Diff3.Blocks.{MergeBlock, simplify_non_conflicts}
use just_git.Diff3.Merge.{ConflictStyle, merge_style, diff3_style, finish_blocks}
use just_git.Diff3.Sides.{ours, theirs}
use just_git.Diff3.Kept.{FindsDiffs, refine_conflicts-Reads}
use just_git.Diff3.Absorbed.{simplify_non_conflicts-SameSides}

-- Blocks are there, and read the same on either side as those before.
abbrev pub IsSame : List MergeBlock → Option (List MergeBlock) → Type 0
IsSame before found =
    (after : List MergeBlock) × (found ≡ some after)
    × (ours after ≡ ours before)
    × (theirs after ≡ theirs before)

-- Where the flags of changed lines leave the same lines in both texts, the steps of diff3Merge
-- after the first pass return blocks, in either style, from which each side reads the same lines
-- as before.
pub finish_blocks-IsSame :
    (changed : ChangedLines) (style : ConflictStyle) (results : List MergeBlock)
    → FindsDiffs changed
    → IsSame results (finish_blocks changed style results)
unfolding finish_blocks
finish_blocks-IsSame changed diff3_style results law =
    let s = simplify_non_conflicts-SameSides results in
    (simplify_non_conflicts results, refl, s.ours_same, s.theirs_same)
finish_blocks-IsSame changed merge_style results law =
    let r = refine_conflicts-Reads changed results law in
    let s = simplify_non_conflicts-SameSides r.blocks in
    (
      simplify_non_conflicts r.blocks,
      ground (arith, r.there),
      s.ours_same ∙ r.reads_ours,
      s.theirs_same ∙ r.reads_theirs,
    )
