-- ===== src/Diff3/Blocks.antt =====
-- The blocks of a merge in src/lib/diff3.ts: the refinement of conflicts, and the absorption of short runs.
use just_git.Base.{
  ℕ, ◌+◌, ◌-◌, Bool, true, false, ◌&&◌, Option, none, some, List, [], ◌∷◌, ◌++◌, text_eq, length,
  take, drop, ltb, leb, ◌==◌, if◌then◌else◌,
}
use just_git.Diff3.Indices.{Lines, ChangedLines, DiffIndex, diff_indices}

pub data MergeBlock : Type 0 where
  agreed : Lines → MergeBlock
  conflict : Lines → Lines → Lines → MergeBlock

unfoldable pub arrays_equal : Lines → Lines → Bool
arrays_equal [] [] = true
arrays_equal [] (y ∷ ys) = false
arrays_equal (x ∷ xs) [] = false
arrays_equal (x ∷ xs) (y ∷ ys) = text_eq x y && arrays_equal xs ys

-- `xs.slice(first, last)` of positions that are not negative.
abbrev pub slice : Lines → ℕ → ℕ → Lines
slice xs first last = take (last - first) (drop first xs)

-- `if (lines.length > 0) result.push(ok block)`, in front of what follows.
unfoldable pub push_agreed : Lines → List MergeBlock → List MergeBlock
push_agreed [] rest = rest
push_agreed (x ∷ xs) rest = agreed (x ∷ xs) ∷ rest

-- The loop on the differences, from `aPos` on, and the run behind it.
unfoldable pub refine_from : Lines → Lines → ℕ → List DiffIndex → List MergeBlock
unfolding push_agreed
refine_from a b pos [] = push_agreed (drop pos a) []
refine_from a b pos (d ∷ ds) =
    let end_1 = d.start_1 + d.length_1 in
    let end_2 = d.start_2 + d.length_2 in
    push_agreed (slice a pos d.start_1)
      (conflict (slice a d.start_1 end_1) [] (slice b d.start_2 end_2) ∷ refine_from a b end_1 ds)

-- A single conflict that comes of it is the block itself.
unfoldable pub whole_or : MergeBlock → List MergeBlock → List MergeBlock
whole_or block (conflict a o b ∷ []) = block ∷ []
whole_or block [] = []
whole_or block (agreed l ∷ rest) = agreed l ∷ rest
whole_or block (conflict a o b ∷ r ∷ rest) = conflict a o b ∷ r ∷ rest

-- `none`: the differences were not found in the fuel.
unfoldable pub refine_conflict_block :
    ChangedLines → Lines → Lines → Lines → Option (List MergeBlock)
unfolding arrays_equal refine_from whole_or
refine_conflict_block changed a o b =
    if length a == 0
    then some (conflict a o b ∷ [])
    else if length b == 0
    then some (conflict a o b ∷ [])
    else if arrays_equal a b
    then some (conflict a o b ∷ [])
    else elim (diff_indices changed a b) as (λ _. Option (List MergeBlock)) [
      | none ↦ none
      | some [] ↦ some (agreed a ∷ [])
      | some (d ∷ ds) ↦ some (whole_or (conflict a o b) (refine_from a b 0 (d ∷ ds)))
    ]

unfoldable pub refine_conflicts : ChangedLines → List MergeBlock → Option (List MergeBlock)
refine_conflicts changed [] = some []
refine_conflicts changed (agreed l ∷ blocks) =
    elim (refine_conflicts changed blocks) as (λ _. Option (List MergeBlock)) [
      | none ↦ none
      | some rest ↦ some (agreed l ∷ rest)
    ]
refine_conflicts changed (conflict a o b ∷ blocks) =
    let more = refine_conflicts changed blocks in
    elim (refine_conflict_block changed a o b) as (λ _. Option (List MergeBlock)) [
      | none ↦ none
      | some refined ↦ elim more as (λ _. Option (List MergeBlock)) [
        | none ↦ none
        | some rest ↦ some (refined ++ rest)
      ]
    ]

-- The first loop of `simplifyNonConflicts`; `prev` is the last block so far.
unfoldable pub coalesce : MergeBlock → List MergeBlock → List MergeBlock
coalesce prev [] = prev ∷ []
coalesce (agreed l) (agreed k ∷ blocks) = coalesce (agreed (l ++ k)) blocks
coalesce (agreed l) (conflict a o b ∷ blocks) = agreed l ∷ coalesce (conflict a o b) blocks
coalesce (conflict a o b) (curr ∷ blocks) = conflict a o b ∷ coalesce curr blocks

-- The second loop: a conflict takes a run of at most three lines and the conflict behind it.
unfoldable pub absorb : MergeBlock → List MergeBlock → List MergeBlock
absorb prev [] = prev ∷ []
absorb prev (curr ∷ []) = prev ∷ curr ∷ []
absorb (agreed l) (curr ∷ next ∷ blocks) = agreed l ∷ absorb curr (next ∷ blocks)
absorb (conflict a o b) (conflict a' o' b' ∷ next ∷ blocks) =
    conflict a o b ∷ absorb (conflict a' o' b') (next ∷ blocks)
absorb (conflict a o b) (agreed l ∷ agreed k ∷ blocks) =
    conflict a o b ∷ absorb (agreed l) (agreed k ∷ blocks)
absorb (conflict a o b) (agreed l ∷ conflict a' o' b' ∷ blocks) =
    let taken = absorb (conflict (a ++ (l ++ a')) (o ++ (l ++ o')) (b ++ (l ++ b'))) blocks in
    let left = conflict a o b ∷ absorb (agreed l) (conflict a' o' b' ∷ blocks) in
    if leb (length l) 3 then taken else left

unfoldable pub absorb_all : List MergeBlock → List MergeBlock
unfolding absorb
absorb_all [] = []
absorb_all (block ∷ blocks) =
    if ltb (length (block ∷ blocks)) 3 then block ∷ blocks else absorb block blocks

unfoldable pub simplify_non_conflicts : List MergeBlock → List MergeBlock
unfolding coalesce absorb_all
simplify_non_conflicts [] = []
simplify_non_conflicts (block ∷ blocks) =
    if ltb (length (block ∷ blocks)) 3 then block ∷ blocks else absorb_all (coalesce block blocks)
