-- ===== src/Diff3/Returned.antt =====
-- Proofs about `merge` of src/lib/diff3.ts: it returns, and a merge without a conflict is what both sides read.
use just_git.Base.{
  ◌≡◌, refl, sym, ap, ◌∙◌, subst, Bool, true, false, Option, some, List, [], ◌∷◌, ◌++◌, length, ltb,
  Bool-cases, inl, inr, arith,
}
use just_git.Diff3.Indices.{Lines, ChangedLines}
use just_git.Diff3.Blocks.{
  MergeBlock, agreed, conflict, refine_conflicts, coalesce, absorb, absorb_all,
  simplify_non_conflicts,
}
use just_git.Diff3.Regions.{MergeRegion, diff3_merge_regions}
use just_git.Diff3.Merge.{
  ConflictStyle, merge_style, diff3_style, or_default, MergeLabels, MergeResult, Markers,
  markers_of, collect_blocks, finish_blocks, diff3_merge, render_blocks, merge,
}
use just_git.Diff3.Sides.{ours, theirs}
use just_git.Diff3.Kept.{FindsDiffs}
use just_git.Diff3.Finished.{IsSame, finish_blocks-IsSame}
use just_git.Diff3.Whole.{IsDiff3, diff3_merge_regions-IsDiff3}

-- Without a conflict the lines are those of either side.
render_blocks-clean :
    (m : Markers) (style : ConflictStyle) (blocks : List MergeBlock)
    → (render_blocks m style blocks).has_conflict ≡ false
    → ((render_blocks m style blocks).result ≡ ours blocks)
      × ((render_blocks m style blocks).result ≡ theirs blocks)
unfolding render_blocks
render_blocks-clean m style [] e = (refl, refl)
render_blocks-clean m style (agreed l ∷ blocks) e =
    let rest = render_blocks-clean m style blocks e in
    (ap (λ r. l ++ r) rest.0, ap (λ r. l ++ r) rest.1)
render_blocks-clean m style (conflict a o b ∷ blocks) e = cc

abbrev pub any_conflict : List MergeBlock → Bool
any_conflict [] = false
any_conflict (agreed l ∷ blocks) = any_conflict blocks
any_conflict (conflict a o b ∷ blocks) = true

render_blocks-any_conflict :
    (m : Markers) (style : ConflictStyle) (blocks : List MergeBlock)
    → (render_blocks m style blocks).has_conflict ≡ any_conflict blocks
unfolding render_blocks
render_blocks-any_conflict m style [] = refl
render_blocks-any_conflict m style (agreed l ∷ blocks) = render_blocks-any_conflict m style blocks
render_blocks-any_conflict m style (conflict a o b ∷ blocks) = refl

refine_conflicts_agreed :
    (changed : ChangedLines) (blocks : List MergeBlock)
    → any_conflict blocks ≡ false
    → refine_conflicts changed blocks ≡ some blocks
unfolding refine_conflicts
refine_conflicts_agreed changed [] e = refl
refine_conflicts_agreed changed (agreed l ∷ blocks) e =
    ground (arith, refine_conflicts_agreed changed blocks e)
refine_conflicts_agreed changed (conflict a o b ∷ blocks) e = cc

coalesce_agreed :
    (prev : MergeBlock) (blocks : List MergeBlock)
    → any_conflict (prev ∷ blocks) ≡ false
    → any_conflict (coalesce prev blocks) ≡ false
unfolding coalesce
coalesce_agreed prev [] e = e
coalesce_agreed (agreed l) (agreed k ∷ blocks) e = coalesce_agreed (agreed (l ++ k)) blocks e
coalesce_agreed (agreed l) (conflict a o b ∷ blocks) e = cc
coalesce_agreed (conflict a o b) (curr ∷ blocks) e = cc

absorb_agreed :
    (prev : MergeBlock) (blocks : List MergeBlock)
    → any_conflict (prev ∷ blocks) ≡ false
    → any_conflict (absorb prev blocks) ≡ false
unfolding absorb
absorb_agreed prev [] e = e
absorb_agreed prev (curr ∷ []) e = e
absorb_agreed (agreed l) (curr ∷ next ∷ blocks) e = absorb_agreed curr (next ∷ blocks) e
absorb_agreed (conflict a o b) (curr ∷ next ∷ blocks) e = cc

absorb_all_agreed :
    (blocks : List MergeBlock)
    → any_conflict blocks ≡ false
    → any_conflict (absorb_all blocks) ≡ false
unfolding absorb_all
absorb_all_agreed [] e = refl
absorb_all_agreed (block ∷ blocks) e = elim (Bool-cases (ltb (length (block ∷ blocks)) 3)) [
  | inl f ↦ rw f e
  | inr f ↦ rw f (absorb_agreed block blocks e)
]

simplify_agreed :
    (blocks : List MergeBlock)
    → any_conflict blocks ≡ false
    → any_conflict (simplify_non_conflicts blocks) ≡ false
unfolding simplify_non_conflicts
simplify_agreed [] e = refl
simplify_agreed (block ∷ blocks) e = elim (Bool-cases (ltb (length (block ∷ blocks)) 3)) [
  | inl f ↦ rw f e
  | inr f ↦ rw f (absorb_all_agreed (coalesce block blocks) (coalesce_agreed block blocks e))
]

-- What follows the first pass makes no conflict.
finish_blocks_agreed :
    (changed : ChangedLines) (style : ConflictStyle) (results after : List MergeBlock)
    → any_conflict results ≡ false
    → finish_blocks changed style results ≡ some after
    → any_conflict after ≡ false
unfolding finish_blocks
finish_blocks_agreed changed diff3_style results after e f = cc (simplify_agreed results e, f)
finish_blocks_agreed changed merge_style results after e f =
    let finished : finish_blocks changed merge_style results
        ≡ some (simplify_non_conflicts results) =
      ground (arith, refine_conflicts_agreed changed results e) in
    cc (simplify_agreed results e, f, finished)

-- The lines without a conflict are what both sides read; a conflict was one of the first pass.
abbrev pub IsRead : Bool → Lines → List MergeBlock → Type 0
IsRead false result blocks = (result ≡ ours blocks) × (result ≡ theirs blocks)
IsRead true result blocks = any_conflict blocks ≡ true

render-IsRead :
    (m : Markers) (style : ConflictStyle) (results after : List MergeBlock)
    → (any_conflict results ≡ false → any_conflict after ≡ false)
    → ours after ≡ ours results
    → theirs after ≡ theirs results
    → IsRead (render_blocks m style after).has_conflict (render_blocks m style after).result results
render-IsRead m style results after none_new same_ours same_theirs =
    elim (Bool-cases (render_blocks m style after).has_conflict) [
      | inl e ↦
          subst (λ z. IsRead z (render_blocks m style after).result results) (sym e)
            (elim (Bool-cases (any_conflict results)) [
              | inl f ↦ f
              | inr f ↦ cc (none_new f, e, render_blocks-any_conflict m style after)
            ])
      | inr e ↦
          let read = render_blocks-clean m style after e in
          subst (λ z. IsRead z (render_blocks m style after).result results) (sym e)
            (read.0 ∙ same_ours, read.1 ∙ same_theirs)
    ]

-- The regions of the first pass, and the result.
abbrev pub IsReturned : ChangedLines → Lines → Lines → Lines → Option MergeResult → Type 0
IsReturned changed a o b found =
    (regions : List MergeRegion) × IsDiff3 changed a o b (some regions)
    × (r : MergeResult) × (found ≡ some r)
    × IsRead r.has_conflict r.result (collect_blocks true [] regions)

returned :
    (changed : ChangedLines) (a o b : Lines) (labels : MergeLabels) (regions : List MergeRegion)
    → diff3_merge_regions changed a o b ≡ some regions
    → IsDiff3 changed a o b (some regions)
    → IsSame (collect_blocks true [] regions) (
        finish_blocks changed
          (or_default labels.style merge_style)
          (collect_blocks true [] regions))
    → IsReturned changed a o b (merge changed a o b labels)
unfolding merge diff3_merge
returned changed a o b labels regions there is (after, finished, same_ours, same_theirs) =
    let style = or_default labels.style merge_style in
    let results = collect_blocks true [] regions in
    (
      regions,
      is,
      render_blocks (markers_of labels) style after,
      ground (arith, there, finished),
      render-IsRead (markers_of labels) style results after
          (λ e. finish_blocks_agreed changed style results after e finished) same_ours same_theirs,
    )

-- Where the flags of changed lines leave the same lines in both texts, merge returns a result
-- for any three texts and labels; where it reports no conflict, its lines are what both sides
-- read of the blocks of the first pass, and where it reports one, the first pass had a conflict.
pub merge-IsReturned :
    (changed : ChangedLines) (a o b : Lines) (labels : MergeLabels)
    → FindsDiffs changed
    → IsReturned changed a o b (merge changed a o b labels)
merge-IsReturned changed a o b labels law =
    let (da, db, ea, eb, (regions, there, merged)) =
      diff3_merge_regions-IsDiff3 changed a o b law in
    returned changed a o b labels regions there (da, db, ea, eb, (regions, refl, merged))
      (finish_blocks-IsSame changed (or_default labels.style merge_style)
        (collect_blocks true [] regions) law)
