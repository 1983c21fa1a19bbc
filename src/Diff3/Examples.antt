-- ===== src/Diff3/Examples.antt =====
-- Merges of concrete lines.
use just_git.Base.{
  suc, ◌≡◌, refl, sym, ap, true, false, none, some, List, [], ◌∷◌, text_eq, text_eq→eq,
  text_eq_refl, codes, Bool-cases, inl, inr, length, if◌then◌else◌, base_functions,
}
use just_git.Diff3.Indices.{
  Lines, Flags, ChangedLines, diff_indices, build_diff_indices, diff_indices_from, are_ended,
  skip_matched, skip_changed,
}
use just_git.Diff3.Blocks.{
  MergeBlock, conflict, refine_conflicts, refine_conflict_block, simplify_non_conflicts,
}
use just_git.Diff3.Regions.{side_a, regions_from, diff3_merge_regions}
use just_git.Diff3.Merge.{merge_style, MergeLabels, finish_blocks, diff3_merge, merge}
use just_git.Diff3.Sides.{kept}
use just_git.Diff3.Kept.{FindsDiffs}
use just_git.Diff3.Found.{FindsSame}
use just_git.Diff3.OneSided.{merge-changed_on}
use just_git.Diff3.Whole.{IsDiff3, diff3_merge_regions-IsDiff3}
use just_git.Diff3.Returned.{IsReturned, merge-IsReturned}
use just_git.Diff3.Finished.{IsSame, finish_blocks-IsSame}

all_marked : Lines → Flags
all_marked [] = []
all_marked (x ∷ xs) = true ∷ all_marked xs

-- The common lines at the front are kept, and all others changed.
front_kept : ChangedLines
unfolding all_marked
front_kept [] ys = ([], all_marked ys)
front_kept (x ∷ xs) [] = (true ∷ all_marked xs, [])
front_kept (x ∷ xs) (y ∷ ys) =
    let rest = front_kept xs ys in
    if text_eq x y
    then (false ∷ rest.0, false ∷ rest.1)
    else (true ∷ all_marked xs, true ∷ all_marked ys)

all_marked_lem :
    (xs : Lines) → (length (all_marked xs) ≡ length xs) × (kept (all_marked xs) xs ≡ [])
unfolding all_marked
all_marked_lem [] = (refl, refl)
all_marked_lem (x ∷ xs) = let r = all_marked_lem xs in (ap suc r.0, r.1)

front_kept-FindsDiffs : FindsDiffs front_kept
unfolding front_kept
front_kept-FindsDiffs [] ys =
    let r = all_marked_lem ys in
    record { old_flags = refl; new_flags = r.0; same_kept = sym (kept_none ys) }
  where
    kept_none : (ys : Lines) → kept (all_marked ys) ys ≡ []
    kept_none ys = (all_marked_lem ys).1
front_kept-FindsDiffs (x ∷ xs) [] =
    let r = all_marked_lem xs in
    record { old_flags = ap suc r.0; new_flags = refl; same_kept = r.1 }
front_kept-FindsDiffs (x ∷ xs) (y ∷ ys) = elim (Bool-cases (text_eq x y)) [
  | inl e ↦
      let r = front_kept-FindsDiffs xs ys in
      rw e (record {
        old_flags = ap suc r.old_flags;
        new_flags = ap suc r.new_flags;
        same_kept = cc (text_eq→eq x y e, r.same_kept);
      })
  | inr e ↦
      let p = all_marked_lem xs in
      let q = all_marked_lem ys in
      rw e (record { old_flags = ap suc p.0; new_flags = ap suc q.0; same_kept = cc (p.1, q.1) })
]

front_kept-FindsSame : FindsSame front_kept
unfolding front_kept all_marked
front_kept-FindsSame [] = (tt, tt)
front_kept-FindsSame (x ∷ xs) =
    let r = front_kept-FindsSame xs in rw (text_eq_refl x) ((refl, r.0), (refl, r.1))

abbrev labels : MergeLabels
labels = record {
  label_a = some (codes "ours");
  label_o = none;
  label_b = some (codes "theirs");
  marker_size = none;
  style = some merge_style;
}

abbrev two_lines : Lines
two_lines = codes "one" ∷ codes "two" ∷ []

abbrev other_lines : Lines
other_lines = codes "one" ∷ codes "three" ∷ []

abbrev more_lines : Lines
more_lines = codes "one" ∷ codes "four" ∷ []

-- Both sides change the second line.
conflicting :
    merge front_kept other_lines two_lines more_lines labels
    ≡ some (record {
      has_conflict = true;
      result =
          codes "one"
          ∷ codes "<<<<<<< ours"
          ∷ codes "three"
          ∷ codes "======="
          ∷ codes "four"
          ∷ codes ">>>>>>> theirs"
          ∷ [];
    })
unfolding merge base_functions front_kept diff3_merge diff3_merge_regions diff_indices
    build_diff_indices diff_indices_from are_ended skip_matched skip_changed regions_from
    finish_blocks refine_conflicts refine_conflict_block simplify_non_conflicts
conflicting = refl

merge-changed_on_example :
    merge front_kept other_lines two_lines two_lines labels
    ≡ some (record { has_conflict = false; result = other_lines })
merge-changed_on_example =
    merge-changed_on front_kept side_a other_lines two_lines labels front_kept-FindsDiffs
      front_kept-FindsSame

abbrev one_conflict : List MergeBlock
one_conflict = conflict other_lines two_lines more_lines ∷ []

finish_blocks-IsSame_example :
    IsSame one_conflict (finish_blocks front_kept merge_style one_conflict)
finish_blocks-IsSame_example =
    finish_blocks-IsSame front_kept merge_style one_conflict front_kept-FindsDiffs

diff3_merge_regions-IsDiff3_example :
    IsDiff3 front_kept other_lines two_lines more_lines
      (diff3_merge_regions front_kept other_lines two_lines more_lines)
diff3_merge_regions-IsDiff3_example =
    diff3_merge_regions-IsDiff3 front_kept other_lines two_lines more_lines front_kept-FindsDiffs

merge-IsReturned_example :
    IsReturned front_kept other_lines two_lines more_lines
      (merge front_kept other_lines two_lines more_lines labels)
merge-IsReturned_example =
    merge-IsReturned front_kept other_lines two_lines more_lines labels front_kept-FindsDiffs
