-- ===== src/Diff3/OneSided.antt =====
-- Proofs about `diff3Merge` and `merge` of src/lib/diff3.ts where one side has not changed.
use just_git.Base.{◌≡◌, refl, ap, ◌∙◌, Bool, true, false, none, some, [], ◌∷◌, append-nil, arith}
use just_git.Diff3.Indices.{Lines, ChangedLines}
use just_git.Diff3.Blocks.{push_agreed, refine_conflicts, simplify_non_conflicts}
use just_git.Diff3.Regions.{Side, side_a, side_b, hunks_of, diff3_merge_regions}
use just_git.Diff3.Merge.{
  ConflictStyle, merge_style, diff3_style, or_default, Diff3MergeOptions, MergeLabels, markers_of,
  finish_blocks, diff3_merge, render_blocks, merge,
}
use just_git.Diff3.Kept.{FindsDiffs}
use just_git.Diff3.Found.{diff_indices-IsFound, FindsSame, diff_indices_same}
use just_git.Diff3.Run.{IsRun, regions_of-IsRun}

-- The sides of a merge in which only `side` is changed.
abbrev pub changed_on : Side → Lines → Lines → Lines × Lines
changed_on side_a x o = (x, o)
changed_on side_b x o = (o, x)

diff3_merge_regions-IsRun :
    (changed : ChangedLines) (exclude : Bool) (side : Side) (x o : Lines)
    → FindsDiffs changed
    → FindsSame changed
    → IsRun exclude x
        (diff3_merge_regions changed (changed_on side x o).0 o (changed_on side x o).1)
unfolding diff3_merge_regions hunks_of
diff3_merge_regions-IsRun changed exclude side_a x o law same =
    let found = diff_indices-IsFound changed o x law in
    let run = regions_of-IsRun exclude x o o side_a found.ds found.separate found.turned in
    record {
      regions = run.regions;
      there = ground (
        arith,
        found.there,
        diff_indices_same changed o law same,
        append-nil (hunks_of side_a found.ds),
        run.there,
      );
      collected = run.collected;
    }
diff3_merge_regions-IsRun changed exclude side_b x o law same =
    let found = diff_indices-IsFound changed o x law in
    let run = regions_of-IsRun exclude o o x side_b found.ds found.separate found.turned in
    record {
      regions = run.regions;
      there = ground (arith, found.there, diff_indices_same changed o law same, run.there);
      collected = run.collected;
    }

-- One run is left as it is.
finish_blocks_run :
    (changed : ChangedLines) (style : ConflictStyle) (x : Lines)
    → finish_blocks changed style (push_agreed x []) ≡ some (push_agreed x [])
unfolding finish_blocks push_agreed refine_conflicts simplify_non_conflicts
finish_blocks_run changed merge_style [] = refl
finish_blocks_run changed diff3_style [] = refl
finish_blocks_run changed merge_style (y ∷ x) = refl
finish_blocks_run changed diff3_style (y ∷ x) = refl

diff3_merge_run :
    (changed : ChangedLines) (side : Side) (x o : Lines) (options : Diff3MergeOptions)
    → FindsDiffs changed
    → FindsSame changed
    → diff3_merge changed (changed_on side x o).0 o (changed_on side x o).1 options
      ≡ some (push_agreed x [])
unfolding diff3_merge
diff3_merge_run changed side x o options law same =
    let exclude = or_default options.exclude_false_conflicts true in
    let style = or_default options.conflict_style merge_style in
    let run = diff3_merge_regions-IsRun changed exclude side x o law same in
    let finished =
      ap (finish_blocks changed style) (run.collected []) ∙ finish_blocks_run changed style x in
    ground (arith, run.there, finished)

render_run :
    (labels : MergeLabels) (style : ConflictStyle) (x : Lines)
    → render_blocks (markers_of labels) style (push_agreed x [])
      ≡ record { has_conflict = false; result = x }
unfolding render_blocks push_agreed
render_run labels style [] = refl
render_run labels style (y ∷ x) =
    ap (λ l. record { has_conflict = false; result = y ∷ l }) (append-nil x)

-- Where the flags of changed lines leave the same lines in both texts, and mark none in equal
-- texts, a merge in which only one side has changed returns the lines of that side without a
-- conflict, whichever side it is and whatever the labels and the style.
pub merge-changed_on :
    (changed : ChangedLines) (side : Side) (x o : Lines) (labels : MergeLabels)
    → FindsDiffs changed
    → FindsSame changed
    → merge changed (changed_on side x o).0 o (changed_on side x o).1 labels
      ≡ some (record { has_conflict = false; result = x })
unfolding merge
merge-changed_on changed side x o labels law same =
    let style = or_default labels.style merge_style in
    let options : Diff3MergeOptions = record {
      exclude_false_conflicts = none;
      conflict_style = some style;
    } in
    let blocks = diff3_merge_run changed side x o options law same in
    ground (arith, blocks, render_run labels style x)
