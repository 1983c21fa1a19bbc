-- ===== src/Diff3/Merge.antt =====
-- `diff3Merge` and `merge` of src/lib/diff3.ts: the blocks of a merge, and its lines with markers.
use just_git.Base.{
  ℕ, zero, suc, Bool, true, false, ◌&&◌, Option, none, some, List, [], ◌∷◌, ◌++◌, Text,
  if◌then◌else◌,
}
use just_git.Diff3.Indices.{Lines, ChangedLines}
use just_git.Diff3.Blocks.{
  MergeBlock, agreed, conflict, arrays_equal, push_agreed, refine_conflicts, simplify_non_conflicts,
}
use just_git.Diff3.Regions.{MergeRegion, stable, unstable, diff3_merge_regions}

pub data ConflictStyle : Type 0 where
  merge_style : ConflictStyle
  diff3_style : ConflictStyle

pub record Diff3MergeOptions : Type 0 where
  pub exclude_false_conflicts : Option Bool
  pub conflict_style : Option ConflictStyle

abbrev pub or_default {ℓ} : {A : Type ℓ} → Option A → A → A
or_default none d = d
or_default (some x) d = x

-- The loop on the regions, with `okBuffer`.
unfoldable pub collect_blocks : Bool → Lines → List MergeRegion → List MergeBlock
unfolding push_agreed arrays_equal
collect_blocks exclude ok_buffer [] = push_agreed ok_buffer []
collect_blocks exclude ok_buffer (stable _ _ _ content ∷ regions) =
    collect_blocks exclude (ok_buffer ++ content) regions
collect_blocks exclude ok_buffer (unstable a o b ∷ regions) =
    let same = collect_blocks exclude (ok_buffer ++ a) regions in
    let rest = collect_blocks exclude [] regions in
    if exclude && arrays_equal a b then same else push_agreed ok_buffer (conflict a o b ∷ rest)

-- What follows the first pass.
unfoldable pub finish_blocks :
    ChangedLines → ConflictStyle → List MergeBlock → Option (List MergeBlock)
finish_blocks changed diff3_style results = some (simplify_non_conflicts results)
finish_blocks changed merge_style results =
    elim (refine_conflicts changed results) as (λ _. Option (List MergeBlock)) [
      | none ↦ none
      | some refined ↦ some (simplify_non_conflicts refined)
    ]

unfoldable pub diff3_merge :
    ChangedLines → Lines → Lines → Lines → Diff3MergeOptions → Option (List MergeBlock)
unfolding collect_blocks finish_blocks
diff3_merge changed a o b options =
    let exclude = or_default options.exclude_false_conflicts true in
    let style = or_default options.conflict_style merge_style in
    elim (diff3_merge_regions changed a o b) as (λ _. Option (List MergeBlock)) [
      | none ↦ none
      | some regions ↦ finish_blocks changed style (collect_blocks exclude [] regions)
    ]

pub record MergeLabels : Type 0 where
  pub label_a : Option Text
  pub label_o : Option Text
  pub label_b : Option Text
  pub marker_size : Option ℕ
  pub style : Option ConflictStyle

pub record MergeResult : Type 0 where
  pub has_conflict : Bool
  pub result : Lines

-- `c.repeat(size)`
abbrev pub repeat_unit : ℕ → ℕ → Text
repeat_unit c zero = []
repeat_unit c (suc size) = c ∷ repeat_unit c size

-- A marker: an empty label is no label.
abbrev pub marker : ℕ → ℕ → Option Text → Text
marker c size none = repeat_unit c size
marker c size (some []) = repeat_unit c size
marker c size (some (x ∷ label)) = repeat_unit c size ++ (32 ∷ x ∷ label)

pub record Markers : Type 0 where
  pub a_marker : Text
  pub o_marker : Text
  pub separator : Text
  pub b_marker : Text

abbrev pub markers_of : MergeLabels → Markers
markers_of labels =
    let size = or_default labels.marker_size 7 in
    record {
      a_marker = marker 60 size labels.label_a;
      o_marker = marker 124 size labels.label_o;
      separator = repeat_unit 61 size;
      b_marker = marker 62 size labels.label_b;
    }

unfoldable pub conflict_lines : Markers → ConflictStyle → Lines → Lines → Lines → Lines
conflict_lines m diff3_style a o b =
    (m.a_marker ∷ a) ++ ((m.o_marker ∷ o) ++ ((m.separator ∷ b) ++ (m.b_marker ∷ [])))
conflict_lines m merge_style a o b = (m.a_marker ∷ a) ++ ((m.separator ∷ b) ++ (m.b_marker ∷ []))

-- The loop on the blocks.
unfoldable pub render_blocks : Markers → ConflictStyle → List MergeBlock → MergeResult
unfolding conflict_lines
render_blocks m style [] = record { has_conflict = false; result = [] }
render_blocks m style (agreed lines ∷ blocks) =
    let rest = render_blocks m style blocks in
    record { has_conflict = rest.has_conflict; result = lines ++ rest.result }
render_blocks m style (conflict a o b ∷ blocks) =
    let rest = render_blocks m style blocks in
    record { has_conflict = true; result = conflict_lines m style a o b ++ rest.result }

unfoldable pub merge : ChangedLines → Lines → Lines → Lines → MergeLabels → Option MergeResult
unfolding render_blocks
merge changed a o b labels =
    let style = or_default labels.style merge_style in
    let options : Diff3MergeOptions = record {
      exclude_false_conflicts = none;
      conflict_style = some style;
    } in
    elim (diff3_merge changed a o b options) as (λ _. Option MergeResult) [
      | none ↦ none
      | some blocks ↦ some (render_blocks (markers_of labels) style blocks)
    ]
