-- ===== src/Diff3/Regions.antt =====
-- `diff3MergeRegions` of src/lib/diff3.ts: the first pass of a merge.
use just_git.Base.{
  ℕ, zero, suc, ◌+◌, ◌-◌, min, max, Bool, true, false, Option, none, some, List, [], ◌∷◌, ◌++◌,
  length, ltb, if◌then◌else◌, sort_by,
}
use just_git.Base.Cuts.{clamp_index}
use just_git.Diff3.Indices.{Lines, ChangedLines, DiffIndex, diff_indices}
use just_git.Diff3.Blocks.{slice}

-- Which of the two changed texts: "a" or "b".
pub data Side : Type 0 where
  side_a : Side
  side_b : Side

pub data Buffer : Type 0 where
  buffer_o : Buffer
  buffer_of : Side → Buffer

pub data MergeRegion : Type 0 where
  stable : Buffer → ℕ → ℕ → Lines → MergeRegion
  unstable : Lines → Lines → Lines → MergeRegion

pub record Hunk : Type 0 where
  pub ab : Side
  pub o_start : ℕ
  pub o_length : ℕ
  pub ab_start : ℕ
  pub ab_length : ℕ

abbrev pub hunk_of : Side → DiffIndex → Hunk
hunk_of side item = record {
  ab = side;
  o_start = item.start_1;
  o_length = item.length_1;
  ab_start = item.start_2;
  ab_length = item.length_2;
}

unfoldable pub hunks_of : Side → List DiffIndex → List Hunk
hunks_of side [] = []
hunks_of side (item ∷ items) = hunk_of side item ∷ hunks_of side items

abbrev pub starts_before : Hunk → Hunk → Bool
starts_before x y = ltb x.o_start y.o_start

-- `advanceTo(endOffset)`: what it pushes.
unfoldable pub advance_to : Lines → ℕ → ℕ → List MergeRegion
advance_to o curr_offset end_offset =
    if ltb curr_offset end_offset
    then stable buffer_o curr_offset (end_offset - curr_offset) (slice o curr_offset end_offset)
      ∷ []
    else []

-- The loop that pulls in overlapping hunks: the end of the region, the hunks pulled in, and the rest.
unfoldable pub pull_in : ℕ → List Hunk → ℕ × List Hunk × List Hunk
pull_in region_end [] = (region_end, [], [])
pull_in region_end (next_hunk ∷ hunks) =
    let more = pull_in (max region_end (next_hunk.o_start + next_hunk.o_length)) hunks in
    if ltb region_end next_hunk.o_start
    then (region_end, [], next_hunk ∷ hunks)
    else (more.0, next_hunk ∷ more.1, more.2)

-- The bounds of a side. A maximum is kept with one added, so that 0 is the -1 it starts from.
pub record Bounds : Type 0 where
  pub ab_min : ℕ
  pub ab_max_1 : ℕ
  pub o_min : ℕ
  pub o_max_1 : ℕ

abbrev pub no_bounds : Lines → Lines → Bounds
no_bounds text o = record { ab_min = length text; ab_max_1 = 0; o_min = length o; o_max_1 = 0 }

abbrev pub is_of : Side → Hunk → Bool
is_of side_a h = elim h.ab as (λ _. Bool) [ side_a ↦ true | side_b ↦ false ]
is_of side_b h = elim h.ab as (λ _. Bool) [ side_a ↦ false | side_b ↦ true ]

-- The loop on the hunks of a region, for the bounds of one side.
unfoldable pub bounds_of : Side → Bounds → List Hunk → Bounds
bounds_of side bnd [] = bnd
bounds_of side bnd (h ∷ hunks) =
    let wider : Bounds = record {
      ab_min = min h.ab_start bnd.ab_min;
      ab_max_1 = max (suc (h.ab_start + h.ab_length)) bnd.ab_max_1;
      o_min = min h.o_start bnd.o_min;
      o_max_1 = max (suc (h.o_start + h.o_length)) bnd.o_max_1;
    } in
    bounds_of side (if is_of side h then wider else bnd) hunks

-- `text.slice(abMin + (regionStart - oMin), abMax + (regionEnd - oMax))`
unfoldable pub side_of_region : Lines → ℕ → ℕ → Bounds → Lines
unfolding clamp_index
side_of_region text region_start region_end bnd =
    slice text (clamp_index (length text) (bnd.ab_min + region_start) bnd.o_min)
      (clamp_index (length text) (bnd.ab_max_1 + region_end) bnd.o_max_1)

abbrev pub text_of : Side → Lines → Lines → Lines
text_of side_a a b = a
text_of side_b a b = b

-- What a region pushes: the text of its only hunk, or a conflict.
unfoldable pub region_of : Lines → Lines → Lines → ℕ → Hunk → List Hunk → List MergeRegion
unfolding side_of_region bounds_of
region_of a o b region_end hunk [] =
    if ltb 0 hunk.ab_length
    then stable (buffer_of hunk.ab) hunk.ab_start hunk.ab_length
        (slice (text_of hunk.ab a b) hunk.ab_start (hunk.ab_start + hunk.ab_length))
      ∷ []
    else []
region_of a o b region_end hunk (h ∷ more) =
    unstable
      (side_of_region a hunk.o_start region_end
        (bounds_of side_a (no_bounds a o) (hunk ∷ h ∷ more)))
      (slice o hunk.o_start region_end)
      (side_of_region b hunk.o_start region_end
        (bounds_of side_b (no_bounds b o) (hunk ∷ h ∷ more)))
    ∷ []

-- The loop on the hunks. `none`: the fuel ran out.
unfoldable pub regions_from : ℕ → Lines → Lines → Lines → ℕ → List Hunk → Option (List MergeRegion)
unfolding advance_to pull_in region_of
regions_from fuel a o b curr_offset [] = some (advance_to o curr_offset (length o))
regions_from zero a o b curr_offset (hunk ∷ hunks) = none
regions_from (suc fuel) a o b curr_offset (hunk ∷ hunks) =
    let pulled = pull_in (hunk.o_start + hunk.o_length) hunks in
    elim (regions_from fuel a o b pulled.0 pulled.2) as (λ _. Option (List MergeRegion)) [
      | none ↦ none
      | some rest ↦ some (
          advance_to o curr_offset hunk.o_start ++ (region_of a o b pulled.0 hunk pulled.1 ++ rest))
    ]

unfoldable pub regions_of : Lines → Lines → Lines → List Hunk → Option (List MergeRegion)
unfolding sort_by
regions_of a o b hunks =
    let sorted = sort_by starts_before hunks in regions_from (length sorted) a o b 0 sorted

unfoldable pub diff3_merge_regions :
    ChangedLines → Lines → Lines → Lines → Option (List MergeRegion)
unfolding hunks_of regions_of
diff3_merge_regions changed a o b =
    elim (diff_indices changed o a) as (λ _. Option (List MergeRegion)) [
      | none ↦ none
      | some of_a ↦ elim (diff_indices changed o b) as (λ _. Option (List MergeRegion)) [
        | none ↦ none
        | some of_b ↦ regions_of a o b (hunks_of side_a of_a ++ hunks_of side_b of_b)
      ]
    ]
