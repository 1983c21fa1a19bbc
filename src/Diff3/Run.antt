-- ===== src/Diff3/Run.antt =====
-- Proofs about the regions of a merge in src/lib/diff3.ts where all hunks are of one side: they read as one run.
use just_git.Base.{
  ℕ, zero, suc, ◌+◌, ◌-◌, ◌≤◌, ◌≡◌, refl, sym, ap, ◌∙◌, Bool, Option, some, List, [], ◌∷◌, ◌++◌,
  append_assoc, append-nil, length, take, drop, length-drop, ltb, arith, Bool-cases, inl, inr,
  insert, sort_by,
}
use just_git.Base.Cuts.{take_all}
use just_git.Diff3.Indices.{Lines, DiffIndex}
use just_git.Diff3.Blocks.{slice, push_agreed, refine_from}
use just_git.Diff3.Regions.{
  Side, MergeRegion, Hunk, hunk_of, hunks_of, starts_before, advance_to, pull_in, region_of,
  regions_from, regions_of, text_of,
}
use just_git.Diff3.Merge.{collect_blocks}
use just_git.Diff3.Sides.{theirs, theirs_push}
use just_git.Diff3.Apart.{Apart, Separate}

-- Hunks of one side stand in order.
insert-Apart :
    (side : Side) (d : DiffIndex) (ds : List DiffIndex)
    → Apart (d.start_1 + d.length_1) ds
    → insert starts_before (hunk_of side d) (hunks_of side ds) ≡ hunk_of side d ∷ hunks_of side ds
unfolding insert hunks_of
insert-Apart side d [] a = refl
insert-Apart side d (e ∷ ds) a = ground (arith, a.0)

sort_by-Separate :
    (side : Side) (ds : List DiffIndex)
    → Separate ds
    → sort_by starts_before (hunks_of side ds) ≡ hunks_of side ds
unfolding sort_by hunks_of
sort_by-Separate side [] a = refl
sort_by-Separate side (d ∷ []) a = insert-Apart side d [] a
sort_by-Separate side (d ∷ e ∷ ds) a =
    ap (insert starts_before (hunk_of side d)) (sort_by-Separate side (e ∷ ds) a.1)
    ∙ insert-Apart side d (e ∷ ds) a

-- The next hunk of the side does not overlap.
pull_in-Apart :
    (side : Side) (end : ℕ) (ds : List DiffIndex)
    → Apart end ds
    → pull_in end (hunks_of side ds) ≡ (end, [], hunks_of side ds)
unfolding pull_in hunks_of
pull_in-Apart side end [] a = refl
pull_in-Apart side end (d ∷ ds) a = ground (arith, a.0)

no_slice : (l : Lines) (i j : ℕ) → j ≤ i → slice l i j ≡ []
no_slice l i j h = let none_left : j - i ≡ 0 = omega arith in ap (λ n. take n (drop i l)) none_left

collect_blocks-advance_to :
    (exclude : Bool) (o buffer : Lines) (i j : ℕ) (rest : List MergeRegion)
    → collect_blocks exclude buffer (advance_to o i j ++ rest)
      ≡ collect_blocks exclude (buffer ++ slice o i j) rest
unfolding collect_blocks advance_to
collect_blocks-advance_to exclude o buffer i j rest = elim (Bool-cases (ltb i j)) [
  | inl e ↦ rw e refl
  | inr e ↦ rw (e, no_slice o i j (ground (arith, e)), append-nil buffer) refl
]

collect_blocks-region_of :
    (exclude : Bool) (a o b buffer : Lines) (end : ℕ) (side : Side) (d : DiffIndex)
    (rest : List MergeRegion)
    → collect_blocks exclude buffer (region_of a o b end (hunk_of side d) [] ++ rest)
      ≡ collect_blocks exclude
          (buffer ++ slice (text_of side a b) d.start_2 (d.start_2 + d.length_2))
          rest
unfolding collect_blocks region_of
collect_blocks-region_of exclude a o b buffer end side d rest =
    elim (Bool-cases (ltb 0 d.length_2)) [
      | inl e ↦ rw e refl
      | inr e ↦
          rw
            (
              e,
              no_slice (text_of side a b) d.start_2 (d.start_2 + d.length_2) (ground (arith, e)),
              append-nil buffer,
            )
            refl
    ]

slice_rest : (o : Lines) (i : ℕ) → slice o i (length o) ≡ drop i o
slice_rest o i = take_all (length o - i) (drop i o) (sym (length-drop i o))

-- All that the regions have is the text that has changed, in one run.
pub record IsRun (exclude : Bool) (run : Lines) (found : Option (List MergeRegion)) : Type 0 where
  pub regions : List MergeRegion
  pub there : found ≡ some regions
  pub collected :
      (buffer : Lines) → collect_blocks exclude buffer regions ≡ push_agreed (buffer ++ run) []

next_regions :
    (a o b : Lines) (curr end fuel : ℕ) (hunk : Hunk) (hunks : List Hunk) (rest : List MergeRegion)
    → pull_in (hunk.o_start + hunk.o_length) hunks ≡ (end, [], hunks)
    → regions_from fuel a o b end hunks ≡ some rest
    → regions_from (suc fuel) a o b curr (hunk ∷ hunks)
      ≡ some (advance_to o curr hunk.o_start ++ (region_of a o b end hunk [] ++ rest))
unfolding regions_from
next_regions a o b curr end fuel hunk hunks rest e f = ground (arith, e, f)

regions_from-IsRun :
    (exclude : Bool) (fuel : ℕ) (a o b : Lines) (curr : ℕ) (side : Side) (ds : List DiffIndex)
    → length (hunks_of side ds) ≤ fuel
    → Separate ds
    → IsRun exclude
        (theirs (refine_from o (text_of side a b) curr ds))
        (regions_from fuel a o b curr (hunks_of side ds))
unfolding hunks_of
regions_from-IsRun exclude fuel a o b curr side [] h s = record {
  regions = advance_to o curr (length o);
  there = unfold regions_from in refl;
  collected = λ buffer. last buffer;
}
  where
    run : theirs (refine_from o (text_of side a b) curr []) ≡ drop curr o
    run = unfold refine_from in theirs_push (drop curr o) [] ∙ append-nil (drop curr o)

    last :
        (buffer : Lines)
        → collect_blocks exclude buffer (advance_to o curr (length o))
          ≡ push_agreed (buffer ++ theirs (refine_from o (text_of side a b) curr [])) []
    last buffer =
        ap (collect_blocks exclude buffer) (sym (append-nil (advance_to o curr (length o))))
        ∙ collect_blocks-advance_to exclude o buffer curr (length o) []
        ∙ unfold collect_blocks in
          ap (λ l. push_agreed (buffer ++ l) []) (slice_rest o curr ∙ sym run)
regions_from-IsRun exclude zero a o b curr side (d ∷ ds) h s = absurd (omega arith)
regions_from-IsRun exclude (suc fuel) a o b curr side (d ∷ ds) h s =
    let end = d.start_1 + d.length_1 in
    let more = regions_from-IsRun exclude fuel a o b end side ds (omega arith) (later ds s) in
    let first = slice o curr d.start_1 in
    let second = slice (text_of side a b) d.start_2 (d.start_2 + d.length_2) in
    let third = theirs (refine_from o (text_of side a b) end ds) in
    record {
      regions =
          advance_to o curr d.start_1 ++ (region_of a o b end (hunk_of side d) [] ++ more.regions);
      there =
          next_regions a o b curr end fuel (hunk_of side d) (hunks_of side ds) more.regions
            (pull_in-Apart side end ds s) more.there;
      collected = λ buffer.
          collect_blocks-advance_to exclude o buffer curr d.start_1 _
          ∙ collect_blocks-region_of exclude a o b (buffer ++ first) end side d more.regions
          ∙ more.collected ((buffer ++ first) ++ second)
          ∙ ap (λ l. push_agreed l [])
              (append_assoc (buffer ++ first) second third
                ∙ append_assoc buffer first (second ++ third)
                ∙ ap (λ l. buffer ++ l) (sym (unfold refine_from in theirs_push first _)));
    }
  where
    later : (ds : List DiffIndex) → Apart (d.start_1 + d.length_1) ds → Separate ds
    later [] s = tt
    later (e ∷ ds) s = s.1

pub regions_of-IsRun :
    (exclude : Bool) (a o b : Lines) (side : Side) (ds : List DiffIndex)
    → Separate ds
    → theirs (refine_from o (text_of side a b) 0 ds) ≡ text_of side a b
    → IsRun exclude (text_of side a b) (regions_of a o b (hunks_of side ds))
unfolding regions_of
regions_of-IsRun exclude a o b side ds s e =
    let run =
      regions_from-IsRun exclude (length (hunks_of side ds)) a o b 0 side ds (omega arith) s in
    record {
      regions = run.regions;
      there = rw (sort_by-Separate side ds s) run.there;
      collected = λ buffer. run.collected buffer ∙ ap (λ l. push_agreed (buffer ++ l) []) e;
    }
