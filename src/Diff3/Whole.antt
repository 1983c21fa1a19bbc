-- ===== src/Diff3/Whole.antt =====
-- Proofs about `diff3MergeRegions` in src/lib/diff3.ts, from the differences to the regions.
use just_git.Base.{
  ℕ, zero, suc, ◌+◌, ◌-◌, ◌≤◌, ◌≡◌, true, false, refl, sym, ap, ◌∙◌, subst, Option, some, List, [],
  ◌∷◌, ◌++◌, length, length-append, arith, sort_by, inl, inr,
}
use just_git.Diff3.Indices.{diff_indices, Lines, ChangedLines, DiffIndex}
use just_git.Diff3.Regions.{
  side_a, side_b, MergeRegion, Hunk, hunks_of, starts_before, advance_to, pull_in, is_of, region_of,
  regions_from, regions_of, diff3_merge_regions,
}
use just_git.Diff3.Kept.{FindsDiffs}
use just_git.Diff3.Apart.{Separate}
use just_git.Diff3.Found.{diff_indices-IsFound}
use just_git.Diff3.Turned.{Turned, Until}
use just_git.Diff3.Differs.{diff_indices-TurnedIn}
use just_git.Diff3.Hunks.{diff_of, of_side, sort_by-InOrder, of_side-sort_by}
use just_git.Diff3.Pulled.{EndsBy, pull_in-IsPulled}
use just_git.Diff3.InStep.{IsMerge, pieces, side_of}
use just_git.Diff3.Recovered.{IsMerged, IsState, regions_done}
use just_git.Diff3.Loop.{size_o, in_text, cut, next-IsState, round-IsMerge, next_regions}

Turned-Until :
    (i j : ℕ) (os xs : Lines) (ds : List DiffIndex)
    → Turned i j os xs ds
    → (n : ℕ) → i + length os ≤ n
    → Until n ds
Turned-Until i j os xs [] tu n h = tt
Turned-Until i j os xs (d ∷ ds) (keep, u, v, os', xs', eo, ex, s1, s2, l1, l2, tu) n h =
    let size : length os ≡ length keep + (length u + length os') =
      ap length eo
      ∙ length-append keep (u ++ os')
      ∙ ap (λ k. length keep + k) (length-append u os') in
    (
      omega (arith, s1, l1, size, h),
      Turned-Until (d.start_1 + d.length_1) (d.start_2 + d.length_2) os' xs' ds tu n
          (omega (arith, s1, l1, size, h)),
    )

Until-EndsBy :
    (n : ℕ) (hs : List Hunk)
    → Until n (of_side side_a hs)
    → Until n (of_side side_b hs)
    → EndsBy n hs
Until-EndsBy n [] p q = tt
Until-EndsBy n (h ∷ hs) p q = elim (side_of h) [
  | inl e ↦
      let p' : Until n (of_side side_a (h ∷ hs)) = p in
      let own = subst (Until n) (own_a e.1) p' in
      (own.0, Until-EndsBy n hs own.1 (subst (Until n) (other_b e.2) q))
  | inr e ↦
      let own = subst (Until n) (own_b e.2) q in
      (own.0, Until-EndsBy n hs (subst (Until n) (other_a e.1) p) own.1)
]
  where
    own_a : is_of side_a h ≡ true → of_side side_a (h ∷ hs) ≡ diff_of h ∷ of_side side_a hs
    own_a e = rw e refl

    own_b : is_of side_b h ≡ true → of_side side_b (h ∷ hs) ≡ diff_of h ∷ of_side side_b hs
    own_b e = rw e refl

    other_a : is_of side_a h ≡ false → of_side side_a (h ∷ hs) ≡ of_side side_a hs
    other_a e = rw e refl

    other_b : is_of side_b h ≡ false → of_side side_b (h ∷ hs) ≡ of_side side_b hs
    other_b e = rw e refl

regions_from-IsMerged :
    (fuel : ℕ) (a o b al ol bl : Lines) (i ja jb : ℕ) (hs : List Hunk)
    → IsState a o b al ol bl i ja jb hs
    → length hs ≤ fuel
    → IsMerged al ol bl hs (regions_from fuel a o b i hs)
regions_from-IsMerged fuel a o b al ol bl i ja jb [] s h =
    regions_done fuel a o b al ol bl i ja jb s
regions_from-IsMerged zero a o b al ol bl i ja jb (h ∷ hs) s n = absurd (omega arith)
regions_from-IsMerged (suc fuel) a o b al ol bl i ja jb (h ∷ hs) s n =
    let pulled = pull_in-IsPulled (h.o_start + h.o_length) h.o_start hs s.ordered.1 in
    let end = (pull_in (h.o_start + h.o_length) hs).0 in
    let (pre, mid, post, eo, ep, em) = pieces ol (h.o_start - i) (end - h.o_start) (
      omega (
        arith,
        size_o a o b al ol bl i ja jb h hs s,
        in_text a o b al ol bl i ja jb h hs s,
        pulled.grows,
        s.ordered.0,
      )) in
    let ca =
      cut a o b al ol bl i ja jb h hs s side_a a s.pa al pre mid post ja eo ep em s.turned_a
        s.place_a s.size_a in
    let cb =
      cut a o b al ol bl i ja jb h hs s side_b b s.pb bl pre mid post jb eo ep em s.turned_b
        s.place_b s.size_b in
    let more =
      regions_from-IsMerged fuel a o b ca.behind post cb.behind end
        (ja + length pre + length ca.part) (jb + length pre + length cb.part)
        (pull_in (h.o_start + h.o_length) hs).2
        (next-IsState a o b al ol bl i ja jb h hs s pre mid post eo ep em ca cb)
        (let shorter =
            ap length pulled.split
            ∙ length-append (pull_in (h.o_start + h.o_length) hs).1
                (pull_in (h.o_start + h.o_length) hs).2 in
          omega (arith, n, shorter)) in
    record {
      regions =
          advance_to o i h.o_start
          ++ (region_of a o b end h (pull_in (h.o_start + h.o_length) hs).1 ++ more.regions);
      there = next_regions fuel a o b i h hs more.regions more.there;
      merged =
          round-IsMerge a o b al ol bl i ja jb h hs s pre mid post more.regions eo ep em ca cb
            more.merged;
    }

-- The hunks of both sides, by their starts.
abbrev pub sorted_hunks : List DiffIndex → List DiffIndex → List Hunk
sorted_hunks da db = sort_by starts_before (hunks_of side_a da ++ hunks_of side_b db)

-- The regions are returned, and split the texts in step along the hunks.
abbrev pub SplitInStep : Lines → Lines → Lines → List Hunk → Option (List MergeRegion) → Type 0
SplitInStep a o b hs found =
    (regions : List MergeRegion) × (found ≡ some regions) × IsMerge a o b hs regions

regions_of-SplitInStep :
    (a o b : Lines) (da db : List DiffIndex)
    → Separate da
    → Separate db
    → Turned 0 0 o a da
    → Turned 0 0 o b db
    → SplitInStep a o b
        (sorted_hunks da db)
        (regions_of a o b (hunks_of side_a da ++ hunks_of side_b db))
unfolding regions_of
regions_of-SplitInStep a o b da db sa sb ta tb =
    let hs = sort_by starts_before (hunks_of side_a da ++ hunks_of side_b db) in
    let sides = of_side-sort_by da db sa sb in
    let r =
      regions_from-IsMerged (length hs) a o b a o b 0 0 0 hs
        (record {
          pa = [];
          po = [];
          pb = [];
          place_a = refl;
          place_o = refl;
          place_b = refl;
          size_a = refl;
          size_o = refl;
          size_b = refl;
          ordered = sort_by-InOrder (hunks_of side_a da ++ hunks_of side_b db);
          apart_a = subst Separate (sym sides.0) sa;
          apart_b = subst Separate (sym sides.1) sb;
          turned_a = subst (Turned 0 0 o a) (sym sides.0) ta;
          turned_b = subst (Turned 0 0 o b) (sym sides.1) tb;
          bounded =
              Until-EndsBy (length o) hs
                (subst (Until (length o)) (sym sides.0)
                  (Turned-Until 0 0 o a da ta (length o) (omega arith)))
                (subst (Until (length o)) (sym sides.1)
                  (Turned-Until 0 0 o b db tb (length o) (omega arith)));
        })
        (omega arith) in
    (r.regions, r.there, r.merged)

-- The merge along the hunks of the differences between the base and either side.
abbrev pub IsDiff3 : ChangedLines → Lines → Lines → Lines → Option (List MergeRegion) → Type 0
IsDiff3 changed a o b found =
    (da db : List DiffIndex) × (diff_indices changed o a ≡ some da)
    × (diff_indices changed o b ≡ some db)
    × SplitInStep a o b (sorted_hunks da db) found

-- Where the flags of changed lines leave the same lines in both texts, diff3MergeRegions returns
-- regions, which split a, o and b in step from front to end along the hunks that diffIndices
-- finds, each of them taken once and by its start: lines that all three have, with no hunk; the
-- lines of a hunk in place of lines of the base that the other side has kept; or, for a chain of
-- overlapping hunks of both sides, a piece of each, where that of the base is what the chain
-- spans.
pub diff3_merge_regions-IsDiff3 :
    (changed : ChangedLines) (a o b : Lines)
    → FindsDiffs changed
    → IsDiff3 changed a o b (diff3_merge_regions changed a o b)
unfolding diff3_merge_regions
diff3_merge_regions-IsDiff3 changed a o b law =
    let fa = diff_indices-IsFound changed o a law in
    let fb = diff_indices-IsFound changed o b law in
    let (regions, there, merged) =
      regions_of-SplitInStep a o b fa.ds fb.ds fa.separate fb.separate
        (diff_indices-TurnedIn changed o a fa.ds law fa.there)
        (diff_indices-TurnedIn changed o b fb.ds law fb.there) in
    (fa.ds, fb.ds, fa.there, fb.there, (regions, ground (arith, fa.there, fb.there, there), merged))
