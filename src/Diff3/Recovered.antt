-- ===== src/Diff3/Recovered.antt =====
-- Proofs about `diff3MergeRegions` in src/lib/diff3.ts: it returns regions that split the three texts in step.
use just_git.Base.{
  ℕ, subst, ◌+◌, ◌≤◌, ◌≡◌, refl, sym, ap, ◌∙◌, Bool, true, false, Option, some, List, [], ◌∷◌, ◌++◌,
  append-nil, length, length-append, if◌then◌else◌, arith, inl, inr,
}
use just_git.Diff3.Indices.{Lines, DiffIndex}
use just_git.Diff3.Blocks.{slice}
use just_git.Diff3.Progress.{slice_lem}
use just_git.Diff3.Regions.{
  Side, side_a, side_b, MergeRegion, unstable, Hunk, advance_to, is_of, region_of, side_of_region,
  no_bounds, bounds_of, regions_from,
}
use just_git.Diff3.Apart.{Separate}
use just_git.Diff3.Turned.{Turned, From, Until}
use just_git.Diff3.Hunks.{diff_of, of_side, InOrder}
use just_git.Diff3.Pulled.{IsChain, EndsBy}
use just_git.Diff3.Cut.{IsCut}
use just_git.Diff3.InStep.{
  IsMerge, ended, both_sides, IsMerge-eq, advance_to-IsMerge, only_hunk-IsMerge, side_of,
  both_hunks,
}

conflict_region :
    (a o b : Lines) (re : ℕ) (h k : Hunk) (more : List Hunk) (u v w : Lines)
    → side_of_region a h.o_start re (bounds_of side_a (no_bounds a o) (h ∷ k ∷ more)) ≡ u
    → slice o h.o_start re ≡ v
    → side_of_region b h.o_start re (bounds_of side_b (no_bounds b o) (h ∷ k ∷ more)) ≡ w
    → region_of a o b re h (k ∷ more) ≡ unstable u v w ∷ []
unfolding region_of
conflict_region a o b re h k more u v w e f g = cc (e, f, g)

-- The hunk and those pulled in make a region of the merge.
pub region_of-IsMerge :
    (a o b al pre mid post bl al' ol' bl' po : Lines) (ja jb re : ℕ) (h : Hunk)
    (taken rest : List Hunk) (ra rb : List DiffIndex) (hs : List Hunk) (rs : List MergeRegion)
    → (ca : IsCut side_a a o al pre mid post ja h.o_start re (h ∷ taken) ra)
    → (cb : IsCut side_b b o bl pre mid post jb h.o_start re (h ∷ taken) rb)
    → o ≡ po ++ (mid ++ post)
    → h.o_start ≡ length po
    → re ≡ h.o_start + length mid
    → IsChain (h.o_start + h.o_length) taken re
    → (taken ≡ [] → re ≡ h.o_start + h.o_length)
    → ((k : Hunk) (more : List Hunk) → taken ≡ k ∷ more → k.o_start ≤ h.o_start + h.o_length)
    → Separate (of_side side_a (h ∷ (taken ++ rest)))
    → Separate (of_side side_b (h ∷ (taken ++ rest)))
    → IsMerge al' ol' bl' hs rs
    → IsMerge
        (ca.part ++ al')
        (mid ++ ol')
        (cb.part ++ bl')
        (h ∷ (taken ++ hs))
        (region_of a o b re h taken ++ rs)
region_of-IsMerge a o b al pre mid post bl al' ol' bl' po ja jb re h [] rest ra rb hs rs ca cb eo eh
      er chain alone touching sa sb t =
    elim (side_of h) [
      | inl p ↦
          let only = ca.only (diff_of h) (rw p.1 refl) refl (sym (alone refl)) in
          let kept = cb.unchanged (rw p.2 refl) in
          IsMerge-eq _ _ _ _ _ _ _ _ _ _ refl refl (ap (λ l. l ++ bl') (sym kept)) refl refl (
            only_hunk-IsMerge side_a a o b ca.part mid al' ol' bl' re h hs rs p.0 only.0 only.1
              (omega (arith, er, alone refl)) t)
      | inr p ↦
          let only = cb.only (diff_of h) (rw p.2 refl) refl (sym (alone refl)) in
          let kept = ca.unchanged (rw p.1 refl) in
          IsMerge-eq _ _ _ _ _ _ _ _ _ _ (ap (λ l. l ++ al') (sym kept)) refl refl refl refl (
            only_hunk-IsMerge side_b a o b cb.part mid al' ol' bl' re h hs rs p.0 only.0 only.1
              (omega (arith, er, alone refl)) t)
    ]
region_of-IsMerge a o b al pre mid post bl al' ol' bl' po ja jb re h (k ∷ more) rest ra rb hs rs ca
      cb eo eh er chain alone touching sa sb t =
    let both = both_hunks h k more (more ++ rest) sa sb (touching k more refl) in
    let of_a = ca.changed both.0 in
    let of_b = cb.changed both.1 in
    let base : slice o h.o_start re ≡ mid = slice_lem o po mid post h.o_start re eo eh er in
    IsMerge-eq _ _ _ _ _ _ _ _ (unstable ca.part mid cb.part ∷ rs)
      (region_of a o b re h (k ∷ more) ++ rs) refl refl refl refl
      (sym
        (ap (λ l. l ++ rs) (conflict_region a o b re h k more ca.part mid cb.part of_a base of_b)))
      (both_sides h (k ∷ more) ca.part mid cb.part both.0 both.1
        (subst (IsChain (h.o_start + h.o_length) (k ∷ more)) er chain) t)

pub InOrder-From :
    (side : Side) (lo : ℕ) (hs : List Hunk) → InOrder lo hs → From lo (of_side side hs)
InOrder-From side lo [] o = tt
InOrder-From side lo (h ∷ hs) o = cases (is_of side h) (InOrder-From side h.o_start hs o.1)
  where
    weaken : (ds : List DiffIndex) → From h.o_start ds → From lo ds
    weaken [] f = tt
    weaken (d ∷ ds) f = (omega (arith, f.0, o.0), weaken ds f.1)

    cases :
        (z : Bool)
        → From h.o_start (of_side side hs)
        → From lo (if z then diff_of h ∷ of_side side hs else of_side side hs)
    cases true f = (o.0, weaken (of_side side hs) f)
    cases false f = weaken (of_side side hs) f

pub EndsBy-Until : (side : Side) (n : ℕ) (hs : List Hunk) → EndsBy n hs → Until n (of_side side hs)
EndsBy-Until side n [] e = tt
EndsBy-Until side n (h ∷ hs) e = cases (is_of side h) (EndsBy-Until side n hs e.1)
  where
    cases :
        (z : Bool)
        → Until n (of_side side hs)
        → Until n (if z then diff_of h ∷ of_side side hs else of_side side hs)
    cases true f = (e.0, f)
    cases false f = f

pub Separate-behind : (t r : List DiffIndex) → Separate (t ++ r) → Separate r
Separate-behind [] r s = s
Separate-behind (d ∷ []) [] s = tt
Separate-behind (d ∷ []) (e ∷ r) s = s.1
Separate-behind (d ∷ e ∷ t) r s = Separate-behind (e ∷ t) r s.1

-- All that the loop gives.
pub record IsMerged (a o b : Lines) (hs : List Hunk) (found : Option (List MergeRegion))
    : Type 0 where
  pub regions : List MergeRegion
  pub there : found ≡ some regions
  pub merged : IsMerge a o b hs regions

-- What the loop has still to do.
pub record IsState (a o b al ol bl : Lines) (i ja jb : ℕ) (hs : List Hunk) : Type 0 where
  pub pa : Lines
  pub po : Lines
  pub pb : Lines
  pub place_a : a ≡ pa ++ al
  pub place_o : o ≡ po ++ ol
  pub place_b : b ≡ pb ++ bl
  pub size_a : ja ≡ length pa
  pub size_o : i ≡ length po
  pub size_b : jb ≡ length pb
  pub ordered : InOrder i hs
  pub apart_a : Separate (of_side side_a hs)
  pub apart_b : Separate (of_side side_b hs)
  pub turned_a : Turned i ja ol al (of_side side_a hs)
  pub turned_b : Turned i jb ol bl (of_side side_b hs)
  pub bounded : EndsBy (length o) hs

pub regions_done :
    (fuel : ℕ) (a o b al ol bl : Lines) (i ja jb : ℕ)
    → IsState a o b al ol bl i ja jb []
    → IsMerged al ol bl [] (regions_from fuel a o b i [])
regions_done fuel a o b al ol bl i ja jb s = record {
  regions = advance_to o i (length o);
  there = unfold regions_from in refl;
  merged =
      IsMerge-eq _ _ _ _ _ _ _ _ _ _ (append-nil ol ∙ s.turned_a) (append-nil ol)
        (append-nil ol ∙ s.turned_b) refl (append-nil (advance_to o i (length o)))
        (advance_to-IsMerge o s.po ol [] [] [] i (length o) [] []
          (s.place_o ∙ ap (λ l. s.po ++ l) (sym (append-nil ol))) s.size_o
          (ap length s.place_o ∙ length-append s.po ol ∙ ap (λ n. n + length ol) (sym s.size_o))
          ended);
}
