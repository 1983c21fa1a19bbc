-- ===== src/Diff3/Pulled.antt =====
-- Proofs about a region of `diff3MergeRegions` in src/lib/diff3.ts: the hunks that are pulled in, and their bounds.
use just_git.Base.{
  ℕ, suc, ◌+◌, ◌≤◌, ◌<◌, ◌≡◌, refl, ap, ◌∙◌, subst, min, max, List, [], ◌∷◌, ◌++◌, length,
  length-append, ltb, arith, Bool-cases, inl, inr, All,
}
use just_git.Base.Cuts.{clamp_index}
use just_git.Diff3.Indices.{Lines, DiffIndex}
use just_git.Diff3.Progress.{slice_lem}
use just_git.Diff3.Regions.{
  Side, Hunk, pull_in, Bounds, no_bounds, is_of, bounds_of, side_of_region,
}
use just_git.Diff3.Turned.{Turned, ends, Consumed}
use just_git.Diff3.Hunks.{diff_of, of_side, InOrder}

abbrev pub EndsBy : ℕ → List Hunk → Type 0
EndsBy n hs = All (λ h. h.o_start + h.o_length ≤ n) hs

abbrev pub StartsBehind : ℕ → List Hunk → Type 0
StartsBehind n hs = All (λ h. n < h.o_start) hs

-- Hunks of which each starts where those before it have reached, from `end` up to `last`.
abbrev pub IsChain : ℕ → List Hunk → ℕ → Type 0
IsChain end [] last = end ≡ last
IsChain end (h ∷ hs) last = (h.o_start ≤ end) × IsChain (max end (h.o_start + h.o_length)) hs last

pub record IsPulled (region_end : ℕ) (hs : List Hunk) (r : ℕ × List Hunk × List Hunk) : Type 0 where
  pub split : hs ≡ r.1 ++ r.2
  pub grows : region_end ≤ r.0
  pub taken_ends : EndsBy r.0 r.1
  pub behind : StartsBehind r.0 r.2
  pub ordered : InOrder r.0 r.2
  pub bounded : (n : ℕ) → region_end ≤ n → EndsBy n hs → r.0 ≤ n
  pub chain : IsChain region_end r.1 r.0
  pub alone : r.1 ≡ [] → r.0 ≡ region_end
  pub touching : (k : Hunk) (more : List Hunk) → r.1 ≡ k ∷ more → k.o_start ≤ region_end

ordered_behind : (n lo : ℕ) (hs : List Hunk) → n < lo → InOrder lo hs → StartsBehind n hs
ordered_behind n lo [] h o = tt
ordered_behind n lo (k ∷ hs) h o =
    (omega (arith, o.0), ordered_behind n k.o_start hs (omega (arith, o.0)) o.1)

same_start :
    (h k : Hunk) (hs ks : List Hunk) → h ∷ hs ≡ k ∷ ks → (n : ℕ) → h.o_start ≤ n → k.o_start ≤ n
same_start h k hs ks e n b =
    subst (λ l. elim l as (λ _. Type 0) [ [] ↦ Unit | x ∷ _ ↦ x.o_start ≤ n ]) e b

pub pull_in-IsPulled :
    (region_end lo : ℕ) (hs : List Hunk)
    → InOrder lo hs
    → IsPulled region_end hs (pull_in region_end hs)
unfolding pull_in
pull_in-IsPulled region_end lo [] o = record {
  split = refl;
  grows = omega arith;
  taken_ends = tt;
  behind = tt;
  ordered = tt;
  bounded = λ n h e. h;
  chain = refl;
  alone = λ e. refl;
  touching = λ k more e. cc;
}
pull_in-IsPulled region_end lo (h ∷ hs) o = elim (Bool-cases (ltb region_end h.o_start)) [
  | inl e ↦
      let far : region_end < h.o_start = ground (arith, e) in
      rw e (record {
        split = refl;
        grows = omega arith;
        taken_ends = tt;
        behind = (far, ordered_behind region_end h.o_start hs far o.1);
        ordered = (omega arith, o.1);
        bounded = λ n b ends. b;
        chain = refl;
        alone = λ e. refl;
        touching = λ k more e. cc;
      })
  | inr near ↦
      let r = pull_in-IsPulled (max region_end (h.o_start + h.o_length)) h.o_start hs o.1 in
      rw near (record {
        split = ap (λ l. h ∷ l) r.split;
        grows = omega (arith, r.grows);
        taken_ends = (omega (arith, r.grows), r.taken_ends);
        behind = r.behind;
        ordered = r.ordered;
        bounded = λ n b ends. r.bounded n (omega (arith, b, ends.0)) ends.1;
        chain = (ground (arith, near), r.chain);
        alone = λ e. cc;
        touching = λ k more e. same_start h k _ more e region_end (ground (arith, near));
      })
]

-- The bounds of the differences of one side.
abbrev wider : DiffIndex → Bounds → Bounds
wider d bnd = record {
  ab_min = min d.start_2 bnd.ab_min;
  ab_max_1 = max (suc (d.start_2 + d.length_2)) bnd.ab_max_1;
  o_min = min d.start_1 bnd.o_min;
  o_max_1 = max (suc (d.start_1 + d.length_1)) bnd.o_max_1;
}

abbrev widen : Bounds → List DiffIndex → Bounds
widen bnd [] = bnd
widen bnd (d ∷ ds) = widen (wider d bnd) ds

bounds_of_side :
    (side : Side) (bnd : Bounds) (hs : List Hunk)
    → bounds_of side bnd hs ≡ widen bnd (of_side side hs)
unfolding bounds_of
bounds_of_side side bnd [] = refl
bounds_of_side side bnd (h ∷ hs) = elim (Bool-cases (is_of side h)) [
  | inl e ↦ rw e (bounds_of_side side (wider (diff_of h) bnd) hs)
  | inr e ↦ rw e (bounds_of_side side bnd hs)
]

abbrev bounds_at : ℕ → ℕ → ℕ → ℕ → Bounds
bounds_at p e_2 q e_1 = record { ab_min = p; ab_max_1 = e_2; o_min = q; o_max_1 = e_1 }

bounds_eq :
    (p p' e e' q q' f f' : ℕ)
    → p ≡ p'
    → e ≡ e'
    → q ≡ q'
    → f ≡ f'
    → bounds_at p e q f ≡ bounds_at p' e' q' f'
bounds_eq p p' e e' q q' f f' a b c d = cc

widen-ends :
    (i j p q : ℕ) (os xs : Lines) (t ds : List DiffIndex)
    → Turned i j os xs (t ++ ds)
    → p ≤ j
    → q ≤ i
    → widen (bounds_at p (suc j) q (suc i)) t
      ≡ bounds_at p (suc (ends i j t).1) q (suc (ends i j t).0)
widen-ends i j p q os xs [] ds tu a b = refl
widen-ends i j p q os xs (d ∷ t) ds (keep, u, v, os', xs', eo, ex, s1, s2, l1, l2, tu) a b =
    ap (λ k. widen k t)
      (bounds_eq (min d.start_2 p) p (max (suc (d.start_2 + d.length_2)) (suc j))
        (suc (d.start_2 + d.length_2)) (min d.start_1 q) q
        (max (suc (d.start_1 + d.length_1)) (suc i)) (suc (d.start_1 + d.length_1))
        (omega (arith, s2)) (omega (arith, s2)) (omega (arith, s1)) (omega (arith, s1)))
    ∙ widen-ends (d.start_1 + d.length_1) (d.start_2 + d.length_2) p q os' xs' t ds tu
        (omega (arith, s2)) (omega (arith, s1))

-- The first difference, of texts that reach it, sets all bounds.
widen_first :
    (x o os xs : Lines) (i j : ℕ) (d : DiffIndex) (t ds : List DiffIndex)
    → Turned i j os xs ((d ∷ t) ++ ds)
    → j + length xs ≤ length x
    → i + length os ≤ length o
    → widen (no_bounds x o) (d ∷ t)
      ≡ bounds_at d.start_2 (suc (ends i j (d ∷ t)).1) d.start_1 (suc (ends i j (d ∷ t)).0)
widen_first x o os xs i j d t ds (keep, u, v, os', xs', eo, ex, s1, s2, l1, l2, tu) a b =
    let size_o : length os ≡ length keep + length (u ++ os') =
      ap length eo ∙ length-append keep (u ++ os') in
    let size_x : length xs ≡ length keep + length (v ++ xs') =
      ap length ex ∙ length-append keep (v ++ xs') in
    ap (λ k. widen k t)
      (bounds_eq (min d.start_2 (length x)) d.start_2 (max (suc (d.start_2 + d.length_2)) 0)
        (suc (d.start_2 + d.length_2)) (min d.start_1 (length o)) d.start_1
        (max (suc (d.start_1 + d.length_1)) 0) (suc (d.start_1 + d.length_1))
        (omega (arith, s2, size_x)) (omega arith) (omega (arith, s1, size_o)) (omega arith))
    ∙ widen-ends (d.start_1 + d.length_1) (d.start_2 + d.length_2) d.start_2 d.start_1 os' xs' t ds
        tu (omega arith) (omega arith)

clamp_index_lem : (size up back k : ℕ) → up ≡ k + back → k ≤ size → clamp_index size up back ≡ k
unfolding clamp_index
clamp_index_lem size up back k e h = ground (arith, e, h)

-- The lines of a side in a region, from the bounds of its hunks there.
pub side_of_region_lem :
    (side : Side) (x o px mid post xs : Lines) (i j : ℕ) (d : DiffIndex) (t ds : List DiffIndex)
    (hs : List Hunk)
    → (c : Consumed i j mid post xs (d ∷ t) ds) → Turned i j (mid ++ post) xs ((d ∷ t) ++ ds)
    → x ≡ px ++ xs
    → j ≡ length px
    → i + length (mid ++ post) ≤ length o
    → of_side side hs ≡ d ∷ t
    → side_of_region x i (i + length mid) (bounds_of side (no_bounds x o) hs) ≡ c.turned_mid
unfolding side_of_region
side_of_region_lem side x o px mid post xs i j d t ds hs c tu ex ej eo es =
    let (keep, u, v, os', xs', fo, fx, s1, s2, l1, l2, more) = tu in
    let sizes : length x ≡ length px + length xs = ap length ex ∙ length-append px xs in
    let sizes' : length xs ≡ length c.turned_mid + length c.turned_post =
      ap length c.whole ∙ length-append c.turned_mid c.turned_post in
    let e = ends i j (d ∷ t) in
    let bounds : bounds_of side (no_bounds x o) hs
        ≡ bounds_at d.start_2 (suc e.1) d.start_1 (suc e.0) =
      bounds_of_side side (no_bounds x o) hs
      ∙ ap (widen (no_bounds x o)) es
      ∙ widen_first x o (mid ++ post) xs i j d t ds tu (omega (arith, sizes, ej)) eo in
    let first : clamp_index (length x) (d.start_2 + i) d.start_1 ≡ j =
      clamp_index_lem (length x) (d.start_2 + i) d.start_1 j (omega (arith, s1, s2))
        (omega (arith, sizes, ej)) in
    let last : clamp_index (length x) (suc e.1 + (i + length mid)) (suc e.0)
        ≡ j + length c.turned_mid =
      clamp_index_lem (length x) (suc e.1 + (i + length mid)) (suc e.0) (j + length c.turned_mid)
        (omega (arith, c.offset)) (omega (arith, sizes, sizes', ej)) in
    ap (λ b. side_of_region x i (i + length mid) b) bounds
    ∙ rw (first, last)
        (slice_lem x px c.turned_mid c.turned_post j (j + length c.turned_mid)
          (ex ∙ ap (λ l. px ++ l) c.whole) ej refl)
