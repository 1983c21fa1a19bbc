-- ===== src/Diff3/InStep.antt =====
-- Regions of a merge that split the three texts in step, and each piece of `diff3MergeRegions` in
-- src/lib/diff3.ts as such a region.
use just_git.Base.{
  ℕ, ◌+◌, ◌-◌, ◌≤◌, ◌≡◌, ◌≢◌, ◌⊎◌, refl, sym, ap, ◌∙◌, subst, Bool, true, false, List, [], ◌∷◌,
  ◌++◌, length, take, drop, take-append-drop, length-take, length-drop, ltb, arith, inl, inr,
}
use just_git.Diff3.Indices.{Lines, DiffIndex}
use just_git.Diff3.Blocks.{slice}
use just_git.Diff3.Progress.{slice_lem}
use just_git.Diff3.Regions.{
  Side, side_a, side_b, buffer_o, buffer_of, MergeRegion, stable, unstable, Hunk, advance_to, is_of,
  text_of, region_of,
}
use just_git.Diff3.Apart.{Separate}
use just_git.Diff3.Pulled.{IsChain}
use just_git.Diff3.Hunks.{diff_of, of_side}

-- The regions split `a`, `o` and `b` from the front, along the hunks: lines of all three, with no hunk; the
-- lines of a hunk in place of those of the base, of which the other side has kept all; or a piece of each, for
-- a chain of hunks of both sides that reaches over the piece of the base.
pub data IsMerge : Lines → Lines → Lines → List Hunk → List MergeRegion → Type 0 where
  ended : IsMerge [] [] [] [] []
  unchanged :
      (n : ℕ) (m : Lines) {a o b : Lines} {hs : List Hunk} {rs : List MergeRegion}
      → IsMerge a o b hs rs
      → IsMerge (m ++ a) (m ++ o) (m ++ b) hs (stable buffer_o n (length m) m ∷ rs)
  one_side :
      (side : Side) (h : Hunk) (u v : Lines) {a o b : Lines} {hs : List Hunk}
      {rs : List MergeRegion}
      → h.ab ≡ side
      → h.ab_length ≡ length u
      → h.o_length ≡ length v
      → IsMerge a o b hs rs
      → IsMerge
          (text_of side u v ++ a)
          (v ++ o)
          (text_of side v u ++ b)
          (h ∷ hs)
          (stable (buffer_of side) h.ab_start (length u) u ∷ rs)
  removed :
      (side : Side) (h : Hunk) (v : Lines) {a o b : Lines} {hs : List Hunk} {rs : List MergeRegion}
      → h.ab ≡ side
      → h.ab_length ≡ 0
      → h.o_length ≡ length v
      → IsMerge a o b hs rs
      → IsMerge (text_of side [] v ++ a) (v ++ o) (text_of side v [] ++ b) (h ∷ hs) rs
  both_sides :
      (h : Hunk) (taken : List Hunk) (u v w : Lines) {a o b : Lines} {hs : List Hunk}
      {rs : List MergeRegion}
      → of_side side_a (h ∷ taken) ≢ []
      → of_side side_b (h ∷ taken) ≢ []
      → IsChain (h.o_start + h.o_length) taken (h.o_start + length v)
      → IsMerge a o b hs rs
      → IsMerge (u ++ a) (v ++ o) (w ++ b) (h ∷ (taken ++ hs)) (unstable u v w ∷ rs)

pub IsMerge-eq :
    (a a' o o' b b' : Lines) (hs hs' : List Hunk) (rs rs' : List MergeRegion)
    → a ≡ a'
    → o ≡ o'
    → b ≡ b'
    → hs ≡ hs'
    → rs ≡ rs'
    → IsMerge a o b hs rs
    → IsMerge a' o' b' hs' rs'
IsMerge-eq a a' o o' b b' hs hs' rs rs' ea eo eb eh er m =
    subst (λ x. IsMerge x o' b' hs' rs') ea
      (subst (λ x. IsMerge a x b' hs' rs') eo
        (subst (λ x. IsMerge a o x hs' rs') eb
          (subst (λ x. IsMerge a o b x rs') eh (subst (λ x. IsMerge a o b hs x) er m))))

-- Kept lines in front of a hunk, or at the end.
pub advance_to-IsMerge :
    (o po m os a b : Lines) (i j : ℕ) (hs : List Hunk) (rs : List MergeRegion)
    → o ≡ po ++ (m ++ os)
    → i ≡ length po
    → j ≡ i + length m
    → IsMerge a os b hs rs
    → IsMerge (m ++ a) (m ++ os) (m ++ b) hs (advance_to o i j ++ rs)
unfolding advance_to
advance_to-IsMerge o po [] os a b i j hs rs eo ei ej t =
    let last : ltb i j ≡ false = ground (arith, ej) in rw last t
advance_to-IsMerge o po (x ∷ m) os a b i j hs rs eo ei ej t =
    let more : ltb i j ≡ true = ground (arith, ej) in
    let content = slice_lem o po (x ∷ m) os i j eo ei ej in
    let size : length (x ∷ m) ≡ j - i = omega (arith, ej) in
    rw more (
      IsMerge-eq _ _ _ _ _ _ _ _ _ (stable buffer_o i (j - i) (slice o i j) ∷ rs) refl refl refl
        refl (cc (content, size)) (unchanged i (x ∷ m) t))

-- Three pieces of a text, by their sizes.
pub pieces :
    (os : Lines) (n k : ℕ)
    → n + k ≤ length os
    → (pre mid post : Lines) × (os ≡ pre ++ (mid ++ post)) × (length pre ≡ n) × (length mid ≡ k)
pieces os n k h = (
  take n os,
  take k (drop n os),
  drop k (drop n os),
  sym (take-append-drop n os) ∙ ap (λ l. take n os ++ l) (sym (take-append-drop k (drop n os))),
  omega (arith, length-take n os),
  omega (arith, length-take k (drop n os), length-drop n os),
)

-- The only hunk of a region is of one side.
pub only_hunk-IsMerge :
    (side : Side) (a o b u v al os bl : Lines) (re : ℕ) (h : Hunk) (hs : List Hunk)
    (rs : List MergeRegion)
    → h.ab ≡ side
    → slice (text_of side a b) h.ab_start (h.ab_start + h.ab_length) ≡ u
    → h.ab_length ≡ length u
    → h.o_length ≡ length v
    → IsMerge al os bl hs rs
    → IsMerge
        (text_of side u v ++ al)
        (v ++ os)
        (text_of side v u ++ bl)
        (h ∷ hs)
        (region_of a o b re h [] ++ rs)
unfolding region_of
only_hunk-IsMerge side a o b [] v al os bl re h hs rs es eu el ev t =
    let last : ltb 0 h.ab_length ≡ false = ground (arith, el) in
    rw last (removed side h v es el ev t)
only_hunk-IsMerge side a o b (x ∷ u) v al os bl re h hs rs es eu el ev t =
    let more : ltb 0 h.ab_length ≡ true = ground (arith, el) in
    let content : slice (text_of h.ab a b) h.ab_start (h.ab_start + h.ab_length) ≡ x ∷ u =
      ap (λ s. slice (text_of s a b) h.ab_start (h.ab_start + h.ab_length)) es ∙ eu in
    rw more (
      IsMerge-eq _ _ _ _ _ _ _ _ _
        (stable (buffer_of h.ab) h.ab_start h.ab_length
            (slice (text_of h.ab a b) h.ab_start (h.ab_start + h.ab_length))
          ∷ rs)
        refl refl refl refl (cc (content, el, es)) (one_side side h (x ∷ u) v es el ev t))

-- A hunk is of one side only.
abbrev Sided : Side → Hunk → Type 0
Sided side_a h = (h.ab ≡ side_a) × (is_of side_a h ≡ true) × (is_of side_b h ≡ false)
Sided side_b h = (h.ab ≡ side_b) × (is_of side_a h ≡ false) × (is_of side_b h ≡ true)

pub side_of : (h : Hunk) → Sided side_a h ⊎ Sided side_b h
side_of h = cases h.ab refl
  where
    cases : (s : Side) → h.ab ≡ s → Sided side_a h ⊎ Sided side_b h
    cases side_a e = inl (
      e,
      ap (λ s. elim s as (λ _. Bool) [ side_a ↦ true | side_b ↦ false ]) e,
      ap (λ s. elim s as (λ _. Bool) [ side_a ↦ false | side_b ↦ true ]) e,
    )
    cases side_b e = inr (
      e,
      ap (λ s. elim s as (λ _. Bool) [ side_a ↦ true | side_b ↦ false ]) e,
      ap (λ s. elim s as (λ _. Bool) [ side_a ↦ false | side_b ↦ true ]) e,
    )

not_nil : (d : DiffIndex) (ds : List DiffIndex) → d ∷ ds ≢ []
not_nil d ds e = cc

-- Two hunks of one side do not touch.
apart_lem :
    (side : Side) (h k : Hunk) (rest : List Hunk)
    → is_of side h ≡ true
    → is_of side k ≡ true
    → Separate (of_side side (h ∷ k ∷ rest))
    → ¬ (k.o_start ≤ h.o_start + h.o_length)
apart_lem side h k rest p q s touch =
    let both : of_side side (h ∷ k ∷ rest) ≡ diff_of h ∷ diff_of k ∷ of_side side rest =
      rw (p, q) refl in
    omega (arith, (subst Separate both s).0, touch)

-- A hunk that touches the one before it is of the other side.
pub both_hunks :
    (h k : Hunk) (more rest : List Hunk)
    → Separate (of_side side_a (h ∷ k ∷ rest))
    → Separate (of_side side_b (h ∷ k ∷ rest))
    → k.o_start ≤ h.o_start + h.o_length
    → (of_side side_a (h ∷ k ∷ more) ≢ []) × (of_side side_b (h ∷ k ∷ more) ≢ [])
both_hunks h k more rest sa sb touch = elim (side_of h) [
  | inl p ↦ elim (side_of k) [
    | inl q ↦ absurd (apart_lem side_a h k rest p.1 q.1 sa touch)
    | inr q ↦ (rw p.1 (not_nil _ _), rw (p.2, q.2) (not_nil _ _))
  ]
  | inr p ↦ elim (side_of k) [
    | inl q ↦ (rw (p.1, q.1) (not_nil _ _), rw p.2 (not_nil _ _))
    | inr q ↦ absurd (apart_lem side_b h k rest p.2 q.2 sb touch)
  ]
]
