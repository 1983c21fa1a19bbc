-- ===== src/Diff3/Hunks.antt =====
-- Proofs about the hunks of `diff3MergeRegions` in src/lib/diff3.ts: each side finds its differences in them.
use just_git.Base.{
  ℕ, ◌+◌, ◌≤◌, ◌≡◌, refl, sym, ap, ◌∙◌, subst, true, false, List, [], ◌∷◌, ◌++◌, append-nil, ltb,
  if◌then◌else◌, arith, Bool-cases, inl, inr, insert, sort_by,
}
use just_git.Diff3.Indices.{DiffIndex}
use just_git.Diff3.Regions.{Side, side_a, side_b, Hunk, hunk_of, hunks_of, starts_before, is_of}
use just_git.Diff3.Apart.{Apart, Separate}
use just_git.Diff3.Turned.{From}

abbrev pub diff_of : Hunk → DiffIndex
diff_of h = record {
  start_1 = h.o_start;
  length_1 = h.o_length;
  start_2 = h.ab_start;
  length_2 = h.ab_length;
}

-- The differences of one side.
abbrev pub of_side : Side → List Hunk → List DiffIndex
of_side side [] = []
of_side side (h ∷ hs) = if is_of side h then diff_of h ∷ of_side side hs else of_side side hs

-- Hunks in the order of their starts, from `lo` on.
abbrev pub InOrder : ℕ → List Hunk → Type 0
InOrder lo [] = Unit
InOrder lo (h ∷ hs) = (lo ≤ h.o_start) × InOrder h.o_start hs

pub of_side-append :
    (side : Side) (hs ks : List Hunk) → of_side side (hs ++ ks) ≡ of_side side hs ++ of_side side ks
of_side-append side [] ks = refl
of_side-append side (h ∷ hs) ks = elim (Bool-cases (is_of side h)) [
  | inl e ↦ rw e (ap (λ l. diff_of h ∷ l) (of_side-append side hs ks))
  | inr e ↦ rw e (of_side-append side hs ks)
]

InOrder-insert :
    (lo : ℕ) (h : Hunk) (hs : List Hunk)
    → lo ≤ h.o_start
    → InOrder lo hs
    → InOrder lo (insert starts_before h hs)
unfolding insert
InOrder-insert lo h [] le o = (le, tt)
InOrder-insert lo h (y ∷ hs) le o = elim (Bool-cases (ltb y.o_start h.o_start)) [
  | inl e ↦ rw e (o.0, InOrder-insert y.o_start h hs (ground (arith, e)) o.1)
  | inr e ↦ rw e (le, (ground (arith, e), o.1))
]

pub sort_by-InOrder : (hs : List Hunk) → InOrder 0 (sort_by starts_before hs)
unfolding sort_by
sort_by-InOrder [] = tt
sort_by-InOrder (h ∷ hs) =
    InOrder-insert 0 h (sort_by starts_before hs) (omega arith) (sort_by-InOrder hs)

-- A hunk of the other side.
of_side-insert_other :
    (side : Side) (h : Hunk) (hs : List Hunk)
    → is_of side h ≡ false
    → of_side side (insert starts_before h hs) ≡ of_side side hs
unfolding insert
of_side-insert_other side h [] n = rw n refl
of_side-insert_other side h (y ∷ hs) n = elim (Bool-cases (ltb y.o_start h.o_start)) [
  | inl e ↦
      rw e (ap (λ l. if is_of side y then diff_of y ∷ l else l) (of_side-insert_other side h hs n))
  | inr e ↦ rw (e, n) refl
]

-- A hunk that starts before all others of its side.
of_side-insert_own :
    (side : Side) (h : Hunk) (hs : List Hunk)
    → is_of side h ≡ true
    → From h.o_start (of_side side hs)
    → of_side side (insert starts_before h hs) ≡ diff_of h ∷ of_side side hs
unfolding insert
of_side-insert_own side h [] y f = rw y refl
of_side-insert_own side h (k ∷ hs) y f = elim (Bool-cases (ltb k.o_start h.o_start)) [
  | inl e ↦ elim (Bool-cases (is_of side k)) [
    | inl own ↦
        let g : From h.o_start (diff_of k ∷ of_side side hs) =
          subst (λ b. From h.o_start (if b then diff_of k ∷ of_side side hs else of_side side hs))
            own f in
        absurd (ground (arith, e, g.0))
    | inr other ↦
        let g : From h.o_start (of_side side hs) =
          subst (λ b. From h.o_start (if b then diff_of k ∷ of_side side hs else of_side side hs))
            other f in
        rw (e, other) (of_side-insert_own side h hs y g)
  ]
  | inr e ↦ rw (e, y) refl
]

From-weaken : (m n : ℕ) (ds : List DiffIndex) → m ≤ n → From n ds → From m ds
From-weaken m n [] h f = tt
From-weaken m n (d ∷ ds) h f = (omega (arith, f.0), From-weaken m n ds h f.1)

pub Apart-From : (k : ℕ) (ds : List DiffIndex) → Apart k ds → From k ds
Apart-From k [] a = tt
Apart-From k (d ∷ ds) a = (
  omega (arith, a.0),
  From-weaken k (d.start_1 + d.length_1) ds (omega (arith, a.0))
      (Apart-From (d.start_1 + d.length_1) ds a.1),
)

Separate-rest : (d : DiffIndex) (ds : List DiffIndex) → Separate (d ∷ ds) → Separate ds
Separate-rest d [] s = tt
Separate-rest d (e ∷ ds) s = s.1

own_side : (side : Side) (d : DiffIndex) → is_of side (hunk_of side d) ≡ true
own_side side_a d = refl
own_side side_b d = refl

abbrev other_of : Side → Side
other_of side_a = side_b
other_of side_b = side_a

not_own_side : (side : Side) (d : DiffIndex) → is_of (other_of side) (hunk_of side d) ≡ false
not_own_side side_a d = refl
not_own_side side_b d = refl

sorted_own :
    (side : Side) (ds : List DiffIndex) (hs : List Hunk)
    → Separate ds
    → of_side side (sort_by starts_before hs) ≡ []
    → of_side side (sort_by starts_before (hunks_of side ds ++ hs)) ≡ ds
unfolding sort_by hunks_of
sorted_own side [] hs s e = e
sorted_own side (d ∷ ds) hs s e =
    let more = sorted_own side ds hs (Separate-rest d ds s) e in
    let behind : From d.start_1 ds =
      From-weaken d.start_1 (d.start_1 + d.length_1) ds (omega arith)
        (Apart-From (d.start_1 + d.length_1) ds s) in
    of_side-insert_own side (hunk_of side d) _ (own_side side d)
      (subst (From d.start_1) (sym more) behind)
    ∙ ap (λ l. d ∷ l) more

sorted_other :
    (side : Side) (ds : List DiffIndex) (hs : List Hunk)
    → of_side (other_of side) (sort_by starts_before (hunks_of side ds ++ hs))
      ≡ of_side (other_of side) (sort_by starts_before hs)
unfolding sort_by hunks_of
sorted_other side [] hs = refl
sorted_other side (d ∷ ds) hs =
    of_side-insert_other (other_of side) (hunk_of side d) _ (not_own_side side d)
    ∙ sorted_other side ds hs

-- After the sort, each side finds its differences in the order they had.
pub of_side-sort_by :
    (da db : List DiffIndex)
    → Separate da
    → Separate db
    → (of_side side_a (sort_by starts_before (hunks_of side_a da ++ hunks_of side_b db)) ≡ da)
      × (of_side side_b (sort_by starts_before (hunks_of side_a da ++ hunks_of side_b db)) ≡ db)
of_side-sort_by da db sa sb =
    let all_b = ap (sort_by starts_before) (append-nil (hunks_of side_b db)) in
    (
      sorted_own side_a da (hunks_of side_b db) sa
          (ap (of_side side_a) (sym all_b) ∙ sorted_other side_b db [] ∙ unfold sort_by in refl),
      sorted_other side_a da (hunks_of side_b db)
          ∙ ap (of_side side_b) (sym all_b)
          ∙ sorted_own side_b db [] sb (unfold sort_by in refl),
    )
