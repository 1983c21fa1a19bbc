-- ===== src/Diff3/Absorbed.antt =====
-- Proofs about `simplifyNonConflicts` of src/lib/diff3.ts: either side reads as before.
use just_git.Base.{
  ◌≡◌, refl, ap, ◌∙◌, List, [], ◌∷◌, ◌++◌, append_assoc, length, ltb, leb, Bool-cases, inl, inr,
}
use just_git.Diff3.Indices.{Lines}
use just_git.Diff3.Blocks.{
  MergeBlock, agreed, conflict, coalesce, absorb, absorb_all, simplify_non_conflicts,
}
use just_git.Diff3.Sides.{ours, theirs, SameSides}

coalesce-SameSides :
    (prev : MergeBlock) (blocks : List MergeBlock)
    → SameSides (coalesce prev blocks) (prev ∷ blocks)
unfolding coalesce
coalesce-SameSides prev [] = record { ours_same = refl; theirs_same = refl }
coalesce-SameSides (agreed l) (agreed k ∷ blocks) =
    let r = coalesce-SameSides (agreed (l ++ k)) blocks in
    record {
      ours_same = r.ours_same ∙ append_assoc l k (ours blocks);
      theirs_same = r.theirs_same ∙ append_assoc l k (theirs blocks);
    }
coalesce-SameSides (agreed l) (conflict a o b ∷ blocks) =
    let r = coalesce-SameSides (conflict a o b) blocks in
    record {
      ours_same = ap (λ z. l ++ z) r.ours_same;
      theirs_same = ap (λ z. l ++ z) r.theirs_same;
    }
coalesce-SameSides (conflict a o b) (curr ∷ blocks) =
    let r = coalesce-SameSides curr blocks in
    record {
      ours_same = ap (λ z. a ++ z) r.ours_same;
      theirs_same = ap (λ z. b ++ z) r.theirs_same;
    }

three : (a l c rest : Lines) → (a ++ (l ++ c)) ++ rest ≡ a ++ (l ++ (c ++ rest))
three a l c rest = append_assoc a (l ++ c) rest ∙ ap (λ z. a ++ z) (append_assoc l c rest)

absorb-SameSides :
    (prev : MergeBlock) (blocks : List MergeBlock) → SameSides (absorb prev blocks) (prev ∷ blocks)
unfolding absorb
absorb-SameSides prev [] = record { ours_same = refl; theirs_same = refl }
absorb-SameSides (agreed l) (curr ∷ []) = record { ours_same = refl; theirs_same = refl }
absorb-SameSides (conflict a o b) (curr ∷ []) = record { ours_same = refl; theirs_same = refl }
absorb-SameSides (agreed l) (curr ∷ next ∷ blocks) =
    let r = absorb-SameSides curr (next ∷ blocks) in
    record {
      ours_same = ap (λ z. l ++ z) r.ours_same;
      theirs_same = ap (λ z. l ++ z) r.theirs_same;
    }
absorb-SameSides (conflict a o b) (conflict a' o' b' ∷ next ∷ blocks) =
    let r = absorb-SameSides (conflict a' o' b') (next ∷ blocks) in
    record {
      ours_same = ap (λ z. a ++ z) r.ours_same;
      theirs_same = ap (λ z. b ++ z) r.theirs_same;
    }
absorb-SameSides (conflict a o b) (agreed l ∷ agreed k ∷ blocks) =
    let r = absorb-SameSides (agreed l) (agreed k ∷ blocks) in
    record {
      ours_same = ap (λ z. a ++ z) r.ours_same;
      theirs_same = ap (λ z. b ++ z) r.theirs_same;
    }
absorb-SameSides (conflict a o b) (agreed l ∷ conflict a' o' b' ∷ blocks) =
    let taken =
      absorb-SameSides (conflict (a ++ (l ++ a')) (o ++ (l ++ o')) (b ++ (l ++ b'))) blocks in
    let left = absorb-SameSides (agreed l) (conflict a' o' b' ∷ blocks) in
    elim (Bool-cases (leb (length l) 3)) [
      | inl e ↦ rw e (record {
        ours_same = taken.ours_same ∙ three a l a' (ours blocks);
        theirs_same = taken.theirs_same ∙ three b l b' (theirs blocks);
      })
      | inr e ↦ rw e (record {
        ours_same = ap (λ z. a ++ z) left.ours_same;
        theirs_same = ap (λ z. b ++ z) left.theirs_same;
      })
    ]

absorb_all-SameSides : (blocks : List MergeBlock) → SameSides (absorb_all blocks) blocks
unfolding absorb_all
absorb_all-SameSides [] = record { ours_same = refl; theirs_same = refl }
absorb_all-SameSides (block ∷ blocks) = elim (Bool-cases (ltb (length (block ∷ blocks)) 3)) [
  | inl e ↦ rw e (record { ours_same = refl; theirs_same = refl })
  | inr e ↦ rw e (absorb-SameSides block blocks)
]

pub simplify_non_conflicts-SameSides :
    (blocks : List MergeBlock) → SameSides (simplify_non_conflicts blocks) blocks
unfolding simplify_non_conflicts
simplify_non_conflicts-SameSides [] = record { ours_same = refl; theirs_same = refl }
simplify_non_conflicts-SameSides (block ∷ blocks) =
    elim (Bool-cases (ltb (length (block ∷ blocks)) 3)) [
      | inl e ↦ rw e (record { ours_same = refl; theirs_same = refl })
      | inr e ↦
          let first = coalesce-SameSides block blocks in
          let then_absorbed = absorb_all-SameSides (coalesce block blocks) in
          rw e (record {
            ours_same = then_absorbed.ours_same ∙ first.ours_same;
            theirs_same = then_absorbed.theirs_same ∙ first.theirs_same;
          })
    ]
