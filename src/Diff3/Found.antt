-- ===== src/Diff3/Found.antt =====
-- Proofs about `diffIndices` of src/lib/diff3.ts as a whole: what it finds between two texts, and between a text and itself.
use just_git.Base.{
  ℕ, zero, suc, ◌+◌, ◌≤◌, ◌≡◌, refl, sym, ap, ◌∙◌, true, false, Option, none, some, List, [], ◌∷◌,
  append-nil, length, drop, arith, All, subst, drop_append,
}
use just_git.Diff3.Indices.{
  Lines, Flags, ChangedLines, DiffIndex, skip_matched, are_ended, diff_indices_from,
  build_diff_indices, diff_indices,
}
use just_git.Diff3.Blocks.{slice, push_agreed, refine_from}
use just_git.Diff3.Sides.{theirs, theirs_push}
use just_git.Diff3.Progress.{slice_lem}
use just_git.Diff3.Kept.{FindsDiffs, diff_indices-IsRefined}
use just_git.Diff3.Apart.{Separate, SeparateIn, diff_indices_from-SeparateIn}

-- The differences that are found between two texts, and what they turn the first into.
pub record IsFound (o x : Lines) (found : Option (List DiffIndex)) : Type 0 where
  pub ds : List DiffIndex
  pub there : found ≡ some ds
  pub separate : Separate ds
  pub turned : theirs (refine_from o x 0 ds) ≡ x

found-Separate :
    (found : Option (List DiffIndex)) (ds : List DiffIndex)
    → SeparateIn found
    → found ≡ some ds
    → Separate ds
found-Separate none ds s e = cc
found-Separate (some ds') ds s e = subst SeparateIn e s

pub diff_indices-IsFound :
    (changed : ChangedLines) (o x : Lines)
    → FindsDiffs changed
    → IsFound o x (diff_indices changed o x)
unfolding diff_indices refine_from push_agreed
diff_indices-IsFound changed [] [] law = record {
  ds = [];
  there = refl;
  separate = tt;
  turned = refl;
}
diff_indices-IsFound changed [] (y ∷ ys) law = record {
  ds = record { start_1 = 0; length_1 = 0; start_2 = 0; length_2 = length (y ∷ ys) } ∷ [];
  there = refl;
  separate = tt;
  turned =
      append-nil (slice (y ∷ ys) 0 (0 + length (y ∷ ys)))
      ∙ slice_lem (y ∷ ys) [] (y ∷ ys) [] 0 (0 + length (y ∷ ys)) (sym (append-nil (y ∷ ys))) refl
          refl;
}
diff_indices-IsFound changed (x ∷ xs) [] law = record {
  ds = record { start_1 = 0; length_1 = length (x ∷ xs); start_2 = 0; length_2 = 0 } ∷ [];
  there = refl;
  separate = tt;
  turned =
      theirs_push (drop (0 + length (x ∷ xs)) (x ∷ xs)) []
      ∙ append-nil (drop (0 + length (x ∷ xs)) (x ∷ xs))
      ∙ ap (drop (0 + length (x ∷ xs))) (sym (append-nil (x ∷ xs)))
      ∙ drop_append (x ∷ xs) [] (0 + length (x ∷ xs)) (omega arith);
}
diff_indices-IsFound changed (x ∷ xs) (y ∷ ys) law =
    let r = diff_indices-IsRefined changed x xs y ys law in
    let flags = changed (x ∷ xs) (y ∷ ys) in
    record {
      ds = r.ds;
      there = r.there;
      separate =
          found-Separate (diff_indices changed (x ∷ xs) (y ∷ ys)) r.ds
            (unfold build_diff_indices in
              diff_indices_from-SeparateIn (length flags.0 + length flags.1) (x ∷ xs) (y ∷ ys) 0 0
                flags.0 flags.1 (law (x ∷ xs) (y ∷ ys)))
            r.there;
      turned = r.theirs_kept;
    }

-- The flags of a text and itself mark nothing.
abbrev pub FindsSame : ChangedLines → Type 0
FindsSame changed =
    (xs : Lines) → All (λ f. f ≡ false) (changed xs xs).0 × All (λ f. f ≡ false) (changed xs xs).1

no_flags :
    (fa fb : Flags)
    → All (λ f. f ≡ false) fa
    → All (λ f. f ≡ false) fb
    → length fa ≡ length fb
    → are_ended (skip_matched fa fb).1 (skip_matched fa fb).2 ≡ true
unfolding skip_matched are_ended
no_flags [] [] p q e = refl
no_flags [] (y ∷ fb) p q e = absurd (omega arith)
no_flags (true ∷ fa) fb p q e = cc (p.0)
no_flags (false ∷ fa) [] p q e = absurd (omega arith)
no_flags (false ∷ fa) (true ∷ fb) p q e = cc (q.0)
no_flags (false ∷ fa) (false ∷ fb) p q e = no_flags fa fb p.1 q.1 (omega arith)

from_no_flags :
    (fuel : ℕ) (fa fb : Flags)
    → length fa ≤ fuel
    → All (λ f. f ≡ false) fa
    → All (λ f. f ≡ false) fb
    → length fa ≡ length fb
    → diff_indices_from fuel 0 0 fa fb ≡ some []
unfolding diff_indices_from are_ended
from_no_flags zero [] [] h p q e = refl
from_no_flags zero [] (y ∷ fb) h p q e = absurd (omega arith)
from_no_flags zero (x ∷ fa) fb h p q e = absurd (omega arith)
from_no_flags (suc fuel) fa fb h p q e = ground (arith, no_flags fa fb p q e)

pub diff_indices_same :
    (changed : ChangedLines) (xs : Lines)
    → FindsDiffs changed
    → FindsSame changed
    → diff_indices changed xs xs ≡ some []
unfolding diff_indices build_diff_indices
diff_indices_same changed [] law same = refl
diff_indices_same changed (x ∷ xs) law same =
    let flags = changed (x ∷ xs) (x ∷ xs) in
    let d = law (x ∷ xs) (x ∷ xs) in
    let none_of = same (x ∷ xs) in
    from_no_flags (length flags.0 + length flags.1) flags.0 flags.1 (omega arith) none_of.0
      none_of.1 (d.old_flags ∙ sym d.new_flags)
