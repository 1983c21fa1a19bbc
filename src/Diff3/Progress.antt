-- ===== src/Diff3/Progress.antt =====
-- Proofs about the loop of `buildDiffIndices` in src/lib/diff3.ts: a round passes a changed line.
use just_git.Base.{
  ℕ, ◌+◌, ◌-◌, ◌<◌, ◌≡◌, refl, ap, ◌∙◌, Bool, true, false, [], ◌∷◌, ◌++◌, length, take, drop,
  take_append, drop_append, arith,
}
use just_git.Diff3.Indices.{Lines, Flags, skip_matched, skip_changed, are_ended}
use just_git.Diff3.Blocks.{slice}
use just_git.Diff3.Sides.{IsDiff}

unfoldable pub both_kept : Flags → Flags → Bool
both_kept (false ∷ fa) (false ∷ fb) = true
both_kept [] fb = false
both_kept (true ∷ fa) fb = false
both_kept (false ∷ fa) [] = false
both_kept (false ∷ fa) (true ∷ fb) = false

pub skip_matched_stops :
    (fa fb : Flags) → both_kept (skip_matched fa fb).1 (skip_matched fa fb).2 ≡ false
unfolding skip_matched both_kept
skip_matched_stops [] fb = refl
skip_matched_stops (true ∷ fa) [] = refl
skip_matched_stops (false ∷ fa) [] = refl
skip_matched_stops (true ∷ fa) (y ∷ fb) = refl
skip_matched_stops (false ∷ fa) (true ∷ fb) = refl
skip_matched_stops (false ∷ fa) (false ∷ fb) = skip_matched_stops fa fb

-- A round that is not the last passes a changed line.
pub progress :
    (ga gb : Flags) (xs ys : Lines)
    → are_ended ga gb ≡ false
    → both_kept ga gb ≡ false
    → IsDiff xs ys (ga, gb)
    → 0 < (skip_changed ga).0 + (skip_changed gb).0
unfolding are_ended both_kept skip_changed
progress [] [] xs ys e k d = cc
progress [] (true ∷ gb) xs ys e k d = omega arith
progress [] (false ∷ gb) xs [] e k d = absurd (omega (arith, d.new_flags))
progress [] (false ∷ gb) xs (y ∷ ys) e k d = cc (d.same_kept)
progress (true ∷ ga) gb xs ys e k d = omega arith
progress (false ∷ ga) [] [] ys e k d = absurd (omega (arith, d.old_flags))
progress (false ∷ ga) [] (x ∷ xs) ys e k d = cc (d.same_kept)
progress (false ∷ ga) (true ∷ gb) xs ys e k d = omega arith
progress (false ∷ ga) (false ∷ gb) xs ys e k d = cc

pub slice_lem :
    (xs p m q : Lines) (i j : ℕ)
    → xs ≡ p ++ (m ++ q)
    → i ≡ length p
    → j ≡ i + length m
    → slice xs i j ≡ m
slice_lem xs p m q i j e f g =
    ap (λ l. take (j - i) (drop i l)) e
    ∙ ap (take (j - i)) (drop_append p (m ++ q) i f)
    ∙ take_append m q (j - i) (omega arith)

pub no_lines : (xs : Lines) (n : ℕ) → n ≡ length xs → n ≡ 0 → xs ≡ []
no_lines [] n e f = refl
no_lines (x ∷ xs) n e f = absurd (omega arith)
