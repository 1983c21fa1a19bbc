-- ===== src/Base/Split.antt =====
-- `text.split(c)` and `parts.join(c)` for a separator of one code unit.
use Prim.Native.Nat.{ℕ}
use mathlib.Core.Path.{◌≡◌, refl, ap, sym, ◌∙◌}
use mathlib.Core.Logic.{◌≢◌}
use mathlib.Core.Bool.{false}
use mathlib.Core.List.{List, [], ◌∷◌, ◌++◌, append_assoc}
use native.Mathlib.Omega.{arith}
use just_git.Base.Tests.{◌==◌, if◌then◌else◌}
use just_git.Base.Lists.{All}
use just_git.Base.Strings.{Text, includes_unit}

unfoldable pub cons_head : ℕ → List Text → List Text
cons_head x [] = (x ∷ []) ∷ []
cons_head x (p ∷ ps) = (x ∷ p) ∷ ps

unfoldable pub split : ℕ → Text → List Text
unfolding cons_head
split c [] = [] ∷ []
split c (x ∷ s) = let rest = split c s in if x == c then [] ∷ rest else cons_head x rest

unfoldable pub join_with : ℕ → List Text → Text
join_with c [] = []
join_with c (p ∷ []) = p
join_with c (p ∷ q ∷ ps) = p ++ (c ∷ join_with c (q ∷ ps))

-- A part holds no separator.
abbrev pub IsPart : ℕ → Text → Type 0
IsPart c p = includes_unit c p ≡ false

cons_head-IsPart :
    (c x : ℕ) (ps : List Text) → x ≢ c → All (IsPart c) ps → All (IsPart c) (cons_head x ps)
unfolding cons_head includes_unit
cons_head-IsPart c x [] h a = ground arith
cons_head-IsPart c x (p ∷ ps) h a = ground arith

pub split-IsPart : (c : ℕ) (s : Text) → All (IsPart c) (split c s)
unfolding split includes_unit
split-IsPart c [] = (refl, tt)
split-IsPart c (x ∷ s) = ground (arith, split-IsPart c s, cons_head-IsPart c x (split c s))

pub split-ne-nil : (c : ℕ) (s : Text) → split c s ≢ []
unfolding split cons_head
split-ne-nil c [] = ground arith
split-ne-nil c (x ∷ s) = ground (arith, split-ne-nil c s)

-- A text with no separator is its only part.
pub split_part : (c : ℕ) (p : Text) → IsPart c p → split c p ≡ p ∷ []
unfolding split cons_head includes_unit
split_part c [] h = refl
split_part c (x ∷ p) h = ground (arith, split_part c p)

pub split-append_part : (c : ℕ) (p s : Text) → IsPart c p → split c (p ++ (c ∷ s)) ≡ p ∷ split c s
unfolding split cons_head includes_unit
split-append_part c [] s h = ground arith
split-append_part c (x ∷ p) s h = ground (arith, split-append_part c p s)

-- Splitting what was joined gives the parts back.
pub split-join_with :
    (c : ℕ) (p : Text) (ps : List Text)
    → All (IsPart c) (p ∷ ps)
    → split c (join_with c (p ∷ ps)) ≡ p ∷ ps
unfolding join_with
split-join_with c p [] h = split_part c p h.0
split-join_with c p (q ∷ ps) h =
    split-append_part c p _ h.0 ∙ ap (λ l. p ∷ l) (split-join_with c q ps h.1)

join_with-cons_head :
    (c x : ℕ) (ps : List Text) → ps ≢ [] → join_with c (cons_head x ps) ≡ x ∷ join_with c ps
unfolding cons_head join_with
join_with-cons_head c x [] h = absurd (h refl)
join_with-cons_head c x (p ∷ []) h = refl
join_with-cons_head c x (p ∷ q ∷ ps) h = refl

join_with-nil : (c : ℕ) (ps : List Text) → ps ≢ [] → join_with c ([] ∷ ps) ≡ c ∷ join_with c ps
unfolding join_with
join_with-nil c [] h = absurd (h refl)
join_with-nil c (p ∷ ps) h = refl

-- Joining what was split gives the text back.
pub join_with-split : (c : ℕ) (s : Text) → join_with c (split c s) ≡ s
unfolding split
join_with-split c [] = unfold join_with in refl
join_with-split c (x ∷ s) = ground (
  arith,
  join_with-split c s,
  split-ne-nil c s,
  join_with-cons_head c x (split c s),
  join_with-nil c (split c s),
)

pub split-append_sep : (c : ℕ) (a s : Text) → split c (a ++ (c ∷ s)) ≡ split c a ++ split c s
unfolding split
split-append_sep c [] s = ground arith
split-append_sep c (x ∷ a) s =
    ground (
      arith,
      split-append_sep c a s,
      cons_head_append c x (split c a) (split c s) (split-ne-nil c a),
    )
  where
    cons_head_append :
        (c x : ℕ) (ps qs : List Text) → ps ≢ [] → cons_head x (ps ++ qs) ≡ cons_head x ps ++ qs
    cons_head_append c x [] qs h = absurd (h refl)
    cons_head_append c x (p ∷ ps) qs h = unfold cons_head in refl

pub join_with-append :
    (c : ℕ) (p q : Text) (ps qs : List Text)
    → join_with c ((p ∷ ps) ++ (q ∷ qs)) ≡ join_with c (p ∷ ps) ++ (c ∷ join_with c (q ∷ qs))
unfolding join_with
join_with-append c p q [] qs = refl
join_with-append c p q (r ∷ ps) qs =
    ap (λ l. p ++ (c ∷ l)) (join_with-append c r q ps qs)
    ∙ sym (append_assoc p (c ∷ join_with c (r ∷ ps)) (c ∷ join_with c (q ∷ qs)))
