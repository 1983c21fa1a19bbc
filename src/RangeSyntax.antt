-- ===== src/RangeSyntax.antt =====
-- src/lib/range-syntax.ts: the ranges `left..right` and `left...right` of an argument.
pub mod ReadBack
mod Examples
use just_git.Base.{
  index_of_text, ℕ, suc, Bool, true, false, Option, none, some, List, [], ◌∷◌, Text, codes,
  starts_with, take, drop, if◌then◌else◌,
}

abbrev pub dot : ℕ
dot = 0x2e

abbrev pub two_dots : Text
two_dots = dot ∷ dot ∷ []

abbrev pub three_dots : Text
three_dots = dot ∷ dot ∷ dot ∷ []

pub data RangeSyntax : Type 0 where
  two_dot : Text → Text → RangeSyntax
  three_dot : Text → Text → RangeSyntax

-- `s || "HEAD"`
unfoldable pub or_head : Text → Text
or_head [] = codes "HEAD"
or_head (c ∷ s) = c ∷ s

unfoldable pub parse_range_syntax : Text → Option RangeSyntax
parse_range_syntax arg = elim (index_of_text three_dots arg) as (λ _. Option RangeSyntax) [
  | some i ↦ some (three_dot (or_head (take i arg)) (or_head (drop (suc (suc (suc i))) arg)))
  | none ↦ elim (index_of_text two_dots arg) as (λ _. Option RangeSyntax) [
    | some i ↦ some (two_dot (or_head (take i arg)) (or_head (drop (suc (suc i)) arg)))
    | none ↦ none
  ]
]
