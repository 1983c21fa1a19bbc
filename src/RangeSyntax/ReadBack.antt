-- ===== src/RangeSyntax/ReadBack.antt =====
-- Proofs about the parser of src/lib/range-syntax.ts.
use just_git.Base.{
  index_of_text, suc, ◌≡◌, refl, false, none, some, [], ◌∷◌, ◌++◌, arith, Text, length, starts_with,
  codes, text_eq, if◌then◌else◌, drop, take_append,
}
use just_git.PathSafety.{first_is}
use just_git.RangeSyntax.{
  dot, two_dots, three_dots, two_dot, three_dot, or_head, parse_range_syntax,
}

-- A text without two dots in a row that does not end with a dot.
abbrev pub IsLeft : Text → Type 0
IsLeft a = index_of_text two_dots (a ++ (dot ∷ [])) ≡ none

two-left : (a b : Text) → IsLeft a → index_of_text two_dots (a ++ (two_dots ++ b)) ≡ some (length a)
unfolding index_of_text starts_with
two-left [] b h = ground arith
two-left (x ∷ []) b h = ground (arith, h)
two-left (x ∷ y ∷ a) b h = ground (arith, h, two-left (y ∷ a) b)

three-left :
    (a b : Text) → IsLeft a → index_of_text three_dots (a ++ (three_dots ++ b)) ≡ some (length a)
unfolding index_of_text starts_with
three-left [] b h = ground arith
three-left (x ∷ []) b h = ground (arith, h)
three-left (x ∷ y ∷ a) b h = ground (arith, h, three-left (y ∷ a) b)

no_three :
    (a b : Text)
    → IsLeft a
    → first_is dot b ≡ false
    → index_of_text three_dots b ≡ none
    → index_of_text three_dots (a ++ (two_dots ++ b)) ≡ none
unfolding index_of_text starts_with first_is
no_three [] [] h f e = ground (arith, h)
no_three [] (c ∷ b) h f e = ground (arith, h, f, e)
no_three (x ∷ []) b h f e = ground (arith, h, f, e, no_three [] b)
no_three (x ∷ y ∷ a) b h f e = ground (arith, h, f, e, no_three (y ∷ a) b)

drop_three : (a b : Text) → drop (suc (suc (suc (length a)))) (a ++ (three_dots ++ b)) ≡ b
drop_three [] b = refl
drop_three (x ∷ a) b = drop_three a b

-- A side of a range, as it is meant: an empty one is HEAD.
abbrev pub side_or_head : Text → Text
side_or_head s = if text_eq s [] then codes "HEAD" else s

or_head_lem : (s : Text) → or_head s ≡ side_or_head s
unfolding or_head text_eq
or_head_lem [] = refl
or_head_lem (c ∷ s) = refl

drop_two : (a b : Text) → drop (suc (suc (length a))) (a ++ (two_dots ++ b)) ≡ b
drop_two [] b = refl
drop_two (x ∷ a) b = drop_two a b

-- The argument left...right, whose left side has no two dots in a row and does not end with a
-- dot, is parsed into its two sides, HEAD for an empty one.
pub parse_range_syntax-three_dot :
    (left right : Text)
    → IsLeft left
    → parse_range_syntax (left ++ (three_dots ++ right))
      ≡ some (three_dot (side_or_head left) (side_or_head right))
unfolding parse_range_syntax
parse_range_syntax-three_dot left right h = rw (
  three-left left right h,
  parse_range_syntax,
  take_append left (three_dots ++ right) (length left) refl,
  drop_three left right,
  or_head_lem left,
  or_head_lem right,
)

-- The argument left..right is parsed into its two sides, HEAD for an empty one, where the left
-- side has no two dots in a row and does not end with a dot, and the right side does not start
-- with a dot and holds no three in a row.
pub parse_range_syntax-two_dot :
    (left right : Text)
    → IsLeft left
    → first_is dot right ≡ false
    → index_of_text three_dots right ≡ none
    → parse_range_syntax (left ++ (two_dots ++ right))
      ≡ some (two_dot (side_or_head left) (side_or_head right))
unfolding parse_range_syntax
parse_range_syntax-two_dot left right h f e = rw (
  no_three left right h f e,
  two-left left right h,
  parse_range_syntax,
  take_append left (two_dots ++ right) (length left) refl,
  drop_two left right,
  or_head_lem left,
  or_head_lem right,
)
