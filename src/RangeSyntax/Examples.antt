-- ===== src/RangeSyntax/Examples.antt =====
-- The theorems on src/lib/range-syntax.ts at a concrete argument.
use just_git.Base.{index_of_text, ◌≡◌, refl, false, none, some, ◌++◌, Text, codes, starts_with}
use just_git.PathSafety.{first_is}
use just_git.RangeSyntax.{
  dot, two_dots, three_dots, two_dot, three_dot, or_head, parse_range_syntax,
}
use just_git.RangeSyntax.ReadBack.{
  IsLeft, side_or_head, parse_range_syntax-three_dot, parse_range_syntax-two_dot,
}

abbrev release : Text
release = codes "v1.0"

abbrev topic : Text
topic = codes "topic.a"

release-IsLeft : IsLeft release
unfolding index_of_text starts_with
release-IsLeft = refl

topic_first : first_is dot topic ≡ false
unfolding first_is
topic_first = refl

topic_dots : index_of_text three_dots topic ≡ none
unfolding index_of_text starts_with
topic_dots = refl

parse_range_syntax-three_dot_example :
    parse_range_syntax (release ++ (three_dots ++ topic))
    ≡ some (three_dot (side_or_head release) (side_or_head topic))
parse_range_syntax-three_dot_example = parse_range_syntax-three_dot release topic release-IsLeft

parse_range_syntax-two_dot_example :
    parse_range_syntax (release ++ (two_dots ++ topic))
    ≡ some (two_dot (side_or_head release) (side_or_head topic))
parse_range_syntax-two_dot_example =
    parse_range_syntax-two_dot release topic release-IsLeft topic_first topic_dots

missing_side : parse_range_syntax (release ++ two_dots) ≡ some (two_dot release (codes "HEAD"))
unfolding parse_range_syntax index_of_text starts_with or_head
missing_side = refl
