-- ===== src/Path/Examples.antt =====
-- The theorems on paths at concrete inputs.
use just_git.Base.{◌≡◌, refl, List, [], ◌∷◌, ◌++◌, Text, codes, split, base_functions, true, All}
use just_git.PathSafety.{verify_path, is_inside_work_tree}
use just_git.Path.{slash, normalize, join}
use just_git.Path.Normal.{IsPlain, IsNormal, rooted, normalize-IsNormal, normalize-normalize}
use just_git.Path.Inside.{join-verify_path}

abbrev work : List Text
work = codes "work" ∷ codes "tree" ∷ []

work-IsPlain : All IsPlain work
unfolding base_functions
work-IsPlain = (
  record { part = refl; not_empty = refl; not_dot = refl; not_up = refl },
  (record { part = refl; not_empty = refl; not_dot = refl; not_up = refl }, tt),
)

join-verify_path_example :
    (join (rooted work ∷ codes "src/a.txt" ∷ []) ≡ rooted (work ++ split slash (codes "src/a.txt")))
    × (is_inside_work_tree (rooted work) (join (rooted work ∷ codes "src/a.txt" ∷ [])) ≡ true)
unfolding verify_path base_functions
join-verify_path_example = join-verify_path work (codes "src/a.txt") work-IsPlain refl

normalize-IsNormal_example : IsNormal (normalize (codes "/a/./../b//c/"))
normalize-IsNormal_example = normalize-IsNormal (codes "a/./../b//c/")

normalize-normalize_example :
    normalize (normalize (codes "/a/./../b//c/")) ≡ normalize (codes "/a/./../b//c/")
normalize-normalize_example = normalize-normalize (codes "a/./../b//c/")
