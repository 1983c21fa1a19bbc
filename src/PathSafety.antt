-- ===== src/PathSafety.antt =====
-- src/lib/path-safety.ts: the checks on paths that come from trees and from the index.
pub mod Ends
use just_git.Base.{
  ℕ, ◌+◌, ◌≡◌, refl, Bool, true, false, ◌&&◌, not, List, [], ◌∷◌, ◌++◌, Text, codes, text_eq,
  includes_unit, starts_with, split, map, length, leb, ltb, ◌==◌, if◌then◌else◌,
}

-- `toLowerCase` on one code unit. Beyond ASCII no single unit has `.`, `g`, `i` or `t` for its lower
-- case, so the letters A to Z decide the comparison with ".git".
to_lower : ℕ → ℕ
to_lower c = if leb 0x41 c && leb c 0x5a then c + 0x20 else c

unfoldable pub is_dot_git : Text → Bool
unfolding to_lower
is_dot_git component = length component == 4 && text_eq (map to_lower component) (codes ".git")

-- `s.charCodeAt(0) === c` and `s.charCodeAt(s.length - 1) === c`
unfoldable pub first_is : ℕ → Text → Bool
first_is c [] = false
first_is c (x ∷ s) = x == c

unfoldable pub last_is : ℕ → Text → Bool
last_is c [] = false
last_is c (x ∷ []) = x == c
last_is c (x ∷ y ∷ s) = last_is c (y ∷ s)

-- The tests in the loop of `verifyPath` that let a component pass.
unfoldable pub is_safe_component : Text → Bool
unfolding is_dot_git
is_safe_component c =
    not (length c == 0)
    && not (text_eq c (codes "."))
    && not (text_eq c (codes ".."))
    && not (is_dot_git c)

unfoldable pub all_components : (Text → Bool) → List Text → Bool
all_components test [] = true
all_components test (c ∷ cs) = test c && all_components test cs

unfoldable pub verify_path : Text → Bool
unfolding first_is last_is is_safe_component all_components
verify_path path =
    if length path == 0
    then false
    else if includes_unit 0 path
    then false
    else if first_is 0x2f path
    then false
    else if last_is 0x2f path
    then false
    else all_components is_safe_component (split 0x2f path)

unfoldable pub is_inside_work_tree : Text → Text → Bool
is_inside_work_tree work_tree full_path =
    if text_eq full_path work_tree
    then false
    else if text_eq work_tree (codes "/")
    then starts_with full_path (codes "/") && ltb 1 (length full_path)
    else starts_with full_path (work_tree ++ codes "/")

is_safe_target_component : Text → Bool
unfolding is_dot_git
is_safe_target_component c = not (text_eq c (codes "..")) && not (is_dot_git c)

unfoldable pub verify_symlink_target : Text → Bool
unfolding first_is is_safe_target_component all_components
verify_symlink_target target =
    if length target == 0
    then false
    else if first_is 0x2f target
    then false
    else all_components is_safe_target_component (split 0x2f target)

verify_path_runs :
    (verify_path (codes "src/a.txt") ≡ true)
    × (verify_path (codes "src/.GIT/config") ≡ false)
    × (verify_path (codes "../a") ≡ false)
    × (verify_path (codes "a//b") ≡ false)
    × (verify_symlink_target (codes "../x") ≡ false)
unfolding verify_path verify_symlink_target text_eq split includes_unit starts_with first_is last_is
verify_path_runs = (refl, refl, refl, refl, refl)
