-- ===== src/RefFormat/Examples.antt =====
-- Names of refs at concrete texts.
use just_git.Base.{◌≡◌, refl, true, false, ◌∷◌, ◌++◌, Text, codes, includes_unit, base_functions}
use just_git.PathSafety.{verify_path}
use just_git.RefFormat.{
  disposition, one_more, scan, is_refused_component, check_ref_name_component, check_components,
  check_ref_format,
}
use just_git.RefFormat.Safe.{check_ref_format-verify_path}

abbrev branch : Text
branch = codes "refs/heads/main"

branch_accepted : check_ref_format branch false false ≡ true
unfolding base_functions disposition one_more scan is_refused_component check_ref_name_component
    check_components check_ref_format
branch_accepted = refl

names_checked :
    (check_ref_format (codes "refs/heads/a..b") false false ≡ false)
    × (check_ref_format (codes "refs/heads/.a") false false ≡ false)
    × (check_ref_format (codes "refs/heads/a.lock") false false ≡ false)
    × (check_ref_format (codes "refs/heads/a@{1}") false false ≡ false)
    × (check_ref_format (codes "main") false false ≡ false)
    × (check_ref_format (codes "refs//main") false false ≡ false)
    × (check_ref_format (codes "refs/*/a") false true ≡ true)
unfolding base_functions disposition one_more scan is_refused_component check_ref_name_component
    check_components check_ref_format
names_checked = (refl, refl, refl, refl, refl, refl, refl)

-- A NUL ends a component as a slash does, and the name is accepted.
nul_accepted : check_ref_format (codes "refs/heads/a" ++ (0 ∷ codes "b")) false false ≡ true
unfolding base_functions disposition one_more scan is_refused_component check_ref_name_component
    check_components check_ref_format
nul_accepted = refl

no_nul : includes_unit 0 branch ≡ false
unfolding includes_unit
no_nul = refl

check_ref_format-verify_path_example : verify_path branch ≡ true
check_ref_format-verify_path_example =
    check_ref_format-verify_path branch false false no_nul branch_accepted
