-- ===== src/Refspec/Examples.antt =====
-- Refspecs at concrete texts.
use just_git.Base.{
  index_of, ◌≡◌, refl, true, false, some, codes, is_some, includes_unit, base_functions,
}
use just_git.PathSafety.{first_is}
use just_git.Refspec.{
  star, colon, plus, Refspec, ends_with, split_spec, parse_refspec, matches_around, refspec_matches,
  matched, map_matching, map_refspec,
}
use just_git.Refspec.Mapped.{reversed, map_refspec-reversed}
use just_git.Refspec.ReadBack.{parse_refspec-printed}

abbrev fetch : Refspec
fetch = record { force = true; src = codes "refs/heads/*"; dst = codes "refs/remotes/origin/*" }

fetch_parsed : parse_refspec (codes "+refs/heads/*:refs/remotes/origin/*") ≡ fetch
unfolding parse_refspec split_spec index_of
fetch_parsed = refl

both_stars : is_some (index_of star fetch.src) ≡ is_some (index_of star fetch.dst)
unfolding index_of
both_stars = refl

main_mapped : map_refspec fetch (codes "refs/heads/main") ≡ some (codes "refs/remotes/origin/main")
unfolding map_refspec refspec_matches map_matching matches_around matched ends_with index_of
    base_functions
main_mapped = refl

map_refspec-reversed_example :
    map_refspec (reversed fetch) (codes "refs/remotes/origin/main") ≡ some (codes "refs/heads/main")
map_refspec-reversed_example =
    map_refspec-reversed fetch (codes "refs/heads/main") (codes "refs/remotes/origin/main")
      both_stars main_mapped

no_colon : includes_unit colon fetch.src ≡ false
unfolding includes_unit
no_colon = refl

no_plus : first_is plus fetch.src ≡ false
unfolding first_is
no_plus = refl

parse_refspec-printed_example : parse_refspec (codes "+refs/heads/*:refs/remotes/origin/*") ≡ fetch
parse_refspec-printed_example = parse_refspec-printed fetch no_colon no_plus
