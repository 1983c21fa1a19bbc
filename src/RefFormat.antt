-- ===== src/RefFormat.antt =====
-- The names of refs: `checkRefFormat` of src/lib/refs.ts. The flags are two Booleans, for a name of
-- one level and for one `*`.
pub mod Safe
pub mod Fuel
mod Examples
use just_git.Base.{
  ℕ, zero, suc, ◌-◌, Bool, false, not, ◌&&◌, ◌||◌, Option, none, some, [], ◌∷◌, ◌++◌, Text, codes,
  length, take, drop, text_eq, starts_with, ltb, leb, ◌==◌, if◌then◌else◌,
}

abbrev pub slash : ℕ
slash = 0x2f

abbrev pub dot : ℕ
dot = 0x2e

abbrev pub lock_suffix : Text
lock_suffix = codes ".lock"

-- The table `DISP` as tests; a code unit from 128 on is acceptable.
unfoldable pub disposition : ℕ → ℕ
disposition c =
    if c == 0 || c == 0x2f
    then 1
    else if c == 0x2e
    then 2
    else if c == 0x7b
    then 3
    else if ltb c 0x21
        || c == 0x3a
        || c == 0x3f
        || c == 0x5b
        || c == 0x5c
        || c == 0x5e
        || c == 0x7e
        || c == 0x7f
    then 4
    else if c == 0x2a
    then 5
    else 0

-- How far a component reaches and whether a star was consumed, or the length -1.
pub data Scanned : Type 0 where
  refused : Scanned
  scanned : ℕ → Bool → Scanned

unfoldable pub one_more : Scanned → Scanned
one_more refused = refused
one_more (scanned n star) = scanned (suc n) star

unfoldable pub scan : Bool → ℕ → Bool → Text → Scanned
unfolding one_more
scan allow_star last star [] = scanned 0 star
scan allow_star last star (c ∷ s) =
    let d = disposition c in
    let rest = one_more (scan allow_star c (star || d == 5) s) in
    if d == 1
    then scanned 0 star
    else if d == 4
        || (d == 2 && last == 0x2e)
        || (d == 3 && last == 0x40)
        || (d == 5 && not allow_star)
    then refused
    else rest

-- The tests on a component of length `n` at the front of `s`.
unfoldable pub is_refused_component : Text → ℕ → Bool
is_refused_component s n =
    starts_with s (dot ∷ [])
    || (leb (length lock_suffix) n
        && text_eq (take (length lock_suffix) (drop (n - length lock_suffix) s)) lock_suffix)

unfoldable pub check_ref_name_component : Bool → Text → Scanned
unfolding is_refused_component scan
check_ref_name_component allow_star s = elim (scan allow_star 0 false s) [
  | refused ↦ refused
  | scanned n star ↦
      if n == 0
      then scanned 0 star
      else if is_refused_component s n
      then refused
      else scanned n star
]

-- The loop on the components: their number. A round takes one code unit at least.
unfoldable pub check_components : ℕ → Bool → Text → Option ℕ
check_components zero allow_star s = none
check_components (suc fuel) allow_star s = elim (check_ref_name_component allow_star s) [
  | refused ↦ none
  | scanned n star ↦ elim n [
    | zero ↦ none
    | suc m ↦
        if leb (length s) (suc m)
        then some 1
        else elim (check_components fuel (allow_star && not star) (drop (suc (suc m)) s)) [
          | none ↦ none
          | some k ↦ some (suc k)
        ]
  ]
]

unfoldable pub ends_with_dot : Text → Bool
ends_with_dot [] = false
ends_with_dot (c ∷ []) = c == dot
ends_with_dot (c ∷ d ∷ s) = ends_with_dot (d ∷ s)

unfoldable pub check_ref_format : Text → Bool → Bool → Bool
unfolding ends_with_dot
check_ref_format refname allow_onelevel refspec_pattern =
    if text_eq refname (codes "@") || length refname == 0
    then false
    else elim (check_components (length refname) refspec_pattern refname) [
      | none ↦ false
      | some components ↦ not (ends_with_dot refname) && (allow_onelevel || leb 2 components)
    ]

unfoldable pub is_valid_branch_name : Text → Bool
is_valid_branch_name name =
    not (length name == 0)
    && not (starts_with name (codes "-"))
    && check_ref_format (codes "refs/heads/" ++ name) false false

unfoldable pub is_valid_tag_name : Text → Bool
is_valid_tag_name name =
    not (length name == 0) && check_ref_format (codes "refs/tags/" ++ name) false false
