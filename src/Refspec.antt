-- ===== src/Refspec.antt =====
-- src/lib/transport/refspec.ts: parsing of a refspec, matching and mapping of ref names.
pub mod Mapped
pub mod ReadBack
mod Examples
use just_git.Base.{
  index_of, ℕ, zero, suc, ◌+◌, ◌-◌, ◌≤◌, Bool, true, false, ◌&&◌, not, Option, none, some, List, [],
  ◌∷◌, ◌++◌, Text, text_eq, starts_with, length, take, drop, leb, ltb, ◌==◌, if◌then◌else◌,
}

abbrev pub star : ℕ
star = 0x2a

abbrev pub colon : ℕ
colon = 0x3a

abbrev pub plus : ℕ
plus = 0x2b

pub record Refspec : Type 0 where
  pub force : Bool
  pub src : Text
  pub dst : Text

-- `s.endsWith(t)`
unfoldable pub ends_with : Text → Text → Bool
ends_with s t = leb (length t) (length s) && text_eq (drop (length s - length t) s) t

unfoldable pub split_spec : Bool → Text → Refspec
split_spec force s = elim (index_of colon s) [
  | none ↦ record { force = force; src = s; dst = s }
  | some i ↦ record { force = force; src = take i s; dst = drop (suc i) s }
]

unfoldable pub parse_refspec : Text → Refspec
unfolding split_spec
parse_refspec [] = split_spec false []
parse_refspec (c ∷ s) = if c == plus then split_spec true s else split_spec false (c ∷ s)

-- The three tests on a pattern with a star, by what stands before and behind it.
unfoldable pub matches_around : Text → Text → Text → Bool
matches_around prefix suffix ref_name =
    starts_with ref_name prefix
    && ends_with ref_name suffix
    && leb (length prefix + length suffix) (length ref_name)

unfoldable pub refspec_matches : Text → Text → Bool
refspec_matches pattern ref_name = elim (index_of star pattern) [
  | none ↦ text_eq pattern ref_name
  | some i ↦ matches_around (take i pattern) (drop (suc i) pattern) ref_name
]

-- What the star of the source stands for.
unfoldable pub matched : Text → Text → Text → Text
matched prefix suffix ref_name =
    let end_idx =
      if ltb 0 (length suffix) then length ref_name - length suffix else length ref_name in
    take (end_idx - length prefix) (drop (length prefix) ref_name)

unfoldable pub map_matching : Refspec → Text → Text
map_matching spec ref_name = elim (index_of star spec.src) [
  | none ↦ spec.dst
  | some i ↦ elim (index_of star spec.dst) [
    | none ↦ spec.dst
    | some j ↦
        take j spec.dst
        ++ (matched (take i spec.src) (drop (suc i) spec.src) ref_name ++ drop (suc j) spec.dst)
  ]
]

unfoldable pub map_refspec : Refspec → Text → Option Text
map_refspec spec ref_name =
    if not (refspec_matches spec.src ref_name) then none else some (map_matching spec ref_name)
