-- ===== src/Path.antt =====
-- src/lib/path.ts: path manipulation on strings, with `/` as the only separator.
pub mod Normal
pub mod Inside
mod Examples
use just_git.Base.{
  ℕ, ◌-◌, ◌≡◌, refl, Bool, true, false, ◌&&◌, ◌||◌, not, Option, none, some, List, [], ◌∷◌, ◌++◌,
  Text, codes, text_eq, split, join_with, length, take, drop, leb, ltb, ◌==◌, if◌then◌else◌,
  reverse,
}
use just_git.PathSafety.{first_is, last_is}

abbrev pub slash : ℕ
slash = 0x2f

-- `result.pop()` and `result[result.length - 1]`
unfoldable pub pop : List Text → List Text
pop [] = []
pop (x ∷ []) = []
pop (x ∷ y ∷ xs) = x ∷ pop (y ∷ xs)

unfoldable pub last_is_up : List Text → Bool
last_is_up [] = false
last_is_up (x ∷ []) = text_eq x (codes "..")
last_is_up (x ∷ y ∷ xs) = last_is_up (y ∷ xs)

-- One round of the loop over the segments.
unfoldable pub push_segment : Bool → List Text → Text → List Text
unfolding pop last_is_up
push_segment is_abs result seg =
    if text_eq seg (codes "") || text_eq seg (codes ".")
    then result
    else if text_eq seg (codes "..")
    then (if is_abs
        then pop result
        else if ltb 0 (length result) && not (last_is_up result)
        then pop result
        else result ++ (codes ".." ∷ []))
    else result ++ (seg ∷ [])

unfoldable pub push_segments : Bool → List Text → List Text → List Text
unfolding push_segment
push_segments is_abs result [] = result
push_segments is_abs result (seg ∷ segs) =
    push_segments is_abs (push_segment is_abs result seg) segs

-- `out || e`
abbrev or_else : Text → Text → Text
or_else [] e = e
or_else (x ∷ s) e = x ∷ s

unfoldable pub normalize : Text → Text
normalize path =
    if text_eq path (codes "")
    then codes "."
    else if text_eq path (codes "/")
    then codes "/"
    else (let is_abs = first_is slash path in
        let trailing_slash = last_is slash path in
        let joined = join_with slash (push_segments is_abs [] (split slash path)) in
        let rooted : Text = if is_abs then slash ∷ joined else joined in
        let out : Text =
          if trailing_slash && ltb 1 (length rooted) && not (last_is slash rooted)
          then rooted ++ codes "/"
          else rooted in
        or_else out
          (if is_abs then codes "/" else if trailing_slash then codes "./" else codes "."))

-- `paths.filter((p) => p !== "")`
unfoldable pub drop_empty : List Text → List Text
drop_empty [] = []
drop_empty (p ∷ ps) =
    let rest = drop_empty ps in if not (text_eq p (codes "")) then p ∷ rest else rest

unfoldable pub join : List Text → Text
join paths =
    if length paths == 0
    then codes "."
    else (let joined = join_with slash (drop_empty paths) in
        if text_eq joined (codes "") then codes "." else normalize joined)

-- The loop of `resolve` from the right; the list is the reversed argument list.
resolve_from : List Text → Text → Text
unfolding first_is
resolve_from [] resolved = resolved
resolve_from (p ∷ ps) resolved = elim (length p == 0) [
  | true ↦ resolve_from ps resolved
  | false ↦
      (let next = if length resolved == 0 then p else p ++ (slash ∷ resolved) in
        elim (first_is slash p) [ true ↦ next | false ↦ resolve_from ps next ])
]

unfoldable pub resolve : List Text → Text
unfolding resolve_from normalize
resolve paths = normalize (or_else (resolve_from (reverse paths) []) (codes "."))

-- The path without its trailing slashes, but never shorter than one unit: the list is reversed.
strip_slashes : Text → Text
strip_slashes (x ∷ y ∷ s) =
    let rest = strip_slashes (y ∷ s) in if x == slash then rest else x ∷ y ∷ s
strip_slashes s = s

-- `s.lastIndexOf("/")` from the end of the reversed text: what stands before the slash, and behind.
split_last : Text → Text → Option (Text × Text)
split_last [] behind = none
split_last (x ∷ s) behind =
    let rest = split_last s (x ∷ behind) in if x == slash then some (reverse s, behind) else rest

unfoldable pub dirname : Text → Text
unfolding strip_slashes split_last
dirname path =
    if text_eq path (codes "")
    then codes "."
    else if text_eq path (codes "/")
    then codes "/"
    else elim (split_last (strip_slashes (reverse path)) []) [
      | none ↦ codes "."
      | some (before, behind) ↦ if length before == 0 then codes "/" else before
    ]

ends_with : Text → Text → Bool
ends_with s suffix =
    leb (length suffix) (length s) && text_eq (drop (length s - length suffix) s) suffix

unfoldable pub basename : Text → Option Text → Text
unfolding strip_slashes split_last ends_with
basename path ext =
    if text_eq path (codes "")
    then codes ""
    else (let trimmed = strip_slashes (reverse path) in
        if text_eq (reverse trimmed) (codes "/")
        then codes ""
        else (let base : Text = elim (split_last trimmed []) [
          | none ↦ reverse trimmed
          | some (before, behind) ↦ behind
        ] in
            elim ext [
              | none ↦ base
              | some e ↦
                  if ltb 0 (length e) && ends_with base e && ltb (length e) (length base)
                  then take (length base - length e) base
                  else base
            ]))

-- The components that both lists begin with are dropped.
drop_common : List Text → List Text → List Text × List Text
drop_common (a ∷ as') (b ∷ bs) =
    let rest = drop_common as' bs in if text_eq a b then rest else (a ∷ as', b ∷ bs)
drop_common as' bs = (as', bs)

strip_one_slash : Text → Text
unfolding last_is
strip_one_slash s = if ltb 1 (length s) && last_is slash s then take (length s - 1) s else s

parts_of : Text → List Text
parts_of s = if text_eq s (codes "/") then codes "" ∷ [] else split slash s

ups : List Text → List Text
ups [] = []
ups (x ∷ xs) = codes ".." ∷ ups xs

unfoldable pub relative : Text → Text → Text
unfolding normalize strip_one_slash parts_of drop_common ups first_is
relative from to =
    let from_norm = strip_one_slash (normalize from) in
    let to_norm = strip_one_slash (normalize to) in
    if text_eq from_norm to_norm
    then codes ""
    else (let start : ℕ = if first_is slash from_norm && first_is slash to_norm then 1 else 0 in
        let (from_rest, to_rest) =
          drop_common (drop start (parts_of from_norm)) (drop start (parts_of to_norm)) in
        or_else (join_with slash (ups from_rest ++ to_rest)) (codes "."))

path_runs :
    (normalize (codes "/a/./b/../c//d/") ≡ codes "/a/c/d/")
    × (normalize (codes "a/../../b") ≡ codes "../b")
    × (normalize (codes "/..") ≡ codes "/")
    × (join (codes "/work" ∷ codes "" ∷ codes "src/x" ∷ []) ≡ codes "/work/src/x")
    × (resolve (codes "/a" ∷ codes "/b" ∷ codes "c" ∷ []) ≡ codes "/b/c")
    × (dirname (codes "/a/b//") ≡ codes "/a")
    × (basename (codes "/a/b.ts//") (some (codes ".ts")) ≡ codes "b")
    × (relative (codes "/a/b/c") (codes "/a/d") ≡ codes "../../d")
unfolding normalize drop_empty join resolve dirname basename relative text_eq split join_with
    push_segments first_is last_is
path_runs = (refl, refl, refl, refl, refl, refl, refl, refl)
