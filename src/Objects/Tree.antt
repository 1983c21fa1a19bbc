-- ===== src/Objects/Tree.antt =====
-- src/lib/objects/tree.ts: trees as bytes. `TextEncoder.encode` and `TextDecoder.decode` are parameters.
use just_git.Base.{
  ℕ, zero, suc, ◌-◌, ◌||◌, not, Option, none, some, List, [], ◌∷◌, ◌++◌, Text, codes, text_eq,
  includes_unit, some_of, length, take, drop, ◌==◌, if◌then◌else◌,
}
use just_git.PathSafety.{is_dot_git}
use just_git.Objects.Hex.{Bytes, bytes_to_hex, hex_to_bytes}

pub record TreeEntry : Type 0 where
  pub mode : Text
  pub name : Text
  pub hash : Text

pub data TreeError : Type 0 where
  empty_name contains_slash contains_null dot_name dot_git bad_mode : TreeError

pub data Parsed : Type 0 where
  tree : List TreeEntry → Parsed
  failed : TreeError → Parsed
  -- The fuel ran out.
  stuck : Parsed

abbrev pub valid_modes : List Text
valid_modes =
    codes "100644" ∷ codes "100755" ∷ codes "040000" ∷ codes "120000" ∷ codes "160000" ∷ []

unfoldable pub validate_tree_entry : Text → Text → Option TreeError
validate_tree_entry name mode =
    if length name == 0
    then some empty_name
    else if includes_unit 0x2f name
    then some contains_slash
    else if includes_unit 0 name
    then some contains_null
    else if text_eq name (codes ".") || text_eq name (codes "..")
    then some dot_name
    else if is_dot_git name
    then some dot_git
    else if not (some_of (λ m. text_eq m mode) valid_modes)
    then some bad_mode
    else none

-- `indexOf(u)` with what stands before and behind it.
unfoldable pub cut : ℕ → Bytes → Option (Bytes × Bytes)
cut u [] = none
cut u (b ∷ bytes) =
    if b == u then some ([], bytes) else elim (cut u bytes) as (λ _. Option (Bytes × Bytes)) [
      | none ↦ none
      | some r ↦ some (b ∷ r.0, r.1)
    ]

unfoldable pub zeros : ℕ → Text
zeros zero = []
zeros (suc n) = 0x30 ∷ zeros n

-- `mode.padStart(6, "0")`
unfoldable pub pad_mode : Text → Text
unfolding zeros
pad_mode mode = zeros (6 - length mode) ++ mode

-- `mode.replace(/^0+/, "")`
unfoldable pub strip_zeros : Text → Text
strip_zeros [] = []
strip_zeros (c ∷ s) = let rest = strip_zeros s in if c == 0x30 then rest else c ∷ s

unfoldable pub cons_entry : TreeEntry → Parsed → Parsed
cons_entry e (tree es) = tree (e ∷ es)
cons_entry e (failed x) = failed x
cons_entry e stuck = stuck

-- The checks and the rest of the loop for an entry that was read.
unfoldable pub push_entry : TreeEntry → Parsed → Parsed
push_entry e rest = elim (validate_tree_entry e.name e.mode) [
  | some x ↦ failed x
  | none ↦ cons_entry e rest
]

-- The loop, on what stands from `offset` on. A round takes two bytes at least.
unfoldable pub parse_entries : (Bytes → Text) → ℕ → Bytes → Parsed
parse_entries decode fuel [] = tree []
parse_entries decode zero (b ∷ content) = stuck
parse_entries decode (suc fuel) (b ∷ content) = elim (cut 0x20 (b ∷ content)) as (λ _. Parsed) [
  | none ↦ tree []
  | some m ↦ elim (cut 0 m.1) as (λ _. Parsed) [
    | none ↦ tree []
    | some n ↦
        push_entry
          (record {
            mode = pad_mode (decode m.0);
            name = decode n.0;
            hash = bytes_to_hex (take 20 n.1);
          })
          (parse_entries decode fuel (drop 20 n.1))
  ]
]

unfoldable pub parse_tree : (Bytes → Text) → Bytes → Parsed
parse_tree decode content = parse_entries decode (length content) content

unfoldable pub serialize_entry : (Text → Bytes) → TreeEntry → Bytes
serialize_entry encode entry =
    encode (strip_zeros entry.mode ++ (0x20 ∷ (entry.name ++ (0 ∷ [])))) ++ hex_to_bytes entry.hash

unfoldable pub serialize_tree : (Text → Bytes) → List TreeEntry → Bytes
serialize_tree encode [] = []
serialize_tree encode (entry ∷ entries) =
    serialize_entry encode entry ++ serialize_tree encode entries
