-- ===== src/Objects/Commit.antt =====
-- src/lib/objects/commit.ts: commits as bytes. `TextEncoder.encode` and `TextDecoder.decode` are parameters.
use just_git.Base.{
  ℕ, suc, Option, none, some, List, [], ◌∷◌, ◌++◌, map, Text, codes, text_eq, take, drop, split,
  join_with, index_of, index_of_text, if◌then◌else◌,
}
use just_git.Objects.Hex.{Bytes}
use just_git.Objects.Identity.{Identity, parse_identity, serialize_identity}

abbrev pub newline : ℕ
newline = 0xa

abbrev pub blank_line : Text
blank_line = newline ∷ newline ∷ []

pub record Commit : Type 0 where
  pub tree : Text
  pub parents : List Text
  pub author : Identity
  pub committer : Identity
  pub message : Text

pub data CommitError : Type 0 where
  malformed_identity missing_tree missing_author missing_committer : CommitError

pub data ParsedCommit : Type 0 where
  commit : Commit → ParsedCommit
  failed : CommitError → ParsedCommit

-- The variables of the loop on the header lines.
pub record Fields : Type 0 where
  pub tree : Text
  pub parents : List Text
  pub author : Option Identity
  pub committer : Option Identity

-- `none` is the error of an identity.
unfoldable pub read_field : Text → Text → Fields → Option Fields
read_field key value f =
    if text_eq key (codes "tree")
    then some (record f { tree = value })
    else if text_eq key (codes "parent")
    then some (record f { parents = f.parents ++ (value ∷ []) })
    else if text_eq key (codes "author")
    then elim (parse_identity value) as (λ _. Option Fields) [
      | none ↦ none
      | some id ↦ some (record f { author = some id })
    ]
    else if text_eq key (codes "committer")
    then elim (parse_identity value) as (λ _. Option Fields) [
      | none ↦ none
      | some id ↦ some (record f { committer = some id })
    ]
    else some f

unfoldable pub read_line : Text → Fields → Option Fields
unfolding read_field
read_line line f = elim (index_of 0x20 line) as (λ _. Option Fields) [
  | none ↦ some f
  | some i ↦ read_field (take i line) (drop (suc i) line) f
]

unfoldable pub read_lines : List Text → Fields → Option Fields
unfolding read_line
read_lines [] f = some f
read_lines (line ∷ lines) f = elim (read_line line f) as (λ _. Option Fields) [
  | none ↦ none
  | some g ↦ read_lines lines g
]

-- The checks behind the loop.
unfoldable pub finish_commit : Text → Fields → ParsedCommit
finish_commit message f =
    if text_eq f.tree [] then failed missing_tree else elim f.author as (λ _. ParsedCommit) [
      | none ↦ failed missing_author
      | some author ↦ elim f.committer as (λ _. ParsedCommit) [
        | none ↦ failed missing_committer
        | some committer ↦ commit (record {
          tree = f.tree;
          parents = f.parents;
          author = author;
          committer = committer;
          message = message;
        })
      ]
    ]

abbrev pub no_fields : Fields
no_fields = record { tree = []; parents = []; author = none; committer = none }

-- The text before the first blank line, and the text behind it.
unfoldable pub split_message : Text → Text × Text
split_message text = elim (index_of_text blank_line text) as (λ _. Text × Text) [
  | none ↦ (text, [])
  | some i ↦ (take i text, drop (suc (suc i)) text)
]

unfoldable pub parse_commit : (Bytes → Text) → Bytes → ParsedCommit
parse_commit decode content =
    let parts = split_message (decode content) in
    elim (read_lines (split newline parts.0) no_fields) as (λ _. ParsedCommit) [
      | none ↦ failed malformed_identity
      | some f ↦ finish_commit parts.1 f
    ]

abbrev pub header_line : Text → Text → Text
header_line key value = key ++ (0x20 ∷ value)

-- The lines before the blank one.
unfoldable pub commit_header : Commit → List Text
commit_header c =
    header_line (codes "tree") c.tree
    ∷ (map (λ parent. header_line (codes "parent") parent) c.parents
        ++ (header_line (codes "author") (serialize_identity c.author)
            ∷ header_line (codes "committer") (serialize_identity c.committer)
            ∷ []))

-- `lines.join("\n")`
unfoldable pub commit_text : Commit → Text
unfolding commit_header
commit_text c = join_with newline (commit_header c ++ ([] ∷ c.message ∷ []))

unfoldable pub serialize_commit : (Text → Bytes) → Commit → Bytes
unfolding commit_text
serialize_commit encode c = encode (commit_text c)
