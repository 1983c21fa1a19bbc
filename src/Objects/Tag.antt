-- ===== src/Objects/Tag.antt =====
-- src/lib/objects/tag.ts: annotated tags as bytes. The text is split as that of a commit is.
use just_git.Base.{
  suc, Option, none, some, List, [], ◌∷◌, ◌++◌, Text, codes, text_eq, take, drop, split, join_with,
  index_of, if◌then◌else◌,
}
use just_git.Objects.Hex.{Bytes}
use just_git.Objects.Identity.{Identity, parse_identity, serialize_identity}
use just_git.Objects.Commit.{newline, split_message, header_line}

pub record Tag : Type 0 where
  pub object : Text
  pub object_type : Text
  pub name : Text
  pub tagger : Identity
  pub message : Text

pub data TagError : Type 0 where
  malformed_identity missing_object missing_name missing_tagger : TagError

pub data ParsedTag : Type 0 where
  tag : Tag → ParsedTag
  failed : TagError → ParsedTag

-- The variables of the loop on the header lines.
pub record TagFields : Type 0 where
  pub object : Text
  pub object_type : Text
  pub name : Text
  pub tagger : Option Identity

unfoldable pub read_tag_field : Text → Text → TagFields → Option TagFields
read_tag_field key value f =
    if text_eq key (codes "object")
    then some (record f { object = value })
    else if text_eq key (codes "type")
    then some (record f { object_type = value })
    else if text_eq key (codes "tag")
    then some (record f { name = value })
    else if text_eq key (codes "tagger")
    then elim (parse_identity value) as (λ _. Option TagFields) [
      | none ↦ none
      | some id ↦ some (record f { tagger = some id })
    ]
    else some f

unfoldable pub read_tag_line : Text → TagFields → Option TagFields
read_tag_line line f = elim (index_of 0x20 line) as (λ _. Option TagFields) [
  | none ↦ some f
  | some i ↦ read_tag_field (take i line) (drop (suc i) line) f
]

unfoldable pub read_tag_lines : List Text → TagFields → Option TagFields
read_tag_lines [] f = some f
read_tag_lines (line ∷ lines) f = elim (read_tag_line line f) as (λ _. Option TagFields) [
  | none ↦ none
  | some g ↦ read_tag_lines lines g
]

-- The checks behind the loop.
unfoldable pub finish_tag : Text → TagFields → ParsedTag
finish_tag message f =
    if text_eq f.object []
    then failed missing_object
    else if text_eq f.name []
    then failed missing_name
    else elim f.tagger as (λ _. ParsedTag) [
      | none ↦ failed missing_tagger
      | some tagger ↦ tag (record {
        object = f.object;
        object_type = f.object_type;
        name = f.name;
        tagger = tagger;
        message = message;
      })
    ]

abbrev pub no_tag_fields : TagFields
no_tag_fields = record { object = []; object_type = codes "commit"; name = []; tagger = none }

unfoldable pub parse_tag : (Bytes → Text) → Bytes → ParsedTag
parse_tag decode content =
    let parts = split_message (decode content) in
    elim (read_tag_lines (split newline parts.0) no_tag_fields) as (λ _. ParsedTag) [
      | none ↦ failed malformed_identity
      | some f ↦ finish_tag parts.1 f
    ]

unfoldable pub tag_header : Tag → List Text
tag_header t =
    header_line (codes "object") t.object
    ∷ header_line (codes "type") t.object_type
    ∷ header_line (codes "tag") t.name
    ∷ header_line (codes "tagger") (serialize_identity t.tagger)
    ∷ []

-- `lines.join("\n")`
unfoldable pub tag_text : Tag → Text
tag_text t = join_with newline (tag_header t ++ ([] ∷ t.message ∷ []))

unfoldable pub serialize_tag : (Text → Bytes) → Tag → Bytes
serialize_tag encode t = encode (tag_text t)
