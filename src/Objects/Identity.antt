-- ===== src/Objects/Identity.antt =====
-- src/lib/objects/identity.ts: the line of an author. The timestamp of an identity is the number that `parseInt`
-- reads, or NaN.
use just_git.Base.{
  ℕ, ◌+◌, ◌-◌, Option, none, some, List, [], ◌∷◌, ◌++◌, Text, codes, take, drop, split, index_of,
}
use just_git.Base.ParseInt.{ParsedInt, parse_int}
use just_git.Base.ParseInt.Decimal.{number_text, trim_end}

pub record Identity : Type 0 where
  pub name : Text
  pub email : Text
  pub timestamp : ParsedInt
  pub timezone : Text

-- `rest.split(" ")[0]`; the default is for a part that is not there, and there is always one.
unfoldable pub raw_timestamp : List Text → Text
raw_timestamp [] = codes "0"
raw_timestamp (raw ∷ parts) = raw

unfoldable pub zone_or_default : List Text → Text
zone_or_default [] = codes "+0000"
zone_or_default (raw ∷ []) = codes "+0000"
zone_or_default (raw ∷ zone ∷ parts) = zone

-- The identity between the positions of the angle brackets.
unfoldable pub identity_at : Text → ℕ → ℕ → Identity
unfolding raw_timestamp zone_or_default
identity_at line email_start email_end =
    let parts = split 0x20 (drop (email_end + 2) line) in
    record {
      name = trim_end (take email_start line);
      email = take (email_end - (email_start + 1)) (drop (email_start + 1) line);
      timestamp = parse_int (raw_timestamp parts) 10;
      timezone = zone_or_default parts;
    }

-- `none` is the error.
unfoldable pub parse_identity : Text → Option Identity
unfolding identity_at
parse_identity line = elim (index_of 0x3c line) as (λ _. Option Identity) [
  | none ↦ none
  | some email_start ↦ elim (index_of 0x3e line) as (λ _. Option Identity) [
    | none ↦ none
    | some email_end ↦ some (identity_at line email_start email_end)
  ]
]

unfoldable pub serialize_identity : Identity → Text
serialize_identity id =
    id.name
    ++ (0x20
        ∷ 0x3c
        ∷ (id.email ++ (0x3e ∷ 0x20 ∷ (number_text id.timestamp ++ (0x20 ∷ id.timezone)))))
