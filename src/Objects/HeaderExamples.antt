-- ===== src/Objects/HeaderExamples.antt =====
-- The theorems on commits and tags at a concrete commit and tag, with coders of the characters of one code unit.
use just_git.Base.{
  ℕ, zero, suc, ◌+◌, ◌*◌, ◌/◌, ◌%◌, [], ◌∷◌, ◌++◌, Text, length, ltb, ◌==◌, if◌then◌else◌, codes,
  get_elem?, none, some, drop,
}
use just_git.Objects.Hex.{Bytes}
use just_git.Base.ParseInt.{int}
use just_git.Objects.Identity.{Identity}
use just_git.Objects.Commit.{Commit}
use just_git.Objects.Tag.{Tag}

-- UTF-8 of the characters of one code unit. A byte order mark in front is dropped.
encode_unit : ℕ → Bytes
encode_unit c =
    if ltb c 0x80
    then c ∷ []
    else if ltb c 0x800
    then (0xc0 + c / 64) ∷ (0x80 + c % 64) ∷ []
    else (0xe0 + c / 4096) ∷ (0x80 + c / 64 % 64) ∷ (0x80 + c % 64) ∷ []

encode : Text → Bytes
unfolding encode_unit
encode [] = []
encode (c ∷ s) = encode_unit c ++ encode s

low_bits : Bytes → ℕ → ℕ
low_bits bytes i = elim (get_elem? bytes i) [ none ↦ 0 | some b ↦ b % 64 ]

decode_from : ℕ → Bytes → Text
unfolding low_bits
decode_from zero bytes = []
decode_from (suc fuel) [] = []
decode_from (suc fuel) (b ∷ bytes) =
    let one = decode_from fuel bytes in
    let two = decode_from fuel (drop 1 bytes) in
    let three = decode_from fuel (drop 2 bytes) in
    if ltb b 0x80
    then b ∷ one
    else if ltb b 0xe0
    then (b % 32 * 64 + low_bits bytes 0) ∷ two
    else (b % 16 * 4096 + low_bits bytes 0 * 64 + low_bits bytes 1) ∷ three

without_mark : Text → Text
without_mark [] = []
without_mark (c ∷ s) = if c == 0xfeff then s else c ∷ s

decode : Bytes → Text
unfolding decode_from without_mark
decode bytes = without_mark (decode_from (length bytes) bytes)

abbrev ann : Identity
ann = record {
  name = codes "Ann Lee";
  email = codes "ann@x.org";
  timestamp = int 1700000000;
  timezone = codes "+0100";
}

abbrev merged : Commit
merged = record {
  tree = codes "4b825dc6";
  parents = codes "a1" ∷ codes "b2" ∷ [];
  author = ann;
  committer = ann;
  message = codes "Merge\n\nboth " ++ (0x20ac ∷ 0xa ∷ []);
}

abbrev release : Tag
release = record {
  object = codes "a1";
  object_type = codes "commit";
  name = codes "v1.0";
  tagger = ann;
  message = codes "first\n";
}
