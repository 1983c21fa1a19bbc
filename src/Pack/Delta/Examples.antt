-- ===== src/Pack/Delta/Examples.antt =====
-- Deltas at concrete contents.
use just_git.Base.{
  ◌≡◌, refl, Option, none, some, List, [], ◌∷◌, ◌++◌, arith, codes, sort_by, filter,
}
use just_git.Pack.Sizes.{
  Bytes, read_size_encoding, read_size_from, add_bits, encode_size_from, encode_size_at,
}
use just_git.Pack.Delta.Apply.{ok, apply_from, apply_delta}
use just_git.Pack.Delta.Match.{DeltaIndex, find_match, bucket_of, match_len}
use just_git.Pack.Delta.Create.{delta, create_delta}
use just_git.Pack.Delta.Index.{create_delta_index}
use just_git.Pack.Delta.Correct.{Rebuilds, create_delta-apply_delta}
use just_git.Pack.Delta.Whole.{IsApplied, apply_delta-IsApplied}
use just_git.Pack.Delta.Search.{DeltaObject, object_before, find_best_deltas}
use just_git.Pack.Delta.Based.{AllFrom, IsBased, find_best_deltas-IsBased}

-- The bytes from 1 on.
abbrev sample : Bytes
sample =
    1 ∷ 2 ∷ 3 ∷ 4 ∷ 5 ∷ 6 ∷ 7 ∷ 8 ∷ 9 ∷ 10 ∷ 11 ∷ 12 ∷ 13 ∷ 14 ∷ 15 ∷ 16 ∷ 17 ∷ 18 ∷ 19 ∷ 20 ∷ 21
    ∷ 22 ∷ 23 ∷ 24 ∷ 25 ∷ 26 ∷ 27 ∷ 28 ∷ 29 ∷ 30 ∷ 31 ∷ 32 ∷ 33 ∷ 34 ∷ 35 ∷ 36 ∷ 37 ∷ 38 ∷ 39 ∷ 40
    ∷ []

abbrev changed : Bytes
changed = 99 ∷ 98 ∷ (sample ++ (77 ∷ []))

-- Two bytes inserted, a copy that is extended backward to the start of the source, and a byte inserted.
sample_delta :
    (elim (create_delta_index sample) as (λ _. Option Bytes) [
      | none ↦ none
      | some index ↦ elim (create_delta (some index) changed none) as (λ _. Option Bytes) [
        | delta bytes ↦ some bytes
        | _ ↦ none
      ]
    ])
    ≡ some (40 ∷ 43 ∷ 2 ∷ 99 ∷ 98 ∷ 0x90 ∷ 40 ∷ 1 ∷ 77 ∷ [])
unfolding create_delta_index create_delta encode_size_at encode_size_from find_match bucket_of
    match_len filter
sample_delta = refl

abbrev block_index : DeltaIndex
block_index = record {
  src = sample;
  hash_mask = 15;
  buckets = 0 ∷ 0 ∷ 0 ∷ 0 ∷ 0 ∷ 0 ∷ 0 ∷ 2 ∷ 2 ∷ 2 ∷ 2 ∷ 2 ∷ 2 ∷ 2 ∷ 2 ∷ 2 ∷ 2 ∷ [];
  entries = record { ptr = 32; val = 5762518 } ∷ record { ptr = 16; val = 1022486710 } ∷ [];
}

create_delta-apply_delta_example :
    Rebuilds sample changed none (create_delta (some block_index) changed none)
create_delta-apply_delta_example =
    create_delta-apply_delta block_index changed none (omega arith) (omega arith) (omega arith)

apply_delta-IsApplied_example :
    IsApplied sample (40 ∷ 3 ∷ 0x90 ∷ 3 ∷ []) (apply_delta sample (40 ∷ 3 ∷ 0x90 ∷ 3 ∷ []))
apply_delta-IsApplied_example = apply_delta-IsApplied sample (40 ∷ 3 ∷ 0x90 ∷ 3 ∷ [])

abbrev blobs : List DeltaObject
blobs =
    record { kind = codes "blob"; content = sample; hash = codes "a1" }
    ∷ record { kind = codes "blob"; content = changed; hash = codes "b2" }
    ∷ []

find_best_deltas-IsBased_example :
    AllFrom (IsBased 50 (sort_by object_before blobs)) 0 (find_best_deltas 10 50 blobs)
find_best_deltas-IsBased_example = find_best_deltas-IsBased 10 50 blobs (omega arith)

-- An instruction that announces three bytes and has one: the others are zeros.
cut_off : apply_delta [] (0 ∷ 3 ∷ 3 ∷ 7 ∷ []) ≡ ok (7 ∷ 0 ∷ 0 ∷ [])
unfolding apply_delta read_size_encoding read_size_from add_bits apply_from
cut_off = refl
