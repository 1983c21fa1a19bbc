-- ===== src/Pack/Examples.antt =====
-- Sizes at concrete numbers.
use just_git.Base.{◌+◌, ◌-◌, ◌^◌, ◌≡◌, refl, [], ◌∷◌, ◌++◌, arith}
use just_git.Pack.Sizes.{
  encode_size_from, encode_size_at, read_size_encoding, encode_type_size_from, encode_type_size,
  read_type_size, shift_right,
}
use just_git.Pack.Offsets.{
  below, encode_ofs_offset, offset_front, read_offset, read_offset_from,
  read_offset-encode_ofs_offset,
}
use just_git.Pack.ReadBack.{read_size_encoding-encode_size_at}
use just_git.Pack.Header.{read_type_size-encode_type_size}

three_hundred : encode_size_at 300 ≡ 0xac ∷ 2 ∷ []
unfolding encode_size_at encode_size_from
three_hundred = refl

-- A blob of 300 bytes.
blob_header : encode_type_size 3 300 ≡ 0xbc ∷ 0x12 ∷ []
unfolding encode_type_size encode_type_size_from shift_right
blob_header = refl

read_size_encoding-encode_size_at_example :
    read_size_encoding (encode_size_at 300 ++ (7 ∷ [])) ≡ (300, 7 ∷ [])
read_size_encoding-encode_size_at_example =
    read_size_encoding-encode_size_at 300 (7 ∷ []) (omega arith)

read_type_size-encode_type_size_example :
    read_type_size (encode_type_size 3 300 ++ (7 ∷ [])) ≡ (3, 300, 7 ∷ [])
read_type_size-encode_type_size_example =
    read_type_size-encode_type_size 3 300 (7 ∷ []) (omega arith) (omega arith)

-- The byte in front stands for (1 + 1) * 128.
offset_300 : encode_ofs_offset 300 ≡ 0x81 ∷ 0x2c ∷ []
unfolding encode_ofs_offset offset_front
offset_300 = refl

read_offset-encode_ofs_offset_example :
    read_offset (encode_ofs_offset (2 ^ 31 + 300) ++ (7 ∷ [])) ≡ (below (2 ^ 31 - 300), 7 ∷ [])
read_offset-encode_ofs_offset_example =
    read_offset-encode_ofs_offset (2 ^ 31 + 300) (7 ∷ []) (omega arith)

-- A distance of 2 ^ 31 is read as a negative one.
offset_too_far : read_offset (encode_ofs_offset (2 ^ 31)) ≡ (below (2 ^ 31), [])
unfolding encode_ofs_offset offset_front read_offset read_offset_from
offset_too_far = refl
