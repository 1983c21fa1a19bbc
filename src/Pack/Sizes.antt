-- ===== src/Pack/Sizes.antt =====
-- Sizes in packs and deltas: `encodeSizeAt` of src/lib/pack/delta.ts, `readSizeEncoding` and the header of
-- an entry in src/lib/pack/packfile.ts. A number is the unsigned reading of its 32 bits.
use just_git.Base.{
  ℕ, zero, suc, ◌+◌, ◌*◌, ◌/◌, ◌%◌, ◌^◌, List, [], ◌∷◌, Bool, ◌-◌, ◌&&◌, ltb, ◌==◌, if◌then◌else◌,
}
use Prim.Native.Nat.{bit_and, bit_or}

abbrev pub Bytes : Type 0
Bytes = List ℕ

-- `value |= (byte & 0x7f) << shift`: JavaScript takes the shift modulo 32 and keeps 32 bits.
unfoldable pub add_bits : ℕ → ℕ → ℕ → ℕ
add_bits value byte shift = bit_or value (bit_and byte 0x7f * 2 ^ (shift % 32) % 2 ^ 32)

-- The loop on the bytes from the position on. A byte that is not there counts as 0 and ends the loop.
unfoldable pub read_size_from : ℕ → ℕ → Bytes → ℕ × Bytes
read_size_from value shift [] = (value, [])
read_size_from value shift (byte ∷ rest) =
    let next = add_bits value byte shift in
    let more = read_size_from next (shift + 7) rest in
    if bit_and byte 0x80 == 0 then (next, rest) else more

unfoldable pub read_size_encoding : Bytes → ℕ × Bytes
read_size_encoding bytes = read_size_from 0 0 bytes

-- The loop of `encodeSizeAt`. `s >>>= 7` keeps 32 bits, so that five rounds reach 0.
unfoldable pub encode_size_from : ℕ → ℕ → Bytes
encode_size_from zero s = []
encode_size_from (suc rounds) s =
    let byte = bit_and s 0x7f in
    let next = s % 2 ^ 32 / 128 in
    let more = encode_size_from rounds next in
    if ltb 0 next then bit_or byte 0x80 ∷ more else byte ∷ []

unfoldable pub encode_size_at : ℕ → Bytes
encode_size_at size = encode_size_from 5 size

-- `x >> k`, which keeps the sign of 32 bits.
unfoldable pub shift_right : ℕ → ℕ → ℕ
shift_right x k = if ltb x (2 ^ 31) then x / 2 ^ k else 2 ^ 32 - 1 - (2 ^ 32 - 1 - x) / 2 ^ k

-- `size > 0` of 32 bits with a sign.
unfoldable pub is_positive : ℕ → Bool
is_positive size = ltb 0 size && ltb size (2 ^ 31)

-- The loop of `encodeTypeSize`; four rounds reach 0. A type is below 8, so that what it pushes are bytes.
unfoldable pub encode_type_size_from : ℕ → ℕ → ℕ → Bytes
unfolding is_positive
encode_type_size_from zero byte size = byte ∷ []
encode_type_size_from (suc rounds) byte size =
    let more = encode_type_size_from rounds (bit_and size 0x7f) (shift_right size 7) in
    if is_positive size then bit_or byte 0x80 ∷ more else byte ∷ []

unfoldable pub encode_type_size : ℕ → ℕ → Bytes
encode_type_size type_num size =
    encode_type_size_from 5 (bit_or (type_num * 2 ^ 4 % 2 ^ 32) (bit_and size 0xf))
      (shift_right size 4)

-- The type, the size and what follows them, at the start of `readEntry`.
unfoldable pub read_type_size : Bytes → ℕ × ℕ × Bytes
read_type_size [] = (0, 0, [])
read_type_size (byte ∷ rest) =
    let type_num = bit_and (byte / 16) 7 in
    let size = bit_and byte 0xf in
    let more = read_size_from size 4 rest in
    if bit_and byte 0x80 == 0 then (type_num, size, rest) else (type_num, more.0, more.1)
