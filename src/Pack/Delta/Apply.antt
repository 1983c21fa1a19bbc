-- ===== src/Pack/Delta/Apply.antt =====
-- `applyDelta` of src/lib/pack/packfile.ts. A number of 32 bits is its unsigned reading, a position in the
-- delta is the bytes that follow it, `none` is `undefined`.
use just_git.Base.{
  ℕ, zero, suc, ◌+◌, ◌-◌, ◌*◌, ◌%◌, ◌^◌, ◌&&◌, Option, none, some, [], ◌∷◌, ◌++◌, length, take,
  drop, ltb, leb, ◌==◌, if◌then◌else◌,
}
use just_git.Base.Cuts.{clamp_index}
use Prim.Native.Nat.{bit_and, bit_or}
use just_git.Pack.Sizes.{Bytes, read_size_encoding}

pub data DeltaError : Type 0 where
  base_size_mismatch range_error reserved_opcode target_size_mismatch : DeltaError
  -- The fuel ran out.
  stuck : DeltaError

pub data Applied : Type 0 where
  ok : Bytes → Applied
  err : DeltaError → Applied

-- `new Uint8Array(n)`
unfoldable pub zeros : ℕ → Bytes
zeros zero = []
zeros (suc n) = 0 ∷ zeros n

-- `target.set(chunk, pos)`, which throws a RangeError where the chunk does not fit.
unfoldable pub set_at : Bytes → ℕ → Bytes → Option Bytes
set_at target pos chunk =
    if leb (pos + length chunk) (length target)
    then some (take pos target ++ (chunk ++ drop (pos + length chunk) target))
    else none

-- `base.subarray(offset, offset + count)`, the offset a number of 32 bits with a sign.
unfoldable pub sub_array : Bytes → ℕ → ℕ → Bytes
unfolding clamp_index
sub_array base offset count =
    let n = length base in
    let up = if ltb offset (2 ^ 31) then offset else 0 in
    let back = if ltb offset (2 ^ 31) then 0 else 2 ^ 32 - offset in
    let first = clamp_index n up back in
    take (clamp_index n (up + count) back - first) (drop first base)

-- `delta[pos++]!`
unfoldable pub next_byte : Bytes → Option ℕ × Bytes
next_byte [] = (none, [])
next_byte (b ∷ rest) = (some b, rest)

-- In a bit operation `undefined` is 0.
abbrev pub as_bits : Option ℕ → ℕ
as_bits none = 0
as_bits (some v) = v

-- `let v = 0; if (cmd & bit) v = delta[pos++]!`
unfoldable pub low_byte : ℕ → ℕ → Bytes → Option ℕ × Bytes
unfolding next_byte
low_byte cmd bit rest = if bit_and cmd bit == 0 then (some 0, rest) else next_byte rest

-- `if (cmd & bit) v |= delta[pos++]! << shift`
unfoldable pub high_byte : ℕ → ℕ → ℕ → Option ℕ × Bytes → Option ℕ × Bytes
unfolding next_byte
high_byte cmd bit shift (v, rest) =
    if bit_and cmd bit == 0
    then (v, rest)
    else let next = next_byte rest in
      (some (bit_or (as_bits v) (as_bits next.0 * 2 ^ shift % 2 ^ 32)), next.1)

unfoldable pub copy_offset : ℕ → Bytes → Option ℕ × Bytes
unfolding low_byte high_byte
copy_offset cmd rest =
    high_byte cmd 0x08 24 (high_byte cmd 0x04 16 (high_byte cmd 0x02 8 (low_byte cmd 0x01 rest)))

-- `if (cpSize === 0) cpSize = 0x10000`
unfoldable pub full_size : Option ℕ → Option ℕ
full_size none = none
full_size (some n) = if n == 0 then some 0x10000 else some n

unfoldable pub copy_size : ℕ → Bytes → Option ℕ × Bytes
unfolding low_byte high_byte full_size
copy_size cmd rest =
    let read = high_byte cmd 0x40 16 (high_byte cmd 0x20 8 (low_byte cmd 0x10 rest)) in
    (full_size read.0, read.1)

-- An offset or a size that is `undefined` makes the chunk empty.
unfoldable pub copy_chunk : Bytes → Option ℕ → Option ℕ → Bytes
copy_chunk base none size = []
copy_chunk base (some offset) none = []
copy_chunk base (some offset) (some size) = sub_array base offset size

-- `if (tPos !== targetSize) throw`, at the end of the delta.
unfoldable pub finish_target : Bytes → ℕ → Applied
finish_target target pos = if pos == length target then ok target else err target_size_mismatch

-- A size that is `undefined` makes the position NaN; the delta has ended then.
unfoldable pub advance : ℕ → Option ℕ → Option ℕ
advance pos none = none
advance pos (some size) = some (pos + size)

-- The loop on the instructions.
unfoldable pub apply_from : ℕ → Bytes → Bytes → Bytes → ℕ → Applied
unfolding set_at finish_target advance
apply_from fuel base [] target pos = finish_target target pos
apply_from zero base (cmd ∷ rest) target pos = err stuck
apply_from (suc fuel) base (cmd ∷ rest) target pos =
    if bit_and cmd 0x80 == 0
    then if cmd == 0
      then err reserved_opcode
      else elim (set_at target pos (take cmd rest)) as (λ _. Applied) [
        | none ↦ err range_error
        | some next ↦ apply_from fuel base (drop cmd rest) next (pos + cmd)
      ]
    else let offset = copy_offset cmd rest in
      let size = copy_size cmd offset.1 in
      elim (set_at target pos (copy_chunk base offset.0 size.0)) as (λ _. Applied) [
        | none ↦ err range_error
        | some next ↦ elim (advance pos size.0) as (λ _. Applied) [
          | none ↦ err target_size_mismatch
          | some at ↦ apply_from fuel base size.1 next at
        ]
      ]

-- The sizes that are read have a sign: one of 2 ^ 31 or more is negative.
unfoldable pub apply_delta : Bytes → Bytes → Applied
unfolding zeros
apply_delta base delta =
    let base_size = read_size_encoding delta in
    if ltb base_size.0 (2 ^ 31) && base_size.0 == length base
    then (let target_size = read_size_encoding base_size.1 in
        if ltb target_size.0 (2 ^ 31)
        then apply_from (length target_size.1) base target_size.1 (zeros target_size.0) 0
        else err range_error)
    else err base_size_mismatch
