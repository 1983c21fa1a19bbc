-- ===== src/Pack/Header.antt =====
-- Proofs about the header of an entry in src/lib/pack/packfile.ts.
use just_git.Base.{
  ℕ, zero, suc, ◌+◌, ◌*◌, ◌/◌, ◌%◌, ◌^◌, ◌≤◌, ◌<◌, ◌≡◌, refl, sym, ap, ◌∙◌, ◌⊎◌, inl, inr, [], ◌∷◌,
  ◌++◌, arith, lt→ltb,
}
use just_git.Base.Bits.{
  shifted, bit_or_four_bits, bit_and_three_bits, bit_and_four_bits, bit_and_seven_bits,
  bit_and_top_bit,
}
use Prim.Native.Nat.{bit_and, bit_or}
use just_git.Pack.Sizes.{
  Bytes, read_size_from, encode_size_from, shift_right, is_positive, encode_type_size_from,
  encode_type_size, read_type_size,
}
use just_git.Pack.ReadBack.{encode_last, encode_more, set_top, split_at, at_last, at_more}

from_25 :
    (v s : ℕ) (rest : Bytes)
    → v < 2 ^ 25
    → s < 64
    → read_size_from v 25 (encode_size_from 2 s ++ rest) ≡ (v + s * 2 ^ 25, rest)
from_25 v s rest f h =
    at_last 25 v s 1 rest (omega arith) (omega arith) (omega arith)
    ∙ ap (λ n. (n, rest)) (omega arith)

from_18 :
    (v s : ℕ) (rest : Bytes)
    → v < 2 ^ 18
    → s < 2 ^ 13
    → read_size_from v 18 (encode_size_from 3 s ++ rest) ≡ (v + s * 2 ^ 18, rest)
from_18 v s rest f h = elim (split_at s) [
  | inl l ↦ at_last 18 v s 2 rest l (omega arith) (omega arith) ∙ ap (λ n. (n, rest)) (omega arith)
  | inr g ↦
      at_more 18 v s 2 rest g (omega arith) (omega arith) (omega arith)
      ∙ from_25 (v + shifted 18 (s % 128)) (s / 128) rest (omega arith) (omega arith)
      ∙ ap (λ n. (n, rest)) (omega arith)
]

from_11 :
    (v s : ℕ) (rest : Bytes)
    → v < 2 ^ 11
    → s < 2 ^ 20
    → read_size_from v 11 (encode_size_from 4 s ++ rest) ≡ (v + s * 2 ^ 11, rest)
from_11 v s rest f h = elim (split_at s) [
  | inl l ↦ at_last 11 v s 3 rest l (omega arith) (omega arith) ∙ ap (λ n. (n, rest)) (omega arith)
  | inr g ↦
      at_more 11 v s 3 rest g (omega arith) (omega arith) (omega arith)
      ∙ from_18 (v + shifted 11 (s % 128)) (s / 128) rest (omega arith) (omega arith)
      ∙ ap (λ n. (n, rest)) (omega arith)
]

from_4 :
    (v s : ℕ) (rest : Bytes)
    → v < 2 ^ 4
    → s < 2 ^ 27
    → read_size_from v 4 (encode_size_from 5 s ++ rest) ≡ (v + s * 2 ^ 4, rest)
from_4 v s rest f h = elim (split_at s) [
  | inl l ↦ at_last 4 v s 4 rest l (omega arith) (omega arith) ∙ ap (λ n. (n, rest)) (omega arith)
  | inr g ↦
      at_more 4 v s 4 rest g (omega arith) (omega arith) (omega arith)
      ∙ from_11 (v + shifted 4 (s % 128)) (s / 128) rest (omega arith) (omega arith)
      ∙ ap (λ n. (n, rest)) (omega arith)
]

encode_step :
    (rounds byte s : ℕ)
    → 0 < s
    → s < 2 ^ 31
    → encode_type_size_from (suc rounds) byte s
      ≡ bit_or byte 0x80 ∷ encode_type_size_from rounds (bit_and s 0x7f) (s / 128)
unfolding encode_type_size_from is_positive shift_right
encode_step rounds byte s g h = rw (lt→ltb 0 s g, lt→ltb s (2 ^ 31) h)

encode_stop : (rounds byte : ℕ) → encode_type_size_from rounds byte 0 ≡ byte ∷ []
unfolding encode_type_size_from is_positive
encode_stop zero byte = refl
encode_stop (suc rounds) byte = refl

-- What so many rounds behind the first can write.
abbrev capacity : ℕ → ℕ
capacity zero = 128
capacity (suc rounds) = capacity rounds * 128

-- The loop of `encodeTypeSize` writes what the loop of `encodeSizeAt` writes, behind the byte at hand.
same_loop :
    (rounds byte s : ℕ)
    → 0 < s
    → s < 2 ^ 31
    → s < capacity rounds
    → encode_type_size_from (suc rounds) byte s ≡ bit_or byte 0x80 ∷ encode_size_from (suc rounds) s
same_loop zero byte s g h c =
    let zero_left : s / 128 ≡ 0 = omega arith in
    encode_step zero byte s g h
    ∙ ap (λ t. bit_or byte 0x80 ∷ encode_type_size_from zero (bit_and s 0x7f) t) zero_left
    ∙ ap (λ t. bit_or byte 0x80 ∷ t)
        (encode_stop zero (bit_and s 0x7f)
          ∙ ap (λ b. b ∷ []) (bit_and_seven_bits s ∙ omega arith)
          ∙ sym (encode_last zero s c))
same_loop (suc rounds) byte s g h c =
    encode_step (suc rounds) byte s g h
    ∙ ap (λ t. bit_or byte 0x80 ∷ t)
        (by_size (split_at s) marked (same_loop rounds (bit_and s 0x7f) (s / 128)))
  where
    marked : bit_or (bit_and s 0x7f) 0x80 ≡ s % 128 + 128
    marked = ap (λ b. bit_or b 0x80) (bit_and_seven_bits s) ∙ set_top (s % 128) (omega arith)

    by_size :
        (s < 128) ⊎ (128 ≤ s)
        → bit_or (bit_and s 0x7f) 0x80 ≡ s % 128 + 128
        → (0 < s / 128
            → s / 128 < 2 ^ 31
            → s / 128 < capacity rounds
            → encode_type_size_from (suc rounds) (bit_and s 0x7f) (s / 128)
              ≡ bit_or (bit_and s 0x7f) 0x80 ∷ encode_size_from (suc rounds) (s / 128))
        → encode_type_size_from (suc rounds) (bit_and s 0x7f) (s / 128)
          ≡ encode_size_from (suc (suc rounds)) s
    by_size (inl l) m ih =
        let zero_left : s / 128 ≡ 0 = omega arith in
        ap (encode_type_size_from (suc rounds) (bit_and s 0x7f)) zero_left
        ∙ encode_stop (suc rounds) (bit_and s 0x7f)
        ∙ ap (λ b. b ∷ []) (bit_and_seven_bits s ∙ omega arith)
        ∙ sym (encode_last (suc rounds) s l)
    by_size (inr k) m ih =
        ih (omega arith) (omega arith) (omega arith)
        ∙ ap (λ b. b ∷ encode_size_from (suc rounds) (s / 128)) m
        ∙ sym (encode_more (suc rounds) s k (omega arith))

-- The first byte: the type above four bits of the size.
first_byte :
    (type_num size : ℕ)
    → type_num < 8
    → bit_or (type_num * 2 ^ 4 % 2 ^ 32) (bit_and size 0xf) ≡ type_num * 16 + size % 16
first_byte type_num size h =
    ap (bit_or (type_num * 2 ^ 4 % 2 ^ 32)) (bit_and_four_bits size)
    ∙ ap (λ x. bit_or x (size % 16)) (omega arith)
    ∙ bit_or_four_bits type_num (size % 16) (omega arith)

read_alone : (b : ℕ) (rest : Bytes) → b < 128 → read_type_size (b ∷ rest) ≡ (b / 16, b % 16, rest)
unfolding read_type_size
read_alone b rest h =
    ground (arith, bit_and_top_bit b, bit_and_three_bits (b / 16), bit_and_four_bits b)

read_marked :
    (b : ℕ) (rest : Bytes)
    → b < 128
    → read_type_size ((b + 128) ∷ rest)
      ≡ (b / 16, (read_size_from (b % 16) 4 rest).0, (read_size_from (b % 16) 4 rest).1)
unfolding read_type_size
read_marked b rest h =
    let type_bits : bit_and ((b + 128) / 16) 7 ≡ b / 16 =
      omega (arith, bit_and_three_bits ((b + 128) / 16)) in
    let size_bits : bit_and (b + 128) 15 ≡ b % 16 = omega (arith, bit_and_four_bits (b + 128)) in
    rw (type_bits, size_bits) (ground (arith, bit_and_top_bit (b + 128)))

-- The type below 8 and the size below 2 ^ 31 of an entry are read back from its header, with
-- what follows it left.
pub read_type_size-encode_type_size :
    (type_num size : ℕ) (rest : Bytes)
    → type_num < 8
    → size < 2 ^ 31
    → read_type_size (encode_type_size type_num size ++ rest) ≡ (type_num, size, rest)
unfolding encode_type_size
read_type_size-encode_type_size type_num size rest h g =
    ap (λ b. read_type_size (encode_type_size_from 5 b (shift_right size 4) ++ rest))
      (first_byte type_num size h)
    ∙ ap (λ s. read_type_size (encode_type_size_from 5 (type_num * 16 + size % 16) s ++ rest))
        shifted_size
    ∙ by_size (zero_or_more (size / 16))
  where
    shifted_size : shift_right size 4 ≡ size / 16
    shifted_size = unfold shift_right in rw (lt→ltb size (2 ^ 31) g)

    loop : ℕ × Bytes
    loop =
        read_size_from ((type_num * 16 + size % 16) % 16) 4 (encode_size_from 5 (size / 16) ++ rest)

    read_rest : loop ≡ ((type_num * 16 + size % 16) % 16 + size / 16 * 2 ^ 4, rest)
    read_rest =
        from_4 ((type_num * 16 + size % 16) % 16) (size / 16) rest (omega arith) (omega arith)

    zero_or_more : (s : ℕ) → (s ≡ 0) ⊎ (0 < s)
    zero_or_more s = omega arith

    by_size :
        (size / 16 ≡ 0) ⊎ (0 < size / 16)
        → read_type_size (encode_type_size_from 5 (type_num * 16 + size % 16) (size / 16) ++ rest)
          ≡ (type_num, size, rest)
    by_size (inl z) =
        ap (λ s. read_type_size (encode_type_size_from 5 (type_num * 16 + size % 16) s ++ rest)) z
        ∙ ap (λ bytes. read_type_size (bytes ++ rest)) (encode_stop 5 (type_num * 16 + size % 16))
        ∙ read_alone (type_num * 16 + size % 16) rest (omega arith)
        ∙ ap (λ t. (t, (type_num * 16 + size % 16) % 16, rest)) (omega arith)
        ∙ ap (λ n. (type_num, n, rest)) (omega arith)
    by_size (inr p) =
        ap (λ bytes. read_type_size (bytes ++ rest))
          (same_loop 4 (type_num * 16 + size % 16) (size / 16) p (omega arith) (omega arith))
        ∙ ap (λ b. read_type_size (b ∷ (encode_size_from 5 (size / 16) ++ rest)))
            (set_top (type_num * 16 + size % 16) (omega arith))
        ∙ read_marked (type_num * 16 + size % 16) (encode_size_from 5 (size / 16) ++ rest)
            (omega arith)
        ∙ ap (λ t. (t, loop.0, loop.1)) (omega arith)
        ∙ ap (λ r. (type_num, r.0, r.1)) (read_rest ∙ ap (λ n. (n, rest)) (omega arith))
