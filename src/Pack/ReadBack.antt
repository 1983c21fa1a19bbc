-- ===== src/Pack/ReadBack.antt =====
-- Proofs about the sizes of src/lib/pack/delta.ts and src/lib/pack/packfile.ts.
use just_git.Base.{
  ℕ, zero, suc, ◌+◌, ◌*◌, ◌/◌, ◌%◌, ◌^◌, ◌≤◌, ◌<◌, ◌≡◌, sym, ap, ◌∙◌, [], ◌∷◌, ◌++◌, arith, lt→ltb,
  inl, inr, ◌⊎◌,
}
use just_git.Base.Bits.{shifted, FitsIn, bit_or-shifted, bit_and_seven_bits, bit_and_top_bit}
use Prim.Native.Nat.{bit_or}
use just_git.Pack.Sizes.{
  Bytes, add_bits, read_size_from, read_size_encoding, encode_size_from, encode_size_at,
}

pub set_top : (b : ℕ) → b < 128 → bit_or b 0x80 ≡ b + 128
set_top b h = bit_or-shifted 7 b 1 (omega arith)

pub fits : (k v : ℕ) → v < shifted k 1 → FitsIn k v
fits zero v h = omega arith
fits (suc k) v h = fits k (v / 2) (omega arith)

-- A group of bits above all that were read.
add_bits_lem :
    (k shift v b : ℕ)
    → b % 128 * 2 ^ (shift % 32) % 2 ^ 32 ≡ shifted k (b % 128)
    → v < shifted k 1
    → add_bits v b shift ≡ v + shifted k (b % 128)
unfolding add_bits
add_bits_lem k shift v b e h =
    ap (λ g. bit_or v (g * 2 ^ (shift % 32) % 2 ^ 32)) (bit_and_seven_bits b)
    ∙ ap (bit_or v) e
    ∙ bit_or-shifted k v (b % 128) (fits k v h)

pub encode_last : (rounds s : ℕ) → s < 128 → encode_size_from (suc rounds) s ≡ s ∷ []
unfolding encode_size_from
encode_last rounds s h = ground (arith, bit_and_seven_bits s)

pub encode_more :
    (rounds s : ℕ)
    → 128 ≤ s
    → s < 2 ^ 32
    → encode_size_from (suc rounds) s ≡ (s % 128 + 128) ∷ encode_size_from rounds (s / 128)
unfolding encode_size_from
encode_more rounds s g h =
    let next : s % 2 ^ 32 / 128 ≡ s / 128 = omega arith in
    rw (
      next,
      lt→ltb 0 (s / 128) (omega arith),
      bit_and_seven_bits s,
      set_top (s % 128) (omega arith),
    )

read_last :
    (v shift b : ℕ) (rest : Bytes)
    → b < 128
    → read_size_from v shift (b ∷ rest) ≡ (add_bits v b shift, rest)
unfolding read_size_from
read_last v shift b rest h = ground (arith, bit_and_top_bit b)

read_more :
    (v shift b : ℕ) (rest : Bytes)
    → 128 ≤ b
    → b < 256
    → read_size_from v shift (b ∷ rest) ≡ read_size_from (add_bits v b shift) (shift + 7) rest
unfolding read_size_from
read_more v shift b rest g h = ground (arith, bit_and_top_bit b)

-- The last byte of a size, at a shift of k.
pub at_last :
    (k v s rounds : ℕ) (rest : Bytes)
    → s < 128
    → s * 2 ^ (k % 32) % 2 ^ 32 ≡ shifted k s
    → v < shifted k 1
    → read_size_from v k (encode_size_from (suc rounds) s ++ rest) ≡ (v + shifted k s, rest)
at_last k v s rounds rest h e f =
    let low : s % 128 ≡ s = omega arith in
    ap (λ bytes. read_size_from v k (bytes ++ rest)) (encode_last rounds s h)
    ∙ read_last v k s rest h
    ∙ ap (λ n. (n, rest))
        (add_bits_lem k k v s
            (ap (λ x. x * 2 ^ (k % 32) % 2 ^ 32) low ∙ e ∙ ap (shifted k) (sym low)) f
          ∙ ap (λ x. v + shifted k x) low)

-- Any other byte of a size.
pub at_more :
    (k v s rounds : ℕ) (rest : Bytes)
    → 128 ≤ s
    → s < 2 ^ 32
    → s % 128 * 2 ^ (k % 32) % 2 ^ 32 ≡ shifted k (s % 128)
    → v < shifted k 1
    → read_size_from v k (encode_size_from (suc rounds) s ++ rest)
      ≡ read_size_from (v + shifted k (s % 128)) (k + 7) (encode_size_from rounds (s / 128) ++ rest)
at_more k v s rounds rest g h e f =
    let low : (s % 128 + 128) % 128 ≡ s % 128 = omega arith in
    ap (λ bytes. read_size_from v k (bytes ++ rest)) (encode_more rounds s g h)
    ∙ read_more v k (s % 128 + 128) (encode_size_from rounds (s / 128) ++ rest) (omega arith)
        (omega arith)
    ∙ ap (λ n. read_size_from n (k + 7) (encode_size_from rounds (s / 128) ++ rest))
        (add_bits_lem k k v (s % 128 + 128)
            (ap (λ x. x * 2 ^ (k % 32) % 2 ^ 32) low ∙ e ∙ ap (shifted k) (sym low)) f
          ∙ ap (λ x. v + shifted k x) low)

from_28 :
    (v s : ℕ) (rest : Bytes)
    → v < 2 ^ 28
    → s < 16
    → read_size_from v 28 (encode_size_from 1 s ++ rest) ≡ (v + s * 2 ^ 28, rest)
from_28 v s rest f h =
    at_last 28 v s 0 rest (omega arith) (omega arith) (omega arith)
    ∙ ap (λ n. (n, rest)) (omega arith)

pub split_at : (s : ℕ) → (s < 128) ⊎ (128 ≤ s)
split_at s = omega arith

from_21 :
    (v s : ℕ) (rest : Bytes)
    → v < 2 ^ 21
    → s < 2 ^ 11
    → read_size_from v 21 (encode_size_from 2 s ++ rest) ≡ (v + s * 2 ^ 21, rest)
from_21 v s rest f h = elim (split_at s) [
  | inl l ↦ at_last 21 v s 1 rest l (omega arith) (omega arith) ∙ ap (λ n. (n, rest)) (omega arith)
  | inr g ↦
      at_more 21 v s 1 rest g (omega arith) (omega arith) (omega arith)
      ∙ from_28 (v + shifted 21 (s % 128)) (s / 128) rest (omega arith) (omega arith)
      ∙ ap (λ n. (n, rest)) (omega arith)
]

from_14 :
    (v s : ℕ) (rest : Bytes)
    → v < 2 ^ 14
    → s < 2 ^ 18
    → read_size_from v 14 (encode_size_from 3 s ++ rest) ≡ (v + s * 2 ^ 14, rest)
from_14 v s rest f h = elim (split_at s) [
  | inl l ↦ at_last 14 v s 2 rest l (omega arith) (omega arith) ∙ ap (λ n. (n, rest)) (omega arith)
  | inr g ↦
      at_more 14 v s 2 rest g (omega arith) (omega arith) (omega arith)
      ∙ from_21 (v + shifted 14 (s % 128)) (s / 128) rest (omega arith) (omega arith)
      ∙ ap (λ n. (n, rest)) (omega arith)
]

from_7 :
    (v s : ℕ) (rest : Bytes)
    → v < 2 ^ 7
    → s < 2 ^ 25
    → read_size_from v 7 (encode_size_from 4 s ++ rest) ≡ (v + s * 2 ^ 7, rest)
from_7 v s rest f h = elim (split_at s) [
  | inl l ↦ at_last 7 v s 3 rest l (omega arith) (omega arith) ∙ ap (λ n. (n, rest)) (omega arith)
  | inr g ↦
      at_more 7 v s 3 rest g (omega arith) (omega arith) (omega arith)
      ∙ from_14 (v + shifted 7 (s % 128)) (s / 128) rest (omega arith) (omega arith)
      ∙ ap (λ n. (n, rest)) (omega arith)
]

-- A size below 2 ^ 32 is read back, as the unsigned reading of 32 bits, with what follows it
-- left.
pub read_size_encoding-encode_size_at :
    (size : ℕ) (rest : Bytes)
    → size < 2 ^ 32
    → read_size_encoding (encode_size_at size ++ rest) ≡ (size, rest)
unfolding read_size_encoding encode_size_at
read_size_encoding-encode_size_at size rest h = elim (split_at size) [
  | inl l ↦
      at_last 0 0 size 4 rest l (omega arith) (omega arith) ∙ ap (λ n. (n, rest)) (omega arith)
  | inr g ↦
      at_more 0 0 size 4 rest g h (omega arith) (omega arith)
      ∙ from_7 (0 + shifted 0 (size % 128)) (size / 128) rest (omega arith) (omega arith)
      ∙ ap (λ n. (n, rest)) (omega arith)
]
