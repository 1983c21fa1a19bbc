-- ===== src/Pack/Offsets.antt =====
-- The distance to the base of a delta: `encodeOfsOffset` of src/lib/pack/packfile.ts and its reader in
-- `readEntry`. What a shift gives has a sign.
use just_git.Base.{
  ℕ, zero, suc, ◌+◌, ◌-◌, sym, false, ◌*◌, ◌/◌, ◌%◌, ◌^◌, ◌≤◌, ◌<◌, ◌≡◌, refl, ap, ◌∙◌, ◌⊎◌, inl,
  inr, [], ◌∷◌, ◌++◌, append_assoc, arith, ltb, leb, lt→ltb, ◌==◌, if◌then◌else◌,
}
use just_git.Base.Bits.{bit_and_seven_bits, bit_and_top_bit}
use Prim.Native.Nat.{bit_and, bit_or}
use just_git.Pack.Sizes.{Bytes}
use just_git.Pack.ReadBack.{set_top}

-- The loop of `encodeOfsOffset`, which puts each byte before those it has. Five rounds reach 0.
unfoldable pub offset_front : ℕ → ℕ → Bytes
offset_front zero val = []
offset_front (suc rounds) val =
    let more = offset_front rounds ((val - 1) / 128) in
    if ltb 0 val then more ++ (bit_or (bit_and (val - 1) 0x7f) 0x80 ∷ []) else []

unfoldable pub encode_ofs_offset : ℕ → Bytes
encode_ofs_offset neg_offset =
    offset_front 5 (neg_offset % 2 ^ 32 / 128) ++ (bit_and neg_offset 0x7f ∷ [])

-- A number of 32 bits: `at n` is n, `below n` is -n.
pub data Signed : Type 0 where
  at below : ℕ → Signed

-- The number with these 32 bits.
unfoldable pub to_signed : ℕ → Signed
to_signed bits = if ltb bits (2 ^ 31) then at bits else below (2 ^ 32 - bits)

-- `(n + 1) << 7`
unfoldable pub shift_next : Signed → Signed
unfolding to_signed
shift_next (at n) = to_signed ((n + 1) * 2 ^ 7 % 2 ^ 32)
shift_next (below zero) = to_signed (2 ^ 7)
shift_next (below (suc n)) = to_signed ((2 ^ 32 - n * 2 ^ 7 % 2 ^ 32) % 2 ^ 32)

unfoldable pub add_bits : Signed → ℕ → Signed
add_bits (at n) k = at (n + k)
add_bits (below n) k = if leb n k then at (k - n) else below (n - k)

-- The loop of the reader behind the byte `c`. A byte that is not there counts as 0.
unfoldable pub read_offset_from : ℕ → Signed → Bytes → Signed × Bytes
unfolding shift_next add_bits
read_offset_from c base [] = if bit_and c 0x80 == 0 then (base, []) else (shift_next base, [])
read_offset_from c base (next ∷ rest) =
    let more = read_offset_from next (add_bits (shift_next base) (bit_and next 0x7f)) rest in
    if bit_and c 0x80 == 0 then (base, next ∷ rest) else more

unfoldable pub read_offset : Bytes → Signed × Bytes
read_offset [] = (at 0, [])
read_offset (c ∷ rest) = read_offset_from c (at (bit_and c 0x7f)) rest

read_stop :
    (c : ℕ) (base : Signed) (rest : Bytes) → c < 128 → read_offset_from c base rest ≡ (base, rest)
unfolding read_offset_from
read_stop c base [] h = ground (arith, bit_and_top_bit c)
read_stop c base (next ∷ rest) h = ground (arith, bit_and_top_bit c)

to_signed-at : (n : ℕ) → n < 2 ^ 31 → to_signed n ≡ at n
unfolding to_signed
to_signed-at n h = ground arith

to_signed-below : (n : ℕ) → 2 ^ 31 ≤ n → to_signed n ≡ below (2 ^ 32 - n)
unfolding to_signed
to_signed-below n h = ground arith

-- The shift may reach the bit of the sign; the seven bits that are added do not change it.
add_bits-shift_next :
    (base k : ℕ)
    → base + 1 < 2 ^ 25
    → k < 128
    → add_bits (shift_next (at base)) k ≡ to_signed ((base + 1) * 128 + k)
unfolding shift_next add_bits
add_bits-shift_next base k h l =
    let kept : (base + 1) * 2 ^ 7 % 2 ^ 32 ≡ (base + 1) * 128 = omega arith in
    rw kept (elim (positive_or_negative ((base + 1) * 128)) [
      | inl small ↦
          rw (to_signed-at ((base + 1) * 128) small)
            (sym (to_signed-at ((base + 1) * 128 + k) (omega arith)))
      | inr large ↦
          let above : leb (2 ^ 32 - (base + 1) * 128) k ≡ false = ground arith in
          let rest : 2 ^ 32 - (base + 1) * 128 - k ≡ 2 ^ 32 - ((base + 1) * 128 + k) =
            omega arith in
          rw (to_signed-below ((base + 1) * 128) large, above, rest)
            (sym (to_signed-below ((base + 1) * 128 + k) (omega arith)))
    ])
  where
    positive_or_negative : (n : ℕ) → (n < 2 ^ 31) ⊎ (2 ^ 31 ≤ n)
    positive_or_negative n = omega arith

read_go :
    (c base next : ℕ) (rest : Bytes)
    → 128 ≤ c
    → c < 256
    → base + 1 < 2 ^ 25
    → read_offset_from c (at base) (next ∷ rest)
      ≡ read_offset_from next (to_signed ((base + 1) * 128 + bit_and next 0x7f)) rest
unfolding read_offset_from
read_go c base next rest g h k =
    rw (add_bits-shift_next base (bit_and next 0x7f) k (omega (arith, bit_and_seven_bits next)))
      (ground (arith, bit_and_top_bit c))

-- What so many rounds can write.
abbrev reach : ℕ → ℕ
reach zero = 1
reach (suc rounds) = reach rounds * 128

zero_or_more : (v : ℕ) → (v ≡ 0) ⊎ (0 < v)
zero_or_more v = omega arith

front_zero : (rounds : ℕ) → offset_front rounds 0 ≡ []
unfolding offset_front
front_zero zero = refl
front_zero (suc rounds) = refl

front_more :
    (rounds v : ℕ)
    → 0 < v
    → offset_front (suc rounds) v
      ≡ offset_front rounds ((v - 1) / 128) ++ (((v - 1) % 128 + 128) ∷ [])
unfolding offset_front
front_more rounds v h =
    rw (lt→ltb 0 v h, bit_and_seven_bits (v - 1), set_top ((v - 1) % 128) (omega arith))

-- The bytes in front are read as the number that they were written for.
read_front :
    (rounds v c : ℕ) (rest : Bytes)
    → 0 < v
    → v < reach rounds
    → v < 2 ^ 25
    → read_offset (offset_front rounds v ++ (c ∷ rest))
      ≡ read_offset_from c (to_signed (v * 128 + bit_and c 0x7f)) rest
read_front zero v c rest p h k = absurd (omega arith)
read_front (suc rounds) v c rest p h k =
    ap (λ bytes. read_offset (bytes ++ (c ∷ rest))) (front_more rounds v p)
    ∙ ap read_offset
        (append_assoc (offset_front rounds ((v - 1) / 128)) (((v - 1) % 128 + 128) ∷ []) (c ∷ rest))
    ∙ by_size (zero_or_more ((v - 1) / 128))
        (read_front rounds ((v - 1) / 128) ((v - 1) % 128 + 128) (c ∷ rest))
  where
    byte : ℕ
    byte = (v - 1) % 128 + 128

    low : bit_and byte 0x7f ≡ (v - 1) % 128
    low = omega (arith, bit_and_seven_bits byte)

    step :
        (base : ℕ)
        → base ≡ v - 1
        → read_offset_from byte (at base) (c ∷ rest)
          ≡ read_offset_from c (to_signed (v * 128 + bit_and c 0x7f)) rest
    step base e =
        read_go byte base c rest (omega arith) (omega arith) (omega (arith, e))
        ∙ ap (λ x. read_offset_from c (to_signed x) rest) (omega (arith, e))

    by_size :
        ((v - 1) / 128 ≡ 0) ⊎ (0 < (v - 1) / 128)
        → (0 < (v - 1) / 128
            → (v - 1) / 128 < reach rounds
            → (v - 1) / 128 < 2 ^ 25
            → read_offset (offset_front rounds ((v - 1) / 128) ++ (byte ∷ (c ∷ rest)))
              ≡ read_offset_from byte
                  (to_signed ((v - 1) / 128 * 128 + bit_and byte 0x7f))
                  (c ∷ rest))
        → read_offset (offset_front rounds ((v - 1) / 128) ++ (byte ∷ (c ∷ rest)))
          ≡ read_offset_from c (to_signed (v * 128 + bit_and c 0x7f)) rest
    by_size (inl z) ih =
        ap (λ w. read_offset (offset_front rounds w ++ (byte ∷ (c ∷ rest)))) z
        ∙ ap (λ bytes. read_offset (bytes ++ (byte ∷ (c ∷ rest)))) (front_zero rounds)
        ∙ unfold read_offset in step (bit_and byte 0x7f) (omega (arith, low, z))
    by_size (inr q) ih =
        ih q (omega arith) (omega arith)
        ∙ ap (λ x. read_offset_from byte x (c ∷ rest))
            (to_signed-at ((v - 1) / 128 * 128 + bit_and byte 0x7f) (omega (arith, low)))
        ∙ step ((v - 1) / 128 * 128 + bit_and byte 0x7f) (omega (arith, low))

-- A distance below 2 ^ 32 is read back from its encoding as 32 bits with a sign: as itself below
-- 2 ^ 31 and less 2 ^ 32 from there on, with what follows it left.
pub read_offset-encode_ofs_offset :
    (n : ℕ) (rest : Bytes)
    → n < 2 ^ 32
    → read_offset (encode_ofs_offset n ++ rest)
      ≡ (if ltb n (2 ^ 31) then at n else below (2 ^ 32 - n), rest)
unfolding encode_ofs_offset to_signed
read_offset-encode_ofs_offset n rest h =
    ap (λ w. read_offset ((offset_front 5 w ++ (bit_and n 0x7f ∷ [])) ++ rest)) unsigned
    ∙ ap read_offset (append_assoc (offset_front 5 (n / 128)) (bit_and n 0x7f ∷ []) rest)
    ∙ ap (λ b. read_offset (offset_front 5 (n / 128) ++ (b ∷ rest))) (bit_and_seven_bits n)
    ∙ by_size (zero_or_more (n / 128))
  where
    unsigned : n % 2 ^ 32 / 128 ≡ n / 128
    unsigned = omega arith

    low : bit_and (n % 128) 0x7f ≡ n % 128
    low = omega (arith, bit_and_seven_bits (n % 128))

    by_size :
        (n / 128 ≡ 0) ⊎ (0 < n / 128)
        → read_offset (offset_front 5 (n / 128) ++ (n % 128 ∷ rest)) ≡ (to_signed n, rest)
    by_size (inl z) =
        ap (λ w. read_offset (offset_front 5 w ++ (n % 128 ∷ rest))) z
        ∙ ap (λ bytes. read_offset (bytes ++ (n % 128 ∷ rest))) (front_zero 5)
        ∙ unfold read_offset in
          read_stop (n % 128) (at (bit_and (n % 128) 0x7f)) rest (omega arith)
          ∙ ap (λ x. (x, rest))
              (ap at (omega (arith, low, z)) ∙ sym (to_signed-at n (omega (arith, z))))
    by_size (inr p) =
        read_front 5 (n / 128) (n % 128) rest p (omega arith) (omega arith)
        ∙ read_stop (n % 128) (to_signed (n / 128 * 128 + bit_and (n % 128) 0x7f)) rest
            (omega arith)
        ∙ ap (λ x. (to_signed x, rest)) (omega (arith, low))
