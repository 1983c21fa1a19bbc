-- ===== src/Objects/HexBytes.antt =====
-- Proofs about src/lib/hex.ts: from digits to bytes and back.
use just_git.Base.{
  ℕ, zero, suc, ◌+◌, ◌-◌, ◌*◌, ◌/◌, ◌%◌, ◌≤◌, ◌<◌, ◌≡◌, refl, ap, Bool, true, ◌&&◌, ◌||◌, [], ◌∷◌,
  ◌++◌, arith, Text, length, subst, drop, leb, if◌then◌else◌,
}
use just_git.Base.ParseInt.Hex.{hex_digit, parse_int-hex_pair}
use just_git.Base.ParseInt.{parse_int}
use just_git.Objects.Hex.{Bytes, lut, hex_of, to_byte, bytes_of}

-- A lower-case hexadecimal digit.
abbrev pub is_hex : ℕ → Bool
is_hex c = (leb 0x30 c && leb c 0x39) || (leb 0x61 c && leb c 0x66)

-- So many pairs of digits.
abbrev pub IsHexOf : ℕ → Text → Type 0
IsHexOf zero [] = Unit
IsHexOf zero (x ∷ hex) = ⊥
IsHexOf (suc n) [] = ⊥
IsHexOf (suc n) (x ∷ []) = ⊥
IsHexOf (suc n) (x ∷ y ∷ hex) = (is_hex x ≡ true) × (is_hex y ≡ true) × IsHexOf n hex

hex_value : ℕ → ℕ
hex_value c = if leb c 0x39 then c - 0x30 else c - 0x57

hex_value_lem : (c : ℕ) → is_hex c ≡ true → (hex_value c < 16) × (hex_digit (hex_value c) ≡ c)
unfolding hex_value hex_digit
hex_value_lem c h = ground arith

lut-hex_digit :
    (a b : ℕ)
    → a < 16
    → b < 16
    → lut (to_byte (parse_int (hex_digit a ∷ hex_digit b ∷ []) 16)) ≡ hex_digit a ∷ hex_digit b ∷ []
unfolding lut to_byte
lut-hex_digit a b ha hb =
    let high : (a * 16 + b) % 256 / 16 ≡ a = omega arith in
    let low : (a * 16 + b) % 256 % 16 ≡ b = omega arith in
    rw (parse_int-hex_pair a b ha hb, high, low)

lut-to_byte :
    (x y : ℕ)
    → is_hex x ≡ true
    → is_hex y ≡ true
    → lut (to_byte (parse_int (x ∷ y ∷ []) 16)) ≡ x ∷ y ∷ []
lut-to_byte x y hx hy =
    subst (λ v. lut (to_byte (parse_int (x ∷ v ∷ []) 16)) ≡ x ∷ v ∷ []) (hex_value_lem y hy).1
      (subst
        (λ u.
          lut (to_byte (parse_int (u ∷ hex_digit (hex_value y) ∷ []) 16))
          ≡ u ∷ hex_digit (hex_value y) ∷ [])
        (hex_value_lem x hx).1
        (lut-hex_digit (hex_value x) (hex_value y) (hex_value_lem x hx).0 (hex_value_lem y hy).0))

-- Digits that are read as bytes are printed again.
pub hex_of-bytes_of : (n : ℕ) (hex : Text) → IsHexOf n hex → hex_of n (bytes_of n hex) ≡ hex
unfolding hex_of bytes_of
hex_of-bytes_of zero [] h = refl
hex_of-bytes_of zero (x ∷ hex) h = absurd h
hex_of-bytes_of (suc n) [] h = absurd h
hex_of-bytes_of (suc n) (x ∷ []) h = absurd h
hex_of-bytes_of (suc n) (x ∷ y ∷ hex) h =
    rw (lut-to_byte x y h.0 h.1) (ap (λ s. x ∷ y ∷ s) (hex_of-bytes_of n hex h.2))

-- A byte more that follows changes nothing.
pub hex_of-append :
    (n : ℕ) (bytes more : Bytes) → n ≤ length bytes → hex_of n (bytes ++ more) ≡ hex_of n bytes
unfolding hex_of
hex_of-append zero bytes more h = refl
hex_of-append (suc n) [] more h = absurd (omega arith)
hex_of-append (suc n) (b ∷ bytes) more h =
    ap (λ s. lut b ++ s) (hex_of-append n bytes more (omega arith))

pub length-bytes_of : (n : ℕ) (hex : Text) → length (bytes_of n hex) ≡ n
unfolding bytes_of
length-bytes_of zero hex = omega arith
length-bytes_of (suc n) hex = omega (arith, length-bytes_of n (drop 2 hex))
