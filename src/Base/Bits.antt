-- ===== src/Base/Bits.antt =====
-- Bit operations as arithmetic: masks of seven bits, and `|` on digits that do not overlap.
use Prim.Native.Nat.{
  ℕ, zero, suc, ◌+◌, ◌*◌, ◌/◌, ◌%◌, ◌≤◌, ◌<◌, min, max, digits, bit_and, bit_or, bit_and-bitwise,
  bit_or-bitwise,
}
use mathlib.Core.Path.{◌≡◌, refl, ap, ◌∙◌}
use native.Mathlib.Omega.{arith}

-- The digits of a number, any count of them that is enough.
abbrev or_with : ℕ → ℕ → ℕ → ℕ
or_with n a b = digits (λ b. b) max n a b

abbrev and_with : ℕ → ℕ → ℕ → ℕ
and_with n a b = digits (λ b. zero) min n a b

or_with_fuel : (m n a b : ℕ) → a ≤ m → a ≤ n → or_with m a b ≡ or_with n a b
or_with_fuel zero zero a b p q = refl
or_with_fuel zero (suc n) zero b p q = refl
or_with_fuel (suc m) zero zero b p q = refl
or_with_fuel (suc m) (suc n) zero b p q = refl
or_with_fuel zero (suc n) (suc a) b p q = absurd (omega arith)
or_with_fuel (suc m) zero (suc a) b p q = absurd (omega arith)
or_with_fuel (suc m) (suc n) (suc a) b p q =
    omega (arith, or_with_fuel m n (suc a / 2) (b / 2) (omega arith) (omega arith))

and_with_fuel : (m n a b : ℕ) → a ≤ m → a ≤ n → and_with m a b ≡ and_with n a b
and_with_fuel zero zero a b p q = refl
and_with_fuel zero (suc n) zero b p q = refl
and_with_fuel (suc m) zero zero b p q = refl
and_with_fuel (suc m) (suc n) zero b p q = refl
and_with_fuel zero (suc n) (suc a) b p q = absurd (omega arith)
and_with_fuel (suc m) zero (suc a) b p q = absurd (omega arith)
and_with_fuel (suc m) (suc n) (suc a) b p q =
    omega (arith, and_with_fuel m n (suc a / 2) (b / 2) (omega arith) (omega arith))

zero-bit_or : (b : ℕ) → bit_or 0 b ≡ b
zero-bit_or b = bit_or-bitwise 0 b

or_low : (a b : ℕ) → bit_or a b ≡ bit_or (a / 2) (b / 2) * 2 + max (a % 2) (b % 2)
or_low zero b = omega (arith, zero-bit_or b, zero-bit_or (b / 2))
or_low (suc a) b = omega (
  arith,
  bit_or-bitwise (suc a) b,
  bit_or-bitwise (suc a / 2) (b / 2),
  or_with_fuel a (suc a / 2) (suc a / 2) (b / 2) (omega arith) (omega arith),
)

bit_or-zero : (a : ℕ) → bit_or a 0 ≡ a
bit_or-zero a = by_size a a (omega arith)
  where
    by_size : (n a : ℕ) → a ≤ n → bit_or a 0 ≡ a
    by_size n zero h = refl
    by_size zero (suc a) h = absurd (omega arith)
    by_size (suc n) (suc a) h = omega (arith, or_low (suc a) 0, by_size n (suc a / 2) (omega arith))

-- Four bits below a number.
pub bit_or_four_bits : (a w : ℕ) → w < 16 → bit_or (a * 16) w ≡ a * 16 + w
bit_or_four_bits a w h = omega (
  arith,
  or_low (a * 16) w,
  or_low (a * 16 / 2) (w / 2),
  or_low (a * 16 / 2 / 2) (w / 2 / 2),
  or_low (a * 16 / 2 / 2 / 2) (w / 2 / 2 / 2),
  above,
  bit_or-zero a,
)
  where
    above : bit_or (a * 16 / 2 / 2 / 2 / 2) (w / 2 / 2 / 2 / 2) ≡ bit_or a 0
    above = ap (λ x. bit_or x (w / 2 / 2 / 2 / 2)) (omega arith) ∙ ap (bit_or a) (omega arith)

zero-bit_and : (b : ℕ) → bit_and 0 b ≡ 0
zero-bit_and b = bit_and-bitwise 0 b

and_low : (a b : ℕ) → bit_and a b ≡ bit_and (a / 2) (b / 2) * 2 + min (a % 2) (b % 2)
and_low zero b = omega (arith, zero-bit_and b, zero-bit_and (b / 2))
and_low (suc a) b = omega (
  arith,
  bit_and-bitwise (suc a) b,
  bit_and-bitwise (suc a / 2) (b / 2),
  and_with_fuel a (suc a / 2) (suc a / 2) (b / 2) (omega arith) (omega arith),
)

-- `x << k`
abbrev pub shifted : ℕ → ℕ → ℕ
shifted zero x = x
shifted (suc k) x = shifted k x * 2

-- Nothing of `v` stands from digit k on.
abbrev pub FitsIn : ℕ → ℕ → Type 0
FitsIn zero v = v ≡ 0
FitsIn (suc k) v = FitsIn k (v / 2)

pub bit_or-shifted : (k v x : ℕ) → FitsIn k v → bit_or v (shifted k x) ≡ v + shifted k x
bit_or-shifted zero v x h = omega (arith, h, ap (λ w. bit_or w x) h, zero-bit_or x)
bit_or-shifted (suc k) v x h =
    omega (arith, or_low v (shifted k x * 2), half, bit_or-shifted k (v / 2) x h)
  where
    half : bit_or (v / 2) (shifted k x * 2 / 2) ≡ bit_or (v / 2) (shifted k x)
    half = ap (bit_or (v / 2)) (omega arith)

and_0 : (a : ℕ) → bit_and a 0 ≡ 0
and_0 a = by_size a a (omega arith)
  where
    by_size : (n a : ℕ) → a ≤ n → bit_and a 0 ≡ 0
    by_size n zero h = refl
    by_size zero (suc a) h = absurd (omega arith)
    by_size (suc n) (suc a) h =
        omega (arith, and_low (suc a) 0, by_size n (suc a / 2) (omega arith))

pub bit_and_three_bits : (a : ℕ) → bit_and a 7 ≡ a % 8
bit_and_three_bits a =
    omega (arith, and_low a 7, and_low (a / 2) 3, and_low (a / 2 / 2) 1, and_0 (a / 2 / 2 / 2))

pub bit_and_four_bits : (a : ℕ) → bit_and a 15 ≡ a % 16
bit_and_four_bits a = omega (arith, and_low a 15, bit_and_three_bits (a / 2))

pub bit_and_seven_bits : (a : ℕ) → bit_and a 0x7f ≡ a % 128
bit_and_seven_bits a = omega (
  arith,
  and_low a 0x7f,
  and_low (a / 2) 0x3f,
  and_low (a / 2 / 2) 0x1f,
  and_low (a / 2 / 2 / 2) 15,
  bit_and_three_bits (a / 2 / 2 / 2 / 2),
)

and_even : (a c : ℕ) → bit_and a (c * 2) ≡ bit_and (a / 2) c * 2
and_even a c = omega (arith, and_low a (c * 2), ap (bit_and (a / 2)) (halved c))
  where
    halved : (c : ℕ) → c * 2 / 2 ≡ c
    halved c = omega arith

and_1 : (a : ℕ) → bit_and a 1 ≡ a % 2
and_1 a = omega (arith, and_low a 1, and_0 (a / 2))

and_16 : (a : ℕ) → bit_and a 16 ≡ a / 16 % 2 * 16
and_16 a = omega (
  arith,
  and_even a 8,
  and_even (a / 2) 4,
  and_even (a / 2 / 2) 2,
  and_even (a / 2 / 2 / 2) 1,
  and_1 (a / 2 / 2 / 2 / 2),
)

pub bit_and_top_bit : (b : ℕ) → bit_and b 0x80 ≡ b / 128 % 2 * 128
bit_and_top_bit b =
    omega (
      arith,
      and_even b 0x40,
      and_even (b / 2) 0x20,
      and_even (b / 2 / 2) 16,
      and_16 (b / 2 / 2 / 2),
    )
