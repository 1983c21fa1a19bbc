-- ===== src/Base/ParseInt/Decimal.antt =====
-- A number as its decimal digits, which `parseInt` reads back; and `s.trimEnd()`.
use Prim.Native.Nat.{ℕ, zero, suc, ◌+◌, ◌-◌, ◌*◌, ◌/◌, ◌%◌, ◌≤◌, ◌<◌}
use mathlib.Core.Path.{◌≡◌, refl, ap, ◌∙◌, sym, subst}
use mathlib.Core.Bool.{true, false}
use mathlib.Core.List.{[], ◌∷◌, ◌++◌, reverse, reverse-append}
use mathlib.Core.Logic.{inl, inr}
use native.Mathlib.Omega.{arith}
use just_git.Base.Tests.{◌==◌, if◌then◌else◌, Bool-cases}
use just_git.Base.Lists.{All, All-append}
use just_git.Base.Strings.{Text, codes, includes_unit}
use just_git.Base.ParseInt.{
  ParsedInt, nan, int, negative, digit_value, digits_from, parse_int, trim_start, is_space, signed,
  strip_0x,
}

-- `${n}` of a number below 10 ^ 21, on fuel that is not less than the number.
unfoldable pub decimal_from : ℕ → ℕ → Text
decimal_from zero n = []
decimal_from (suc fuel) n =
    let front = decimal_from fuel (n / 10) in
    if n / 10 == 0 then (n % 10 + 0x30) ∷ [] else front ++ ((n % 10 + 0x30) ∷ [])

unfoldable pub decimal : ℕ → Text
unfolding decimal_from
decimal n = decimal_from (suc n) n

-- `${n}` of an integer or NaN.
unfoldable pub number_text : ParsedInt → Text
unfolding decimal
number_text nan = codes "NaN"
number_text (int n) = decimal n
number_text (negative n) = 0x2d ∷ decimal n

unfoldable pub trim_end : Text → Text
unfolding trim_start
trim_end s = reverse (trim_start (reverse s))

abbrev pub IsDigit : ℕ → Type 0
IsDigit c = (0x30 ≤ c) × (c ≤ 0x39)

abbrev value : ℕ → Text → ℕ
value acc [] = acc
value acc (c ∷ s) = value (acc * 10 + (c - 0x30)) s

digits_from_digits :
    (acc : ℕ) (a : Text) → All IsDigit a → digits_from 10 true acc a ≡ int (value acc a)
unfolding digits_from digit_value
digits_from_digits acc [] h = refl
digits_from_digits acc (c ∷ a) h =
    ground (arith, h.0, digits_from_digits (acc * 10 + (c - 0x30)) a h.1)

digits_from_first :
    (c : ℕ) (a : Text)
    → IsDigit c
    → All IsDigit a
    → digits_from 10 false 0 (c ∷ a) ≡ int (value (c - 0x30) a)
unfolding digits_from digit_value
digits_from_first c a h g = ground (arith, h, digits_from_digits (c - 0x30) a g)

value-append : (acc c : ℕ) (a : Text) → value acc (a ++ (c ∷ [])) ≡ value acc a * 10 + (c - 0x30)
value-append acc c [] = refl
value-append acc c (x ∷ a) = value-append (acc * 10 + (x - 0x30)) c a

decimal_from_digits : (fuel n : ℕ) → All IsDigit (decimal_from fuel n)
unfolding decimal_from
decimal_from_digits zero n = tt
decimal_from_digits (suc fuel) n = elim (Bool-cases (n / 10 == 0)) [
  | inl e ↦ rw e ((omega arith, omega arith), tt)
  | inr e ↦ rw e (
      All-append IsDigit (decimal_from fuel (n / 10)) ((n % 10 + 0x30) ∷ [])
        (decimal_from_digits fuel (n / 10)) ((omega arith, omega arith), tt))
]

value-decimal_from : (fuel n : ℕ) → n < fuel → value 0 (decimal_from fuel n) ≡ n
unfolding decimal_from
value-decimal_from zero n h = absurd (omega arith)
value-decimal_from (suc fuel) n h = elim (Bool-cases (n / 10 == 0)) [
  | inl e ↦ rw e (ground (arith, e))
  | inr e ↦ rw e (
      value-append 0 (n % 10 + 0x30) (decimal_from fuel (n / 10))
      ∙ omega (arith, value-decimal_from fuel (n / 10) (ground (arith, e))))
]

digit_not_space : (c : ℕ) → IsDigit c → is_space c ≡ false
unfolding is_space
digit_not_space c h = ground (arith, h)

strip_0x_decimal : (s : Text) → strip_0x 10 s ≡ s
unfolding strip_0x
strip_0x_decimal [] = refl
strip_0x_decimal (x ∷ []) = refl
strip_0x_decimal (x ∷ y ∷ s) = refl

-- Digits, and what follows the first of them.
read_digits :
    (c : ℕ) (a : Text) → IsDigit c → All IsDigit a → parse_int (c ∷ a) 10 ≡ int (value 0 (c ∷ a))
unfolding parse_int trim_start signed
read_digits c a h g =
    let no_minus : (c == 0x2d) ≡ false = ground (arith, h) in
    let no_plus : (c == 0x2b) ≡ false = ground (arith, h) in
    rw (digit_not_space c h, no_minus, no_plus, strip_0x_decimal (c ∷ a))
      (digits_from_first c a h g ∙ start)
  where
    start : int (value (c - 0x30) a) ≡ int (value (0 * 10 + (c - 0x30)) a)
    start = ap (λ n. int (value n a)) (omega arith)

decimal_from_some : (fuel n : ℕ) → (c : ℕ) × (a : Text) × (decimal_from (suc fuel) n ≡ c ∷ a)
unfolding decimal_from
decimal_from_some fuel n = elim (Bool-cases (n / 10 == 0)) [
  | inl e ↦ rw e (n % 10 + 0x30, [], refl)
  | inr e ↦ rw e (some_front (decimal_from fuel (n / 10)) (n % 10 + 0x30))
]
  where
    some_front : (s : Text) (d : ℕ) → (c : ℕ) × (a : Text) × (s ++ (d ∷ []) ≡ c ∷ a)
    some_front [] d = (d, [], refl)
    some_front (x ∷ s) d = (x, s ++ (d ∷ []), refl)

pub decimal_digits : (n : ℕ) → All IsDigit (decimal n)
unfolding decimal
decimal_digits n = decimal_from_digits (suc n) n

pub parse_int-decimal : (n : ℕ) → parse_int (decimal n) 10 ≡ int n
unfolding decimal
parse_int-decimal n =
    let (c, a, e) = decimal_from_some n n in
    let d = subst (All IsDigit) e (decimal_from_digits (suc n) n) in
    ap (λ s. parse_int s 10) e
    ∙ read_digits c a d.0 d.1
    ∙ ap (λ s. int (value 0 s)) (sym e)
    ∙ ap int (value-decimal_from (suc n) n (omega arith))

-- No unit that is not a digit is in a number.
pub includes_unit-digits : (c : ℕ) (s : Text) → c < 0x30 → All IsDigit s → includes_unit c s ≡ false
unfolding includes_unit
includes_unit-digits c [] h d = refl
includes_unit-digits c (x ∷ s) h d = ground (arith, d.0, includes_unit-digits c s h d.1)

-- One space at the end is trimmed.
pub trim_end-space : (s : Text) → trim_end (s ++ (0x20 ∷ [])) ≡ trim_end s
unfolding trim_end trim_start is_space
trim_end-space s = ap (λ r. reverse (trim_start r)) (reverse-append s (0x20 ∷ []))
