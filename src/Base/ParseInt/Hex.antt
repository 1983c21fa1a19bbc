-- ===== src/Base/ParseInt/Hex.antt =====
-- `parseInt` reads hexadecimal digits of either case.
use Prim.Native.Nat.{ℕ, ◌+◌, ◌-◌, ◌*◌, ◌<◌}
use mathlib.Core.Path.{◌≡◌, refl, ap, ◌∙◌}
use mathlib.Core.Bool.{Bool, true, false}
use mathlib.Core.List.{[], ◌∷◌}
use mathlib.Core.Option.{some}
use native.Mathlib.Omega.{arith}
use just_git.Base.Tests.{ltb, if◌then◌else◌}
use just_git.Base.Strings.{Text}
use just_git.Base.ParseInt.{
  int, is_space, trim_start, digit_value, digits_from, strip_0x, signed, parse_int,
}

-- The digit of a value below 16 in `toString(16)`.
unfoldable pub hex_digit : ℕ → ℕ
hex_digit d = if ltb d 10 then 0x30 + d else 0x61 + (d - 10)

digit_value-hex_digit : (d : ℕ) → d < 16 → digit_value (hex_digit d) ≡ some d
unfolding digit_value hex_digit
digit_value-hex_digit d h = ground arith

is_space-hex_digit : (d : ℕ) → d < 16 → is_space (hex_digit d) ≡ false
unfolding is_space hex_digit
is_space-hex_digit d h = ground arith

strip_0x_digits :
    (a b : ℕ) (s : Text) → b < 16 → strip_0x 16 (a ∷ hex_digit b ∷ s) ≡ a ∷ hex_digit b ∷ s
unfolding strip_0x hex_digit
strip_0x_digits a b s h = ground arith

digits_from_step :
    (d acc : ℕ) (seen : Bool) (s : Text)
    → d < 16
    → digits_from 16 seen acc (hex_digit d ∷ s) ≡ digits_from 16 true (acc * 16 + d) s
unfolding digits_from
digits_from_step d acc seen s h = ground (arith, digit_value-hex_digit d)

signed-hex_digit :
    (a b : ℕ) (s : Text)
    → a < 16
    → b < 16
    → signed 16 (hex_digit a ∷ hex_digit b ∷ s)
      ≡ digits_from 16 false 0 (hex_digit a ∷ hex_digit b ∷ s)
unfolding signed
signed-hex_digit a b s ha hb =
    rw (strip_0x_digits (hex_digit a) b s hb) (unfold hex_digit in ground arith)

trim_start-hex_digit : (a : ℕ) (s : Text) → a < 16 → trim_start (hex_digit a ∷ s) ≡ hex_digit a ∷ s
unfolding trim_start
trim_start-hex_digit a s h = rw (is_space-hex_digit a h)

digits_from_end : (n : ℕ) → digits_from 16 true n [] ≡ int n
digits_from_end n = unfold digits_from in refl

parse_int_lem : (s : Text) → parse_int s 16 ≡ signed 16 (trim_start s)
parse_int_lem s = unfold parse_int in refl

-- Two hexadecimal digits are read as the number that they denote.
pub parse_int-hex_pair :
    (a b : ℕ) → a < 16 → b < 16 → parse_int (hex_digit a ∷ hex_digit b ∷ []) 16 ≡ int (a * 16 + b)
parse_int-hex_pair a b ha hb =
    parse_int_lem _
    ∙ ap (signed 16) (trim_start-hex_digit a _ ha)
    ∙ signed-hex_digit a b _ ha hb
    ∙ digits_from_step a 0 false _ ha
    ∙ digits_from_step b (0 * 16 + a) true [] hb
    ∙ digits_from_end _
    ∙ ap int (omega arith)

-- Four hexadecimal digits are read as the number that they denote.
pub parse_int-hex_digit :
    (a b c d : ℕ)
    → a < 16
    → b < 16
    → c < 16
    → d < 16
    → parse_int (hex_digit a ∷ hex_digit b ∷ hex_digit c ∷ hex_digit d ∷ []) 16
      ≡ int (((a * 16 + b) * 16 + c) * 16 + d)
parse_int-hex_digit a b c d ha hb hc hd =
    parse_int_lem _
    ∙ ap (signed 16) (trim_start-hex_digit a _ ha)
    ∙ signed-hex_digit a b _ ha hb
    ∙ digits_from_step a 0 false _ ha
    ∙ digits_from_step b (0 * 16 + a) true _ hb
    ∙ digits_from_step c ((0 * 16 + a) * 16 + b) true _ hc
    ∙ digits_from_step d (((0 * 16 + a) * 16 + b) * 16 + c) true [] hd
    ∙ digits_from_end _
    ∙ ap int (omega arith)
