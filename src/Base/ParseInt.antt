-- ===== src/Base/ParseInt.antt =====
-- JavaScript's `parseInt(text, radix)` for the radixes that the program uses (8, 10 and 16).
pub mod Hex
pub mod Decimal
use Prim.Native.Nat.{ℕ, ◌+◌, ◌-◌, ◌*◌}
use mathlib.Core.Path.{◌≡◌, refl}
use mathlib.Core.Bool.{Bool, true, false, ◌||◌, ◌&&◌}
use mathlib.Core.List.{[], ◌∷◌}
use mathlib.Core.Option.{Option, none, some}
use just_git.Base.Tests.{ltb, leb, ◌==◌, if◌then◌else◌}
use just_git.Base.Strings.{Text, codes}

-- `NaN`, or an integer. A negative number keeps its absolute value; `-0` counts as `int 0`, which
-- `=== 0` does not tell apart.
pub data ParsedInt : Type 0 where
  nan : ParsedInt
  int : ℕ → ParsedInt
  negative : ℕ → ParsedInt

-- StrWhiteSpaceChar: white space and line terminators.
is_space : ℕ → Bool
is_space c =
    (leb 0x9 c && leb c 0xd)
    || c == 0x20
    || c == 0xa0
    || c == 0x1680
    || (leb 0x2000 c && leb c 0x200a)
    || c == 0x2028
    || c == 0x2029
    || c == 0x202f
    || c == 0x205f
    || c == 0x3000
    || c == 0xfeff

unfoldable pub trim_start : Text → Text
unfolding is_space
trim_start [] = []
trim_start (c ∷ s) = let rest = trim_start s in if is_space c then rest else c ∷ s

unfoldable pub digit_value : ℕ → Option ℕ
digit_value c =
    if leb 0x30 c && leb c 0x39
    then some (c - 0x30)
    else if leb 0x41 c && leb c 0x5a
    then some (c - 0x41 + 10)
    else if leb 0x61 c && leb c 0x7a
    then some (c - 0x61 + 10)
    else none

-- The digits up to the first code unit that is none; `seen` says whether one was read.
unfoldable pub digits_from : ℕ → Bool → ℕ → Text → ParsedInt
digits_from radix seen acc [] = if seen then int acc else nan
digits_from radix seen acc (c ∷ s) = elim (digit_value c) [
  | none ↦ if seen then int acc else nan
  | some d ↦ elim (ltb d radix) [
    | true ↦ digits_from radix true (acc * radix + d) s
    | false ↦ if seen then int acc else nan
  ]
]

negate : ParsedInt → ParsedInt
negate nan = nan
negate (int n) = if n == 0 then int 0 else negative n
negate (negative n) = negative n

strip_0x : ℕ → Text → Text
strip_0x radix (z ∷ x ∷ s) =
    if radix == 16 && z == 0x30 && (x == 0x78 || x == 0x58) then s else z ∷ x ∷ s
strip_0x radix s = s

signed : ℕ → Text → ParsedInt
signed radix [] = nan
signed radix (c ∷ s) =
    if c == 0x2d
    then negate (digits_from radix false 0 (strip_0x radix s))
    else if c == 0x2b
    then digits_from radix false 0 (strip_0x radix s)
    else digits_from radix false 0 (strip_0x radix (c ∷ s))

unfoldable pub parse_int : Text → ℕ → ParsedInt
unfolding signed trim_start is_space digits_from digit_value strip_0x negate
parse_int s radix = signed radix (trim_start s)

parse_int_runs :
    (parse_int (codes "00a5") 16 ≡ int 165)
    × (parse_int (codes " -0x1g") 16 ≡ negative 1)
    × (parse_int (codes "0x") 16 ≡ nan)
    × (parse_int (codes "100644") 8 ≡ int 0x81a4)
unfolding parse_int
parse_int_runs = (refl, refl, refl, refl)
