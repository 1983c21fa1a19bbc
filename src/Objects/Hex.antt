-- ===== src/Objects/Hex.antt =====
-- src/lib/hex.ts: hashes as twenty bytes and as forty hexadecimal digits.
use just_git.Base.{ℕ, zero, suc, ◌-◌, ◌/◌, ◌%◌, List, [], ◌∷◌, ◌++◌, Text, codes, take, drop}
use just_git.Base.ParseInt.Hex.{hex_digit}
use just_git.Base.ParseInt.{ParsedInt, nan, int, negative, parse_int}

abbrev pub Bytes : Type 0
Bytes = List ℕ

-- An entry of the table `LUT`.
unfoldable pub lut : ℕ → Text
lut i = hex_digit (i / 16) ∷ hex_digit (i % 16) ∷ []

-- `hex += LUT[bytes[i]]`, where a byte that is not there adds the text "undefined".
unfoldable pub hex_of : ℕ → Bytes → Text
hex_of zero bytes = []
hex_of (suc n) [] = codes "undefined" ++ hex_of n []
hex_of (suc n) (b ∷ bytes) = lut b ++ hex_of n bytes

unfoldable pub bytes_to_hex : Bytes → Text
bytes_to_hex bytes = hex_of 20 bytes

unfoldable pub hex_at : Bytes → ℕ → Text
hex_at bytes offset = hex_of 20 (drop offset bytes)

-- What a `Uint8Array` stores of a number.
unfoldable pub to_byte : ParsedInt → ℕ
to_byte nan = 0
to_byte (int n) = n % 256
to_byte (negative n) = (256 - n % 256) % 256

unfoldable pub bytes_of : ℕ → Text → Bytes
bytes_of zero hex = []
bytes_of (suc n) hex = to_byte (parse_int (take 2 hex) 16) ∷ bytes_of n (drop 2 hex)

unfoldable pub hex_to_bytes : Text → Bytes
hex_to_bytes hex = bytes_of 20 hex
