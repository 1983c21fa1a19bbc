-- ===== src/PktLine/Codec.antt =====
-- The encoder of src/lib/transport/pkt-line.ts and its parser of a whole buffer. Bytes are numbers.
-- `TextDecoder.decode` is a parameter: the parser applies it to the four bytes of a length.
use just_git.Base.{
  ℕ, zero, suc, ◌+◌, ◌/◌, ◌%◌, List, [], ◌∷◌, ◌++◌, Text, length, take, drop, ltb, ◌==◌,
  if◌then◌else◌,
}
use just_git.Base.ParseInt.Hex.{hex_digit}
use just_git.Base.ParseInt.{ParsedInt, nan, int, negative, parse_int}

abbrev pub Bytes : Type 0
Bytes = List ℕ

abbrev pub max_pkt_len : ℕ
max_pkt_len = 65520

pub data PktLine : Type 0 where
  data_line : Bytes → PktLine
  flush delim response_end : PktLine

-- The errors that the encoder and the parsers throw, by their messages without the numbers in them: the
-- two parsers have a message each for a line that is not whole, `truncated_line` and `truncated_stream`.
pub data PktError : Type 0 where
  too_long truncated_header invalid_length truncated_line truncated_stream : PktError

pub data Result {ℓ} (A : Type ℓ) : Type ℓ where
  ok : A → Result A
  err : PktError → Result A

-- `n.toString(16).padStart(4, "0")` for n below 65536.
unfoldable pub hex4 : ℕ → Bytes
hex4 n =
    hex_digit (n / 4096 % 16)
    ∷ hex_digit (n / 256 % 16)
    ∷ hex_digit (n / 16 % 16)
    ∷ hex_digit (n % 16)
    ∷ []

-- `encodePktLine` of the bytes of a payload; of a string, its UTF-8 bytes are the payload.
unfoldable pub encode_pkt_line : Bytes → Result Bytes
encode_pkt_line payload =
    let total_len = 4 + length payload in
    if ltb max_pkt_len total_len then err too_long else ok (hex4 total_len ++ payload)

abbrev pub flush_pkt : Bytes
flush_pkt = 0x30 ∷ 0x30 ∷ 0x30 ∷ 0x30 ∷ []

abbrev pub delim_pkt : Bytes
delim_pkt = 0x30 ∷ 0x30 ∷ 0x30 ∷ 0x31 ∷ []

abbrev pub response_end_pkt : Bytes
response_end_pkt = 0x30 ∷ 0x30 ∷ 0x30 ∷ 0x32 ∷ []

unfoldable pub concat_pkt_lines : List Bytes → Bytes
concat_pkt_lines [] = []
concat_pkt_lines (l ∷ ls) = l ++ concat_pkt_lines ls

-- What the four bytes of a length announce: `wait n` is a data line of n bytes in all, header
-- included.
pub data Header : Type 0 where
  special : PktLine → Header
  wait : ℕ → Header
  invalid : Header

unfoldable pub classify : ParsedInt → Header
classify nan = invalid
classify (negative n) = invalid
classify (int len) =
    if len == 0
    then special flush
    else if len == 1
    then special delim
    else if len == 2
    then special response_end
    else if ltb len 4
    then invalid
    else wait len

-- What the front of a buffer holds: fewer than four bytes, a length that is none, a data line that
-- is not whole, or a line and the bytes that it takes.
pub data Front : Type 0 where
  short bad partial : Front
  line : PktLine → ℕ → Front

unfoldable pub front_of : Bytes → Header → Front
front_of buf invalid = bad
front_of buf (special l) = line l 4
front_of buf (wait len) =
    if ltb (length buf) len then partial else line (data_line (drop 4 (take len buf))) len

-- The tests that each of the three parsing loops makes in a round.
unfoldable pub front : (Bytes → Text) → Bytes → Front
unfolding front_of
front decode buf =
    if ltb (length buf) 4
    then short
    else front_of buf (classify (parse_int (decode (take 4 buf)) 16))

-- The result of `parsePktLineStream`. `stuck` is none of the program's: the fuel ran out.
pub data Parse : Type 0 where
  parsed : List PktLine → Parse
  failed : PktError → Parse
  stuck : Parse

unfoldable pub cons_line : PktLine → Parse → Parse
cons_line l (parsed lines) = parsed (l ∷ lines)
cons_line l (failed e) = failed e
cons_line l stuck = stuck

-- The loop; the list is what stands from `offset` on. Each line takes four bytes at least, so the
-- buffer's length is fuel enough.
unfoldable pub parse_loop : (Bytes → Text) → ℕ → Bytes → Parse
parse_loop decode fuel [] = parsed []
parse_loop decode zero (b ∷ buf) = stuck
parse_loop decode (suc fuel) (b ∷ buf) = elim (front decode (b ∷ buf)) [
  | short ↦ failed truncated_header
  | bad ↦ failed invalid_length
  | partial ↦ failed truncated_line
  | line l len ↦ cons_line l (parse_loop decode fuel (drop len (b ∷ buf)))
]

unfoldable pub parse_pkt_line_stream : (Bytes → Text) → Bytes → Parse
parse_pkt_line_stream decode buf = parse_loop decode (length buf) buf

-- `pktLineText`, with the decoder as a parameter.
strip_newline : Text → Text
strip_newline [] = []
strip_newline (c ∷ []) = if c == 0xa then [] else c ∷ []
strip_newline (c ∷ d ∷ s) = c ∷ strip_newline (d ∷ s)

unfoldable pub pkt_line_text : (Bytes → Text) → PktLine → Text
unfolding strip_newline
pkt_line_text decode (data_line bytes) = strip_newline (decode bytes)
pkt_line_text decode _ = []
