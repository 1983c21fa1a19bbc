-- ===== src/PktLine/Stream.antt =====
-- The incremental parser of src/lib/transport/pkt-line.ts. The stream is the list of its chunks, and
-- the buffer the bytes below `bufLen`; how the array grows is not visible.
use just_git.Base.{
  ℕ, zero, suc, Option, none, some, List, [], ◌∷◌, ◌++◌, Text, length, drop, ltb, if◌then◌else◌,
}
use just_git.PktLine.Codec.{
  Bytes, PktLine, PktError, truncated_header, invalid_length, truncated_stream, short, bad, partial,
  line, front,
}

-- The lines that the generator yields, and the error that it throws after them.
pub record Events : Type 0 where
  pub lines : List PktLine
  pub error : Option PktError

-- What the inner loop yields, what it leaves in the buffer, and its error.
pub record Drained : Type 0 where
  pub lines : List PktLine
  pub rest : Bytes
  pub error : Option PktError

unfoldable pub yield_line : PktLine → Drained → Drained
yield_line l d = record d { lines = l ∷ d.lines }

unfoldable pub yield_lines : List PktLine → Events → Events
yield_lines ls e = record e { lines = ls ++ e.lines }

-- The inner loop of the first phase: it stops where more bytes are needed. A round takes four bytes
-- at least, so without fuel the buffer is empty.
unfoldable pub drain : (Bytes → Text) → ℕ → Bytes → Drained
drain decode zero buf = record { lines = []; rest = buf; error = none }
drain decode (suc fuel) buf = elim (front decode buf) [
  | short ↦ record { lines = []; rest = buf; error = none }
  | bad ↦ record { lines = []; rest = buf; error = some invalid_length }
  | partial ↦ record { lines = []; rest = buf; error = none }
  | line l len ↦ yield_line l (drain decode fuel (drop len buf))
]

-- `if (bufLen > 0) throw`
unfoldable pub check_empty : Bytes → Events
check_empty buf =
    if ltb 0 (length buf)
    then record { lines = []; error = some truncated_header }
    else record { lines = []; error = none }

-- The loop after the end of the stream.
unfoldable pub finish : (Bytes → Text) → ℕ → Bytes → Events
finish decode zero buf = check_empty buf
finish decode (suc fuel) buf = elim (front decode buf) [
  | short ↦ check_empty buf
  | bad ↦ record { lines = []; error = some invalid_length }
  | partial ↦ record { lines = []; error = some truncated_stream }
  | line l len ↦ yield_lines (l ∷ []) (finish decode fuel (drop len buf))
]

-- The outer loop: drain, then read; `done` ends it. An empty chunk changes nothing.
unfoldable pub parse_chunks : (Bytes → Text) → Bytes → List Bytes → Events
parse_chunks decode buf [] =
    let d = drain decode (length buf) buf in
    elim d.error [
      | some e ↦ record { lines = d.lines; error = some e }
      | none ↦ yield_lines d.lines (finish decode (length d.rest) d.rest)
    ]
parse_chunks decode buf (chunk ∷ chunks) =
    let d = drain decode (length buf) buf in
    elim d.error [
      | some e ↦ record { lines = d.lines; error = some e }
      | none ↦ yield_lines d.lines (parse_chunks decode (d.rest ++ chunk) chunks)
    ]

unfoldable pub parse_pkt_lines_from_stream : (Bytes → Text) → List Bytes → Events
parse_pkt_lines_from_stream decode chunks = parse_chunks decode [] chunks
