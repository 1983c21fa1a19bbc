-- ===== src/PktLine/Chunks.antt =====
-- Proofs about the incremental parser of src/lib/transport/pkt-line.ts.
use just_git.Base.{
  ℕ, zero, suc, ◌≤◌, ◌<◌, ◌≡◌, refl, sym, ap, ◌∙◌, Option, none, some, List, [], ◌∷◌, ◌++◌,
  append-nil, append_assoc, arith, Text, length, length-append, length-drop, take, drop,
  take-append_le, drop-append_le, lt→ltb,
}
use just_git.Base.ParseInt.{parse_int}
use just_git.PktLine.Codec.{
  Bytes, PktLine, PktError, truncated_header, invalid_length, truncated_line, truncated_stream,
  too_long, Header, special, wait, invalid, classify, Front, short, bad, partial, line, front_of,
  front, Parse, parsed, failed, cons_line, parse_loop, parse_pkt_line_stream, concat_pkt_lines,
}
use just_git.PktLine.Stream.{
  Events, Drained, yield_line, yield_lines, drain, check_empty, finish, parse_chunks,
  parse_pkt_lines_from_stream,
}
use just_git.PktLine.RoundTrip.{front_bounds, parse_line}

-- The error that the parser of the whole buffer has for the same fault: it has its own message for a
-- line that is not whole.
abbrev pub as_whole : PktError → PktError
as_whole too_long = too_long
as_whole truncated_header = truncated_header
as_whole invalid_length = invalid_length
as_whole truncated_line = truncated_line
as_whole truncated_stream = truncated_line

-- What a caller that collects the lines sees of a run of the generator, with the messages of the
-- parser of the whole buffer.
abbrev pub outcome : Events → Parse
outcome e = elim e.error [ none ↦ parsed e.lines | some err ↦ failed (as_whole err) ]

-- The lines that a parser found before, in front of what it finds in the rest.
abbrev pub cons_lines : List PktLine → Parse → Parse
cons_lines [] p = p
cons_lines (l ∷ ls) p = cons_line l (cons_lines ls p)

cons_line-outcome :
    (l : PktLine) (ls : List PktLine) (e : Option PktError)
    → outcome (record { lines = l ∷ ls; error = e })
      ≡ cons_line l (outcome (record { lines = ls; error = e }))
unfolding cons_line
cons_line-outcome l ls none = refl
cons_line-outcome l ls (some e) = refl

outcome-yield_lines :
    (ls : List PktLine) (e : Events) → outcome (yield_lines ls e) ≡ cons_lines ls (outcome e)
unfolding yield_lines
outcome-yield_lines [] e = refl
outcome-yield_lines (l ∷ ls) e =
    cons_line-outcome l (ls ++ e.lines) e.error ∙ ap (cons_line l) (outcome-yield_lines ls e)

module _ (decode : Bytes → Text) where
  front_of-append :
      (buf more : Bytes) (h : Header) (l : PktLine) (n : ℕ)
      → front_of buf h ≡ line l n
      → front_of (buf ++ more) h ≡ line l n
  unfolding front_of
  front_of-append buf more (special k) l n e = e
  front_of-append buf more invalid l n e = e
  front_of-append buf more (wait len) l n e =
      ground (arith, length-append buf more, take-append_le len buf more)

  front_of-append-bad :
      (buf more : Bytes) (h : Header) → front_of buf h ≡ bad → front_of (buf ++ more) h ≡ bad
  unfolding front_of
  front_of-append-bad buf more h e = ground arith

  front-append :
      (buf more : Bytes) (l : PktLine) (n : ℕ)
      → front decode buf ≡ line l n
      → front decode (buf ++ more) ≡ line l n
  unfolding front
  front-append buf more l n e = ground (
    arith,
    length-append buf more,
    take-append_le 4 buf more,
    front_of-append buf more (classify (parse_int (decode (take 4 buf)) 16)) l n,
  )

  front-append-bad : (buf more : Bytes) → front decode buf ≡ bad → front decode (buf ++ more) ≡ bad
  unfolding front
  front-append-bad buf more e = ground (
    arith,
    length-append buf more,
    take-append_le 4 buf more,
    front_of-append-bad buf more (classify (parse_int (decode (take 4 buf)) 16)),
  )

  bad_bounds : (buf : Bytes) → front decode buf ≡ bad → 4 ≤ length buf
  unfolding front
  bad_bounds buf e = ground arith

  partial_bounds : (buf : Bytes) → front decode buf ≡ partial → 4 ≤ length buf
  unfolding front
  partial_bounds buf e = ground arith

  parse_front :
      (buf : Bytes) (r : Front)
      → 0 < length buf
      → front decode buf ≡ r
      → parse_pkt_line_stream decode buf ≡ elim r [
        | short ↦ failed truncated_header
        | bad ↦ failed invalid_length
        | partial ↦ failed truncated_line
        | line l n ↦ cons_line l (parse_pkt_line_stream decode (drop n buf))
      ]
  unfolding parse_pkt_line_stream parse_loop
  parse_front [] r h e = absurd (omega arith)
  parse_front (b ∷ buf) short h e = rw (e, parse_pkt_line_stream, parse_loop)
  parse_front (b ∷ buf) bad h e = rw (e, parse_pkt_line_stream, parse_loop)
  parse_front (b ∷ buf) partial h e = rw (e, parse_pkt_line_stream, parse_loop)
  parse_front (b ∷ buf) (line l n) h e = parse_line decode (b ∷ buf) l n e

  -- What the inner loop and then the parser of a whole buffer make of the bytes.
  abbrev resumed : Bytes → Drained → Parse
  resumed more d = elim d.error [
    | some e ↦ failed (as_whole e)
    | none ↦ cons_lines d.lines (parse_pkt_line_stream decode (d.rest ++ more))
  ]

  resumed-yield_line :
      (more : Bytes) (l : PktLine) (d : Drained)
      → resumed more (yield_line l d) ≡ cons_line l (resumed more d)
  unfolding yield_line cons_line
  resumed-yield_line more l d =
      elim d.error
        as (λ o.
          resumed more (yield_line l (record d { error = o }))
          ≡ cons_line l (resumed more (record d { error = o }))) [ none ↦ refl | some e ↦ refl ]

  resumed-drain :
      (fuel : ℕ) (buf more : Bytes)
      → length buf ≤ fuel
      → resumed more (drain decode fuel buf) ≡ parse_pkt_line_stream decode (buf ++ more)
  unfolding drain
  resumed-drain zero buf more h = refl
  resumed-drain (suc fuel) buf more h =
      by_front (front decode buf) refl (λ n. resumed-drain fuel (drop n buf) more)
    where
      by_front :
          (r : Front)
          → front decode buf ≡ r
          → ((n : ℕ)
              → length (drop n buf) ≤ fuel
              → resumed more (drain decode fuel (drop n buf))
                ≡ parse_pkt_line_stream decode (drop n buf ++ more))
          → resumed more (drain decode (suc fuel) buf) ≡ parse_pkt_line_stream decode (buf ++ more)
      by_front short e ih = rw (e, drain)
      by_front partial e ih = rw (e, drain)
      by_front bad e ih =
          rw (e, drain)
            (sym (
              parse_front (buf ++ more) bad
                (omega (arith, length-append buf more, bad_bounds buf e))
                (front-append-bad buf more e)))
      by_front (line l n) e ih =
          rw (e, drain)
            (resumed-yield_line more l (drain decode fuel (drop n buf))
              ∙ ap (cons_line l)
                  (ih n (omega (arith, length-drop n buf, front_bounds decode buf l n e)))
              ∙ ap (λ s. cons_line l (parse_pkt_line_stream decode s))
                  (sym (drop-append_le n buf more (front_bounds decode buf l n e).1))
              ∙ sym (parse_line decode (buf ++ more) l n (front-append buf more l n e)))

  parse_nothing : parse_pkt_line_stream decode [] ≡ parsed []
  unfolding parse_pkt_line_stream parse_loop
  parse_nothing = refl

  outcome-check_empty :
      (buf : Bytes)
      → front decode buf ≡ short
      → outcome (check_empty buf) ≡ parse_pkt_line_stream decode buf
  unfolding check_empty
  outcome-check_empty [] e = sym parse_nothing
  outcome-check_empty (b ∷ buf) e =
      rw (lt→ltb 0 (suc (length buf)) (omega arith))
        (sym (parse_front (b ∷ buf) short (omega arith) e))

  outcome-finish :
      (fuel : ℕ) (buf : Bytes)
      → length buf ≤ fuel
      → outcome (finish decode fuel buf) ≡ parse_pkt_line_stream decode buf
  unfolding finish
  outcome-finish zero [] h = unfold check_empty in sym parse_nothing
  outcome-finish zero (b ∷ buf) h = absurd (omega arith)
  outcome-finish (suc fuel) buf h =
      by_front (front decode buf) refl (λ n. outcome-finish fuel (drop n buf))
    where
      by_front :
          (r : Front)
          → front decode buf ≡ r
          → ((n : ℕ)
              → length (drop n buf) ≤ fuel
              → outcome (finish decode fuel (drop n buf))
                ≡ parse_pkt_line_stream decode (drop n buf))
          → outcome (finish decode (suc fuel) buf) ≡ parse_pkt_line_stream decode buf
      by_front short e ih = rw (e, finish) (outcome-check_empty buf e)
      by_front bad e ih =
          rw (e, finish) (sym (parse_front buf bad (omega (arith, bad_bounds buf e)) e))
      by_front partial e ih =
          rw (e, finish) (sym (parse_front buf partial (omega (arith, partial_bounds buf e)) e))
      by_front (line l n) e ih =
          rw (e, finish)
            (outcome-yield_lines (l ∷ []) (finish decode fuel (drop n buf))
              ∙ ap (cons_line l)
                  (ih n (omega (arith, length-drop n buf, front_bounds decode buf l n e)))
              ∙ sym (parse_line decode buf l n e))

  outcome-resumed :
      (lines : List PktLine) (rest : Bytes) (error : Option PktError) (next : Events) (more : Bytes)
      → outcome next ≡ parse_pkt_line_stream decode (rest ++ more)
      → outcome (elim error as (λ _. Events) [
        | some e ↦ record { lines = lines; error = some e }
        | none ↦ yield_lines lines next
      ])
        ≡ resumed more (record { lines = lines; rest = rest; error = error })
  outcome-resumed lines rest none next more h =
      outcome-yield_lines lines next ∙ ap (cons_lines lines) h
  outcome-resumed lines rest (some e) next more h = refl

  outcome-parse_chunks :
      (buf : Bytes) (chunks : List Bytes)
      → outcome (parse_chunks decode buf chunks)
        ≡ parse_pkt_line_stream decode (buf ++ concat_pkt_lines chunks)
  unfolding parse_chunks concat_pkt_lines
  outcome-parse_chunks buf [] =
      let d = drain decode (length buf) buf in
      outcome-resumed d.lines d.rest d.error (finish decode (length d.rest) d.rest) [] (
        outcome-finish (length d.rest) d.rest (omega arith)
        ∙ ap (parse_pkt_line_stream decode) (sym (append-nil d.rest)))
      ∙ resumed-drain (length buf) buf [] (omega arith)
  outcome-parse_chunks buf (chunk ∷ chunks) =
      let d = drain decode (length buf) buf in
      let more = chunk ++ concat_pkt_lines chunks in
      outcome-resumed d.lines d.rest d.error (parse_chunks decode (d.rest ++ chunk) chunks) more (
        outcome-parse_chunks (d.rest ++ chunk) chunks
        ∙ ap (parse_pkt_line_stream decode) (append_assoc d.rest chunk (concat_pkt_lines chunks)))
      ∙ resumed-drain (length buf) buf more (omega arith)

-- However the bytes of a stream are cut into chunks, the incremental parser yields the lines
-- that the parser of the whole buffer returns, or throws the error that it throws, up to the
-- message for a line that is not whole.
pub parse_pkt_lines_from_stream-parse_pkt_line_stream :
    (decode : Bytes → Text) (chunks : List Bytes)
    → outcome (parse_pkt_lines_from_stream decode chunks)
      ≡ parse_pkt_line_stream decode (concat_pkt_lines chunks)
unfolding parse_pkt_lines_from_stream
parse_pkt_lines_from_stream-parse_pkt_line_stream decode chunks =
    outcome-parse_chunks decode [] chunks
