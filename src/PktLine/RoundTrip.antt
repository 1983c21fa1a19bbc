-- ===== src/PktLine/RoundTrip.antt =====
-- Proofs about the encoder and the parser of src/lib/transport/pkt-line.ts.
use just_git.Base.{
  ℕ, zero, suc, ◌+◌, ◌/◌, ◌%◌, ◌≤◌, ◌<◌, ◌≡◌, refl, sym, ap, ◌∙◌, List, [], ◌∷◌, ◌++◌, append_assoc,
  arith, Text, length, length-append, length-drop, take, drop, take_append, drop_append, All, ltb,
  if◌then◌else◌,
}
use just_git.Base.ParseInt.{int, parse_int}
use just_git.Base.ParseInt.Hex.{hex_digit, parse_int-hex_digit}
use just_git.PktLine.Codec.{
  Bytes, PktLine, data_line, flush, delim, response_end, ok, hex4, max_pkt_len, encode_pkt_line,
  classify, Front, short, bad, partial, line, front_of, front, parsed, cons_line, parse_loop,
  parse_pkt_line_stream, flush_pkt, delim_pkt, response_end_pkt, concat_pkt_lines,
}

-- Every line takes four bytes at least, and no more than the buffer has.
pub front_bounds :
    (decode : Bytes → Text) (buf : Bytes) (l : PktLine) (n : ℕ)
    → front decode buf ≡ line l n
    → (4 ≤ n) × (n ≤ length buf)
unfolding front classify
front_bounds decode buf l n h = ground arith

-- More fuel than the buffer has bytes changes nothing.
pub parse_loop_fuel :
    (decode : Bytes → Text) (f g : ℕ) (buf : Bytes)
    → length buf ≤ f
    → length buf ≤ g
    → parse_loop decode f buf ≡ parse_loop decode g buf
unfolding parse_loop
parse_loop_fuel decode f g [] p q = ground arith
parse_loop_fuel decode zero g (b ∷ buf) p q = absurd (omega arith)
parse_loop_fuel decode (suc f) zero (b ∷ buf) p q = absurd (omega arith)
parse_loop_fuel decode (suc f) (suc g) (b ∷ buf) p q =
    by_front (front decode (b ∷ buf)) refl (λ n h.
      parse_loop_fuel decode f g (drop n (b ∷ buf)) (omega (arith, length-drop n (b ∷ buf)))
        (omega (arith, length-drop n (b ∷ buf))))
  where
    by_front :
        (r : Front)
        → front decode (b ∷ buf) ≡ r
        → ((n : ℕ)
            → 4 ≤ n
            → parse_loop decode f (drop n (b ∷ buf)) ≡ parse_loop decode g (drop n (b ∷ buf)))
        → parse_loop decode (suc f) (b ∷ buf) ≡ parse_loop decode (suc g) (b ∷ buf)
    by_front short e ih = rw (e, parse_loop)
    by_front bad e ih = rw (e, parse_loop)
    by_front partial e ih = rw (e, parse_loop)
    by_front (line l n) e ih =
        rw (e, parse_loop) (ap (cons_line l) (ih n (front_bounds decode (b ∷ buf) l n e).0))

-- One line at the front of the buffer.
pub parse_line :
    (decode : Bytes → Text) (buf : Bytes) (l : PktLine) (n : ℕ)
    → front decode buf ≡ line l n
    → parse_pkt_line_stream decode buf ≡ cons_line l (parse_pkt_line_stream decode (drop n buf))
unfolding parse_pkt_line_stream parse_loop
parse_line decode [] l n e = absurd (omega (arith, front_bounds decode [] l n e))
parse_line decode (b ∷ buf) l n e =
    rw (e, parse_pkt_line_stream, parse_loop)
      (ap (cons_line l) (
        parse_loop_fuel decode (length buf) (length (drop n (b ∷ buf))) (drop n (b ∷ buf))
          (omega (arith, length-drop n (b ∷ buf), front_bounds decode (b ∷ buf) l n e))
          (omega arith)))

-- `TextDecoder` maps an ASCII byte to the character with its code.
abbrev pub DecodesAscii : (Bytes → Text) → Type 0
DecodesAscii decode = (bytes : Bytes) → All (λ b. b < 128) bytes → decode bytes ≡ bytes

hex_digit-lt : (d : ℕ) → d < 16 → hex_digit d < 128
unfolding hex_digit
hex_digit-lt d h = ground arith

module _ (decode : Bytes → Text) (ascii : DecodesAscii decode) where
  -- The parser reads the length that the encoder writes.
  parse_int-hex4 : (n : ℕ) → n < 65536 → parse_int (decode (hex4 n)) 16 ≡ int n
  unfolding hex4
  parse_int-hex4 n h =
      ap (λ s. parse_int s 16)
        (ascii (hex4 n) (
          hex_digit-lt (n / 4096 % 16) (omega arith),
          (
            hex_digit-lt (n / 256 % 16) (omega arith),
            (hex_digit-lt (n / 16 % 16) (omega arith), (hex_digit-lt (n % 16) (omega arith), tt)),
          ),
        ))
      ∙ parse_int-hex_digit (n / 4096 % 16) (n / 256 % 16) (n / 16 % 16) (n % 16) (omega arith)
          (omega arith) (omega arith) (omega arith)
      ∙ ap int (omega arith)

  length-hex4 : (n : ℕ) (s : Bytes) → length (hex4 n ++ s) ≡ 4 + length s
  length-hex4 n s = unfold hex4 in omega arith

  take-hex4 : (n : ℕ) (s : Bytes) → take 4 (hex4 n ++ s) ≡ hex4 n
  take-hex4 n s = unfold hex4 in refl

  front-encode :
      (payload rest : Bytes)
      → 4 + length payload ≤ max_pkt_len
      → front decode (hex4 (4 + length payload) ++ (payload ++ rest))
        ≡ line (data_line payload) (4 + length payload)
  unfolding front classify
  front-encode payload rest h =
      rw
        (
          take-hex4 (4 + length payload) (payload ++ rest),
          parse_int-hex4 (4 + length payload) (omega arith),
        )
        (ground (
          arith,
          length-hex4 (4 + length payload) (payload ++ rest),
          length-append payload rest,
          body,
        ))
    where
      four_more : 4 + length payload ≡ suc (suc (suc (suc (length payload))))
      four_more = omega arith

      body :
          drop 4 (take (4 + length payload) (hex4 (4 + length payload) ++ (payload ++ rest)))
          ≡ payload
      body = unfold hex4 in rw four_more (take_append payload rest (length payload) refl)

  encode_pkt_line-ok :
      (payload pkt : Bytes)
      → encode_pkt_line payload ≡ ok pkt
      → (4 + length payload ≤ max_pkt_len) × (pkt ≡ hex4 (4 + length payload) ++ payload)
  unfolding encode_pkt_line
  encode_pkt_line-ok payload pkt h = ground arith

  -- A line that the encoder accepts is parsed as its payload, and what follows it as if alone.
  pub parse-encode_pkt_line :
      (payload pkt rest : Bytes)
      → encode_pkt_line payload ≡ ok pkt
      → parse_pkt_line_stream decode (pkt ++ rest)
        ≡ cons_line (data_line payload) (parse_pkt_line_stream decode rest)
  parse-encode_pkt_line payload pkt rest h =
      ap (parse_pkt_line_stream decode) whole
      ∙ parse_line decode _ (data_line payload) (4 + length payload)
          (front-encode payload rest (encode_pkt_line-ok payload pkt h).0)
      ∙ ap (λ s. cons_line (data_line payload) (parse_pkt_line_stream decode s)) after
    where
      whole : pkt ++ rest ≡ hex4 (4 + length payload) ++ (payload ++ rest)
      whole =
          rw ((encode_pkt_line-ok payload pkt h).1)
            (append_assoc (hex4 (4 + length payload)) payload rest)

      after : drop (4 + length payload) (hex4 (4 + length payload) ++ (payload ++ rest)) ≡ rest
      after =
          ap (drop (4 + length payload))
            (sym (append_assoc (hex4 (4 + length payload)) payload rest))
          ∙ drop_append (hex4 (4 + length payload) ++ payload) rest (4 + length payload)
              (sym (length-hex4 (4 + length payload) payload))

  parse_special :
      (pkt rest : Bytes) (l : PktLine)
      → length pkt ≡ 4
      → front decode (pkt ++ rest) ≡ line l 4
      → parse_pkt_line_stream decode (pkt ++ rest) ≡ cons_line l (parse_pkt_line_stream decode rest)
  parse_special pkt rest l h e =
      parse_line decode (pkt ++ rest) l 4 e
      ∙ ap (λ s. cons_line l (parse_pkt_line_stream decode s)) (drop_append pkt rest 4 (sym h))

  parse_marker :
      (d : ℕ) (l : PktLine) (rest : Bytes)
      → d < 3
      → front_of (hex4 d ++ rest) (classify (int d)) ≡ line l 4
      → parse_pkt_line_stream decode (hex4 d ++ rest)
        ≡ cons_line l (parse_pkt_line_stream decode rest)
  parse_marker d l rest h e =
      parse_special (hex4 d) rest l (unfold hex4 in refl)
        (unfold front in at_front (length-hex4 d rest))
    where
      at_front :
          length (hex4 d ++ rest) ≡ 4 + length rest
          → (if ltb (length (hex4 d ++ rest)) 4
              then short
              else front_of
                  (hex4 d ++ rest)
                  (classify (parse_int (decode (take 4 (hex4 d ++ rest))) 16)))
            ≡ line l 4
      at_front n = rw (take-hex4 d rest, parse_int-hex4 d (omega arith)) (ground (arith, n, e))

  -- What the writer sends for a line: a data line goes through the encoder, the others are constants.
  abbrev pub IsSentAs : PktLine → Bytes → Type 0
  IsSentAs (data_line payload) pkt = encode_pkt_line payload ≡ ok pkt
  IsSentAs flush pkt = pkt ≡ flush_pkt
  IsSentAs delim pkt = pkt ≡ delim_pkt
  IsSentAs response_end pkt = pkt ≡ response_end_pkt

  abbrev pub AreSentAs : List PktLine → List Bytes → Type 0
  AreSentAs [] [] = Unit
  AreSentAs [] (pkt ∷ pkts) = ⊥
  AreSentAs (l ∷ lines) [] = ⊥
  AreSentAs (l ∷ lines) (pkt ∷ pkts) = IsSentAs l pkt × AreSentAs lines pkts

  parse_sent :
      (l : PktLine) (pkt rest : Bytes)
      → IsSentAs l pkt
      → parse_pkt_line_stream decode (pkt ++ rest) ≡ cons_line l (parse_pkt_line_stream decode rest)
  unfolding hex4 hex_digit
  parse_sent (data_line payload) pkt rest h = parse-encode_pkt_line payload pkt rest h
  parse_sent flush pkt rest h =
      rw h (parse_marker 0 flush rest (omega arith) (unfold front_of classify in refl))
  parse_sent delim pkt rest h =
      rw h (parse_marker 1 delim rest (omega arith) (unfold front_of classify in refl))
  parse_sent response_end pkt rest h =
      rw h (parse_marker 2 response_end rest (omega arith) (unfold front_of classify in refl))

  -- With a decoder that maps ASCII bytes to themselves, the concatenation of what the writer
  -- sends for a list of lines is parsed as that list.
  pub parse-concat_pkt_lines :
      (lines : List PktLine) (pkts : List Bytes)
      → AreSentAs lines pkts
      → parse_pkt_line_stream decode (concat_pkt_lines pkts) ≡ parsed lines
  unfolding concat_pkt_lines
  parse-concat_pkt_lines [] [] h = unfold parse_pkt_line_stream parse_loop in refl
  parse-concat_pkt_lines [] (pkt ∷ pkts) h = absurd h
  parse-concat_pkt_lines (l ∷ lines) [] h = absurd h
  parse-concat_pkt_lines (l ∷ lines) (pkt ∷ pkts) h =
      parse_sent l pkt (concat_pkt_lines pkts) h.0
      ∙ ap (cons_line l) (parse-concat_pkt_lines lines pkts h.1)
      ∙ unfold cons_line in refl
