-- ===== src/Objects/ReadBack.antt =====
-- Proofs about src/lib/objects/tree.ts: what `parseTree` makes of what `serializeTree` writes.
use just_git.Base.{
  ℕ, zero, suc, ◌≤◌, ◌<◌, ◌≡◌, subst, not, leb, Bool-cases, refl, sym, ap, ◌∙◌, inl, inr, Bool,
  true, false, none, some, List, [], ◌∷◌, ◌++◌, append_assoc, arith, Text, text_eq, text_eq→eq,
  includes_unit, some_of, length, length-append, take, drop, take_append, drop_append, All,
}
use just_git.Objects.Hex.{Bytes, bytes_to_hex, bytes_of, hex_to_bytes}
use just_git.Objects.HexBytes.{IsHexOf, hex_of-bytes_of, length-bytes_of}
use just_git.Objects.Tree.{
  TreeEntry, tree, valid_modes, validate_tree_entry, cut, pad_mode, strip_zeros, cons_entry,
  push_entry, parse_entries, parse_tree, serialize_entry, serialize_tree,
}

-- A cut at the first place of a byte.
cut-append : (u : ℕ) (a b : Bytes) → includes_unit u a ≡ false → cut u (a ++ (u ∷ b)) ≡ some (a, b)
unfolding cut includes_unit
cut-append u [] b h = ground arith
cut-append u (x ∷ a) b h = ground (arith, cut-append u a b)

abbrev pub is_ascii : Text → Bool
is_ascii s = not (some_of (λ c. leb 128 c) s)

-- A mode as `serializeTree` writes it: no space, and padded again it is the mode.
abbrev IsWritten : Text → Type 0
IsWritten m =
    (includes_unit 0x20 (strip_zeros m) ≡ false)
    × (pad_mode (strip_zeros m) ≡ m)
    × (is_ascii (strip_zeros m) ≡ true)

valid_modes-IsWritten : All IsWritten valid_modes
unfolding includes_unit strip_zeros pad_mode some_of
valid_modes-IsWritten = (
  (refl, refl, refl),
  ((refl, refl, refl), ((refl, refl, refl), ((refl, refl, refl), ((refl, refl, refl), tt)))),
)

some_of-All :
    (P : Text → Type 0) (m : Text) (ms : List Text)
    → All P ms
    → some_of (λ n. text_eq n m) ms ≡ true
    → P m
unfolding some_of
some_of-All P m [] a h = ground arith
some_of-All P m (n ∷ ms) a h = elim (Bool-cases (text_eq n m)) [
  | inl e ↦ subst P (text_eq→eq n m e) a.0
  | inr e ↦ some_of-All P m ms a.1 (ground arith)
]

validate-mode :
    (name mode : Text)
    → validate_tree_entry name mode ≡ none
    → (some_of (λ m. text_eq m mode) valid_modes ≡ true) × (includes_unit 0 name ≡ false)
unfolding validate_tree_entry
validate-mode name mode h = ground arith

parse_entries_step :
    (decode : Bytes → Text) (fuel : ℕ) (content m r n t : Bytes)
    → cut 0x20 content ≡ some (m, r)
    → cut 0 r ≡ some (n, t)
    → parse_entries decode (suc fuel) content
      ≡ push_entry
          (record { mode = pad_mode (decode m); name = decode n; hash = bytes_to_hex (take 20 t) })
          (parse_entries decode fuel (drop 20 t))
unfolding parse_entries
parse_entries_step decode fuel [] m r n t e f = unfold cut in ground arith
parse_entries_step decode fuel (b ∷ content) m r n t e f = rw (e, f, parse_entries)

-- What the encoder and the decoder of UTF-8 do: they split at an ASCII unit, no other unit gives a zero
-- byte, and ASCII is decoded to itself.
pub record IsUtf8 (encode : Text → Bytes) (decode : Bytes → Text) : Type 0 where
  pub encode-nil : encode [] ≡ []
  pub encode-append :
      (a b : Text) (c : ℕ) → c < 128 → encode (a ++ (c ∷ b)) ≡ encode a ++ (c ∷ encode b)
  pub encode-zero : (s : Text) → includes_unit 0 s ≡ false → includes_unit 0 (encode s) ≡ false
  pub decode-ascii : (s : Text) → is_ascii s ≡ true → decode s ≡ s

module _ (encode : Text → Bytes) (decode : Bytes → Text) (utf8 : IsUtf8 encode decode) where
  encode-ascii : (s : Text) → is_ascii s ≡ true → encode s ≡ s
  unfolding some_of
  encode-ascii [] h = utf8.encode-nil
  encode-ascii (c ∷ s) h =
      utf8.encode-append [] s c (ground arith)
      ∙ rw utf8.encode-nil (ap (λ t. c ∷ t) (encode-ascii s (ground arith)))

  -- An entry that is valid, with a hash of forty lower-case digits and a name that is well-formed.
  abbrev pub IsWritable : TreeEntry → Type 0
  IsWritable e =
      (validate_tree_entry e.name e.mode ≡ none)
      × IsHexOf 20 e.hash
      × (decode (encode e.name) ≡ e.name)

  written : (e : TreeEntry) → IsWritable e → IsWritten e.mode
  written e h =
      some_of-All IsWritten e.mode valid_modes valid_modes-IsWritten
        (validate-mode e.name e.mode h.0).0

  layout :
      (e : TreeEntry) (rest : Bytes)
      → IsWritable e
      → serialize_entry encode e ++ rest
        ≡ strip_zeros e.mode ++ (0x20 ∷ (encode e.name ++ (0 ∷ (hex_to_bytes e.hash ++ rest))))
  unfolding serialize_entry
  layout e rest h =
      rw
        (
          utf8.encode-append (strip_zeros e.mode) (e.name ++ (0 ∷ [])) 0x20 (omega arith),
          encode-ascii (strip_zeros e.mode) (written e h).2,
          utf8.encode-append e.name [] 0 (omega arith),
          utf8.encode-nil,
        )
        (append_assoc (strip_zeros e.mode ++ (0x20 ∷ (encode e.name ++ (0 ∷ []))))
            (hex_to_bytes e.hash) rest
          ∙ append_assoc (strip_zeros e.mode) (0x20 ∷ (encode e.name ++ (0 ∷ [])))
              (hex_to_bytes e.hash ++ rest)
          ∙ ap (λ t. strip_zeros e.mode ++ (0x20 ∷ t))
              (append_assoc (encode e.name) (0 ∷ []) (hex_to_bytes e.hash ++ rest)))

  abbrev read_entry : Bytes → Bytes → Bytes → TreeEntry
  read_entry m n t = record {
    mode = pad_mode (decode m);
    name = decode n;
    hash = bytes_to_hex (take 20 t);
  }

  read_entry-serialize :
      (e : TreeEntry) (rest : Bytes)
      → IsWritable e
      → read_entry (strip_zeros e.mode) (encode e.name) (hex_to_bytes e.hash ++ rest) ≡ e
  unfolding hex_to_bytes bytes_to_hex
  read_entry-serialize e rest h =
      let taken : take 20 (bytes_of 20 e.hash ++ rest) ≡ bytes_of 20 e.hash =
        take_append (bytes_of 20 e.hash) rest 20 (sym (length-bytes_of 20 e.hash)) in
      rw (
        utf8.decode-ascii (strip_zeros e.mode) (written e h).2,
        (written e h).1,
        h.2,
        taken,
        hex_of-bytes_of 20 e.hash h.1,
      )

  parse_entries-serialize :
      (fuel : ℕ) (e : TreeEntry) (rest : Bytes)
      → IsWritable e
      → parse_entries decode (suc fuel) (serialize_entry encode e ++ rest)
        ≡ cons_entry e (parse_entries decode fuel rest)
  parse_entries-serialize fuel e rest h =
      ap (parse_entries decode (suc fuel)) (layout e rest h)
      ∙ parse_entries_step decode fuel _ (strip_zeros e.mode) _ (encode e.name) _
          (cut-append 0x20 (strip_zeros e.mode) _ (written e h).0)
          (cut-append 0 (encode e.name) _
            (utf8.encode-zero e.name (validate-mode e.name e.mode h.0).1))
      ∙ ap (λ x. push_entry x (parse_entries decode fuel (drop 20 (hex_to_bytes e.hash ++ rest))))
          (read_entry-serialize e rest h)
      ∙ unfold push_entry in rw (h.0, push_entry, dropped)
    where
      dropped : drop 20 (hex_to_bytes e.hash ++ rest) ≡ rest
      dropped =
          unfold hex_to_bytes in
          drop_append (bytes_of 20 e.hash) rest 20 (sym (length-bytes_of 20 e.hash))

  some_bytes : (e : TreeEntry) → 0 < length (serialize_entry encode e)
  unfolding serialize_entry hex_to_bytes
  some_bytes e = omega (
    arith,
    length-bytes_of 20 e.hash,
    length-append (encode (strip_zeros e.mode ++ (0x20 ∷ (e.name ++ (0 ∷ [])))))
        (bytes_of 20 e.hash),
  )

  parse_entries-serialize_tree :
      (fuel : ℕ) (entries : List TreeEntry)
      → length (serialize_tree encode entries) ≤ fuel
      → All IsWritable entries
      → parse_entries decode fuel (serialize_tree encode entries) ≡ tree entries
  unfolding serialize_tree
  parse_entries-serialize_tree fuel [] p h = unfold parse_entries in refl
  parse_entries-serialize_tree zero (e ∷ entries) p h = absurd (
      omega (
        arith,
        length-append (serialize_entry encode e) (serialize_tree encode entries),
        some_bytes e,
      ))
  parse_entries-serialize_tree (suc fuel) (e ∷ entries) p h =
      parse_entries-serialize fuel e (serialize_tree encode entries) h.0
      ∙ ap (cons_entry e) (
          parse_entries-serialize_tree fuel entries
            (omega (
              arith,
              length-append (serialize_entry encode e) (serialize_tree encode entries),
              some_bytes e,
            ))
            h.1)
      ∙ unfold cons_entry in refl

  -- With an encoder and a decoder of UTF-8, a tree whose entries are valid, with hashes of forty
  -- lower-case digits and names that the coders keep, is parsed from its bytes as it was.
  pub parse_tree-serialize_tree :
      (entries : List TreeEntry)
      → All IsWritable entries
      → parse_tree decode (serialize_tree encode entries) ≡ tree entries
  unfolding parse_tree
  parse_tree-serialize_tree entries h =
      parse_entries-serialize_tree (length (serialize_tree encode entries)) entries (omega arith) h
