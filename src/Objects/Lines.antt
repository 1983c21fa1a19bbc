-- ===== src/Objects/Lines.antt =====
-- The layout that commits and tags share, src/lib/objects/commit.ts and src/lib/objects/tag.ts: header lines, a blank
-- line and a message.
use just_git.Base.{
  starts_with, ℕ, suc, ◌<◌, ◌≡◌, refl, sym, ap, ◌∙◌, false, some, List, [], ◌∷◌, ◌++◌, append_assoc,
  Text, take, drop, split, join_with, index_of_text, index_of_text-skip, index_of_text-single,
  includes_unit, split-join_with, join_with-append, length, length-append, take_append, arith,
  IsPart, All, ◌==◌,
}
use just_git.Objects.IdentityReadBack.{includes_unit-append}
use just_git.Objects.Commit.{header_line, newline, blank_line, split_message}

-- A header line is not empty and holds no line break.
abbrev pub IsLine : Text → Type 0
IsLine line = (includes_unit newline line ≡ false) × (0 < length line)

join_head :
    (y : ℕ) (q : Text) (ps : List Text) → (z : Text) × (join_with newline ((y ∷ q) ∷ ps) ≡ y ∷ z)
unfolding join_with
join_head y q [] = (q, refl)
join_head y q (p ∷ ps) = (q ++ (newline ∷ join_with newline (p ∷ ps)), refl)

first_blank :
    (h : Text) (hs : List Text) (message : Text)
    → All IsLine (h ∷ hs)
    → index_of_text blank_line (join_with newline (h ∷ hs) ++ (newline ∷ newline ∷ message))
      ≡ some (length (join_with newline (h ∷ hs)))
unfolding join_with
first_blank h [] message a =
    index_of_text-skip newline 0 h (newline ∷ newline ∷ message) a.0.0 (starts message)
    ∙ ap some (omega arith)
  where
    starts : (m : Text) → index_of_text blank_line (newline ∷ newline ∷ m) ≡ some 0
    starts m = unfold index_of_text starts_with in refl
first_blank h ([] ∷ ps) message a = absurd (omega (arith, a.1.0.1))
first_blank h ((y ∷ q) ∷ ps) message a =
    let rest = newline ∷ newline ∷ message in
    let (z, e) = join_head y q ps in
    let ih = first_blank (y ∷ q) ps message a.1 in
    ap (index_of_text blank_line) (append_assoc h (newline ∷ join_with newline ((y ∷ q) ∷ ps)) rest)
    ∙ ap (λ j. index_of_text blank_line (h ++ (newline ∷ (j ++ rest)))) e
    ∙ index_of_text-skip newline (suc (length (y ∷ z))) h (newline ∷ y ∷ (z ++ rest)) a.0.0 (
        index_of_text-single newline (length (y ∷ z)) y (z ++ rest) (not_newline y q a.1.0.0) (
          ap (λ j. index_of_text blank_line (j ++ rest)) (sym e)
          ∙ ih
          ∙ ap (λ (j : Text). some (length j)) e))
    ∙ ap some (sym (length-append h (newline ∷ y ∷ z)))
    ∙ ap (λ (j : Text). some (length (h ++ (newline ∷ j)))) (sym e)
  where
    not_newline :
        (y : ℕ) (q : Text) → includes_unit newline (y ∷ q) ≡ false → (y == newline) ≡ false
    not_newline y q h = unfold includes_unit in ground (arith, h)

-- The parts are found again in what was written.
pub split_message-join :
    (h : Text) (hs : List Text) (message : Text)
    → All IsLine (h ∷ hs)
    → split_message (join_with newline ((h ∷ hs) ++ ([] ∷ message ∷ [])))
      ≡ (join_with newline (h ∷ hs), message)
unfolding split_message
split_message-join h hs message a =
    let top = join_with newline (h ∷ hs) in
    ap split_message (
      join_with-append newline h [] hs (message ∷ [])
      ∙ ap (λ t. top ++ (newline ∷ t)) (blank message))
    ∙ cut_at (top ++ (newline ∷ newline ∷ message)) (length top) (first_blank h hs message a)
    ∙ pair_eq (take_append top (newline ∷ newline ∷ message) (length top) refl) (behind top)
  where
    blank : (m : Text) → join_with newline ([] ∷ m ∷ []) ≡ newline ∷ m
    blank m = unfold join_with in refl

    cut_at :
        (text : Text) (i : ℕ)
        → index_of_text blank_line text ≡ some i
        → split_message text ≡ (take i text, drop (suc (suc i)) text)
    cut_at text i e = ground (arith, e)

    pair_eq : {a b c d : Text} → a ≡ b → c ≡ d → ◌≡◌ {A = Text × Text} (a, c) (b, d)
    pair_eq e f = λ i. (e i, f i)

    behind : (t : Text) → drop (suc (suc (length t))) (t ++ (newline ∷ newline ∷ message)) ≡ message
    behind [] = refl
    behind (x ∷ t) = behind t

pub split_lines :
    (h : Text) (hs : List Text)
    → All IsLine (h ∷ hs)
    → split newline (join_with newline (h ∷ hs)) ≡ h ∷ hs
split_lines h hs a = split-join_with newline h hs (parts (h ∷ hs) a)
  where
    parts : (ls : List Text) → All IsLine ls → All (IsPart newline) ls
    parts [] a = tt
    parts (l ∷ ls) a = (a.0.0, parts ls a.1)

pub take-header : (key value : Text) → take (length key) (key ++ (0x20 ∷ value)) ≡ key
take-header key value = take_append key (0x20 ∷ value) (length key) refl

pub drop-header : (key value : Text) → drop (suc (length key)) (key ++ (0x20 ∷ value)) ≡ value
drop-header [] value = refl
drop-header (x ∷ key) value = drop-header key value

pub header_line-IsLine :
    (key value : Text)
    → includes_unit newline key ≡ false
    → includes_unit newline value ≡ false
    → IsLine (header_line key value)
unfolding includes_unit
header_line-IsLine key value h g =
    (includes_unit-append newline key (0x20 ∷ value) ∙ rw (h, g), some_unit key)
  where
    some_unit : (k : Text) → 0 < length (k ++ (0x20 ∷ value))
    some_unit [] = omega arith
    some_unit (x ∷ k) = omega arith
