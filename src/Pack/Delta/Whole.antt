-- ===== src/Pack/Delta/Whole.antt =====
-- `applyDelta` of src/lib/pack/packfile.ts on any bytes: it returns what the instructions make, where they fit.
use just_git.Base.{
  ℕ, ◌^◌, ◌≡◌, refl, ◌<◌, sym, ap, ◌∙◌, true, List, ◌&&◌, [], length, ltb, ◌==◌, arith, Bool-cases,
  inl, inr,
}
use just_git.Pack.Sizes.{Bytes, read_size_encoding}
use just_git.Pack.Delta.Apply.{
  base_size_mismatch, range_error, reserved_opcode, target_size_mismatch, stuck, Applied, ok, err,
  apply_delta,
}
use just_git.Pack.Delta.Fits.{apply_from-laid}
use just_git.Pack.Delta.Laid.{IsLaid, apply_from-IsLaid}
use just_git.Pack.Delta.Pieces.{Piece, IsRead, laid, Holds, Holds-map}

-- The sizes of the base and of the target that the header declares, and the instructions behind it.
abbrev pub declared_base : Bytes → ℕ
declared_base delta = (read_size_encoding delta).0

abbrev pub declared_size : Bytes → ℕ
declared_size delta = (read_size_encoding (read_size_encoding delta).1).0

abbrev pub instructions : Bytes → Bytes
instructions delta = (read_size_encoding (read_size_encoding delta).1).1

-- The header declares the base's size, and the pieces of the instructions have the declared size together.
abbrev pub Fits : Bytes → Bytes → List Piece → Type 0
Fits base delta pieces =
    (declared_base delta ≡ length base)
    × (declared_base delta < 2 ^ 31)
    × (declared_size delta < 2 ^ 31)
    × IsRead base (instructions delta) pieces
    × (length (laid pieces) ≡ declared_size delta)

-- The bytes of pieces that fit, or an error where none do.
abbrev pub IsApplied : Bytes → Bytes → Applied → Type 0
IsApplied base delta (ok target) =
    (pieces : List Piece) × Fits base delta pieces × (target ≡ laid pieces)
IsApplied base delta (err base_size_mismatch) = ¬ ((pieces : List Piece) × Fits base delta pieces)
IsApplied base delta (err range_error) = ¬ ((pieces : List Piece) × Fits base delta pieces)
IsApplied base delta (err reserved_opcode) = ¬ ((pieces : List Piece) × Fits base delta pieces)
IsApplied base delta (err target_size_mismatch) = ¬ ((pieces : List Piece) × Fits base delta pieces)
IsApplied base delta (err stuck) = ⊥

apply_delta-laid :
    (base delta : Bytes) (pieces : List Piece)
    → Fits base delta pieces
    → apply_delta base delta ≡ ok (laid pieces)
unfolding apply_delta
apply_delta-laid base delta pieces (eb, lb, ls, is, size) =
    let small_base : (ltb (declared_base delta) (2 ^ 31) && declared_base delta == length base)
        ≡ true =
      ground (arith, eb, lb) in
    let small_size : ltb (declared_size delta) (2 ^ 31) ≡ true = ground (arith, ls) in
    rw (small_base, small_size)
      (apply_from-laid base (length (instructions delta)) [] (declared_size delta) is (omega arith)
        size)

-- An error excludes pieces that fit.
IsApplied-err :
    (base delta : Bytes) (result : Applied)
    → apply_delta base delta ≡ result
    → Holds Unit
        (λ target. (pieces : List Piece) × Fits base delta pieces × (target ≡ laid pieces))
        result
    → IsApplied base delta result
IsApplied-err base delta (ok target) e h = h
IsApplied-err base delta (err base_size_mismatch) e h =
    λ (pieces, fits). let done = apply_delta-laid base delta pieces fits in cc (e, done)
IsApplied-err base delta (err range_error) e h =
    λ (pieces, fits). let done = apply_delta-laid base delta pieces fits in cc (e, done)
IsApplied-err base delta (err reserved_opcode) e h =
    λ (pieces, fits). let done = apply_delta-laid base delta pieces fits in cc (e, done)
IsApplied-err base delta (err target_size_mismatch) e h =
    λ (pieces, fits). let done = apply_delta-laid base delta pieces fits in cc (e, done)
IsApplied-err base delta (err stuck) e h = h

apply_delta-Holds :
    (base delta : Bytes)
    → Holds Unit
        (λ target. (pieces : List Piece) × Fits base delta pieces × (target ≡ laid pieces))
        (apply_delta base delta)
unfolding apply_delta
apply_delta-Holds base delta =
    let size = read_size_encoding delta in
    let declared = read_size_encoding size.1 in
    elim (Bool-cases (ltb size.0 (2 ^ 31) && size.0 == length base)) [
      | inr k ↦ rw k tt
      | inl k ↦ rw k (elim (Bool-cases (ltb declared.0 (2 ^ 31))) [
        | inr l ↦ rw l tt
        | inl l ↦ rw l (
            Holds-map ⊥ Unit (IsLaid base declared.1 [] declared.0)
              (λ target. (pieces : List Piece) × Fits base delta pieces × (target ≡ laid pieces)) _
              absurd
              (λ t (pieces, is, whole, long). (
                pieces,
                (
                  same_size size.0 (length base) k,
                  small size.0 (length base) k,
                  ground (arith, l),
                  is,
                  ap length (sym whole) ∙ long ∙ omega arith,
                ),
                whole,
              ))
              (apply_from-IsLaid (length declared.1) base declared.1 [] declared.0 (omega arith)))
      ])
    ]
  where
    same_size : (m n : ℕ) → (ltb m (2 ^ 31) && m == n) ≡ true → m ≡ n
    same_size m n e = ground (arith, e)

    small : (m n : ℕ) → (ltb m (2 ^ 31) && m == n) ≡ true → m < 2 ^ 31
    small m n e = ground (arith, e)

-- Of any bytes as a delta, applyDelta returns the bytes of its pieces, as copy_offset, copy_size
-- and copy_chunk read a copy, each filled up with zeros to the length that its instruction
-- announces, where the header declares the size of the base and the length of the pieces
-- together, both below 2 ^ 31; it throws one of its errors only where no pieces fit so.
pub apply_delta-IsApplied : (base delta : Bytes) → IsApplied base delta (apply_delta base delta)
apply_delta-IsApplied base delta =
    IsApplied-err base delta (apply_delta base delta) refl (apply_delta-Holds base delta)
