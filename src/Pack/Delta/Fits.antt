-- ===== src/Pack/Delta/Fits.antt =====
-- The loop of `applyDelta` of src/lib/pack/packfile.ts on a delta whose instructions fit: it returns what they make.
use just_git.Base.{
  ℕ, zero, suc, ◌+◌, ◌-◌, ◌≤◌, ◌≡◌, refl, sym, ap, ◌∙◌, subst, true, false, Option, none, some,
  List, ◌∷◌, ◌++◌, append_assoc, length, length-append, length-drop, length-take, take, drop, ◌==◌,
  arith,
}
use just_git.Pack.Sizes.{Bytes}
use just_git.Pack.Delta.Apply.{
  range_error, target_size_mismatch, Applied, ok, err, zeros, set_at, copy_offset, copy_size,
  copy_chunk, advance, finish_target, apply_from,
}
use just_git.Pack.Delta.Ops.{length-zeros, set_at_lem}
use just_git.Pack.Delta.Steps.{copy_offset-le, copy_size-le}
use just_git.Pack.Delta.Laid.{length-copy_chunk}
use just_git.Pack.Delta.Pieces.{Piece, IsRead, ended, inserted, copied, padded, laid, filled, place}

piece_goes :
    (a chunk : Bytes) (k n : ℕ) (more : Bytes → ℕ → Applied)
    → length chunk ≤ n
    → n ≤ k
    → (elim (set_at (a ++ zeros k) (length a) chunk) as (λ _. Applied) [
      | none ↦ err range_error
      | some next ↦ more next (length a + n)
    ])
      ≡ more ((a ++ padded n chunk) ++ zeros (k - n)) (length (a ++ padded n chunk))
piece_goes a chunk k n more small inside =
    ap
      (λ o. elim o as (λ _. Applied) [
        | none ↦ err range_error
        | some next ↦ more next (length a + n)
      ])
      (set_at_lem a chunk k (omega (arith, small, inside))
        ∙ ap some (filled a chunk k n small inside))
    ∙ ap (more ((a ++ padded n chunk) ++ zeros (k - n))) (sym (place a chunk n small))

copy_goes :
    (a base : Bytes) (k n : ℕ) (offset size : Option ℕ) (more : Bytes → ℕ → Applied)
    → size ≡ some n
    → n ≤ k
    → (elim (set_at (a ++ zeros k) (length a) (copy_chunk base offset size)) as (λ _. Applied) [
      | none ↦ err range_error
      | some next ↦ elim (advance (length a) size) as (λ _. Applied) [
        | none ↦ err target_size_mismatch
        | some at ↦ more next at
      ]
    ])
      ≡ more
          ((a ++ padded n (copy_chunk base offset (some n))) ++ zeros (k - n))
          (length (a ++ padded n (copy_chunk base offset (some n))))
unfolding advance
copy_goes a base k n offset size more e inside =
    subst
      (λ v.
        (elim (set_at (a ++ zeros k) (length a) (copy_chunk base offset v)) as (λ _. Applied) [
          | none ↦ err range_error
          | some next ↦ elim (advance (length a) v) as (λ _. Applied) [
            | none ↦ err target_size_mismatch
            | some at ↦ more next at
          ]
        ])
        ≡ more ((a ++ padded n (copy_chunk base offset (some n))) ++ zeros (k - n))
            (length (a ++ padded n (copy_chunk base offset (some n)))))
      (sym e)
      (piece_goes a (copy_chunk base offset (some n)) k n more (length-copy_chunk base offset n)
        inside)

-- The pieces behind the first one are as long as what is left.
rest_fits :
    (chunk : Bytes) (n k : ℕ) (pieces : List Piece)
    → length chunk ≤ n
    → length (laid ((n, chunk) ∷ pieces)) ≡ k
    → (n ≤ k) × (length (laid pieces) ≡ k - n)
rest_fits chunk n k pieces small e =
    let size : length (padded n chunk) ≡ n = omega (
      arith,
      length-append chunk (zeros (n - length chunk)),
      length-zeros (n - length chunk),
      small,
    ) in
    let both = length-append (padded n chunk) (laid pieces) in
    (omega (arith, size, both, e), omega (arith, size, both, e))

pub apply_from-laid :
    (base : Bytes) {delta : Bytes} {pieces : List Piece} (fuel : ℕ) (a : Bytes) (k : ℕ)
    → IsRead base delta pieces
    → length delta ≤ fuel
    → length (laid pieces) ≡ k
    → apply_from fuel base delta (a ++ zeros k) (length a) ≡ ok (a ++ laid pieces)
unfolding apply_from finish_target
apply_from-laid base fuel a k ended h e =
    let whole : (length a == length (a ++ zeros k)) ≡ true =
      ground (arith, length-append a (zeros k), length-zeros k, e) in
    rw whole (ap (λ m. ok (a ++ zeros m)) (sym e) ∙ unfold zeros in refl)
apply_from-laid base zero a k (inserted cmd rest pieces low z is) h e = absurd (omega arith)
apply_from-laid base (suc fuel) a k (inserted cmd rest pieces low z is) h e =
    let small : length (take cmd rest) ≤ cmd = omega (arith, length-take cmd rest) in
    let (inside, left) = rest_fits (take cmd rest) cmd k pieces small e in
    let not_zero : (cmd == 0) ≡ false = ground (arith, z) in
    let whole : Bytes = a ++ padded cmd (take cmd rest) in
    rw (low, not_zero)
      (piece_goes a (take cmd rest) k cmd (λ t p. apply_from fuel base (drop cmd rest) t p) small
          inside
        ∙ apply_from-laid base fuel whole (k - cmd) is (omega (arith, length-drop cmd rest, h)) left
        ∙ ap ok (append_assoc a (padded cmd (take cmd rest)) (laid pieces)))
apply_from-laid base zero a k (copied cmd n rest pieces high there is) h e = absurd (omega arith)
apply_from-laid base (suc fuel) a k (copied cmd n rest pieces high there is) h e =
    let offset = copy_offset cmd rest in
    let size = copy_size cmd offset.1 in
    let chunk = copy_chunk base offset.0 (some n) in
    let (inside, left) = rest_fits chunk n k pieces (length-copy_chunk base offset.0 n) e in
    rw high (
      copy_goes a base k n offset.0 size.0 (λ t p. apply_from fuel base size.1 t p) there inside
      ∙ apply_from-laid base fuel (a ++ padded n chunk) (k - n) is
          (omega (arith, copy_offset-le cmd rest, copy_size-le cmd offset.1, h)) left
      ∙ ap ok (append_assoc a (padded n chunk) (laid pieces)))
