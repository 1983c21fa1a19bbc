-- ===== src/Pack/Delta/Pieces.antt =====
-- The instructions of a delta as `applyDelta` of src/lib/pack/packfile.ts reads them, and the pieces that they put
-- into the target. A copy has the offset, size and bytes that copy_offset, copy_size and copy_chunk read.
use just_git.Base.{
  ℕ, zero, suc, ◌+◌, ◌-◌, ◌≤◌, ◌<◌, ◌≡◌, ◌≢◌, ◌⊎◌, refl, sym, ap, ◌∙◌, true, false, none, some,
  List, [], ◌∷◌, ◌++◌, append_assoc, length, length-append, length-drop, length-take, take, drop,
  leb, ◌==◌, arith, Bool-cases, inl, inr,
}
use Prim.Native.Nat.{bit_and}
use just_git.Pack.Sizes.{Bytes}
use just_git.Pack.Delta.Apply.{
  base_size_mismatch, range_error, reserved_opcode, target_size_mismatch, stuck, Applied, ok, err,
  zeros, set_at, copy_offset, copy_size, copy_chunk, finish_target, apply_from,
}
use just_git.Pack.Delta.Ops.{length-zeros}

-- What an instruction announces, and the bytes that it has.
abbrev pub Piece : Type 0
Piece = ℕ × Bytes

-- The instructions of a delta, up to its end.
pub data IsRead (base : Bytes) : Bytes → List Piece → Type 0 where
  ended : IsRead base [] []
  inserted :
      (cmd : ℕ) (rest : Bytes) (pieces : List Piece)
      → (bit_and cmd 0x80 == 0) ≡ true
      → cmd ≢ 0
      → IsRead base (drop cmd rest) pieces
      → IsRead base (cmd ∷ rest) ((cmd, take cmd rest) ∷ pieces)
  copied :
      (cmd size : ℕ) (rest : Bytes) (pieces : List Piece)
      → (bit_and cmd 0x80 == 0) ≡ false
      → (copy_size cmd (copy_offset cmd rest).1).0 ≡ some size
      → IsRead base (copy_size cmd (copy_offset cmd rest).1).1 pieces
      → IsRead base
          (cmd ∷ rest)
          ((size, copy_chunk base (copy_offset cmd rest).0 (some size)) ∷ pieces)

-- The bytes of a piece, and zeros where it has fewer than it announces.
abbrev pub padded : ℕ → Bytes → Bytes
padded size chunk = chunk ++ zeros (size - length chunk)

abbrev pub laid : List Piece → Bytes
laid [] = []
laid ((size, chunk) ∷ pieces) = padded size chunk ++ laid pieces

-- A target of which `P` holds, or an error; `wrong` holds where it is the size of the base.
abbrev pub Holds : Type 0 → (Bytes → Type 0) → Applied → Type 0
Holds wrong P (ok target) = P target
Holds wrong P (err base_size_mismatch) = wrong
Holds wrong P (err range_error) = Unit
Holds wrong P (err reserved_opcode) = Unit
Holds wrong P (err target_size_mismatch) = Unit
Holds wrong P (err stuck) = ⊥

pub Holds-map :
    (wrong wrong' : Type 0) (P Q : Bytes → Type 0) (result : Applied)
    → (wrong → wrong')
    → ((t : Bytes) → P t → Q t)
    → Holds wrong P result
    → Holds wrong' Q result
Holds-map wrong wrong' P Q (ok t) f g h = g t h
Holds-map wrong wrong' P Q (err base_size_mismatch) f g h = f h
Holds-map wrong wrong' P Q (err range_error) f g h = tt
Holds-map wrong wrong' P Q (err reserved_opcode) f g h = tt
Holds-map wrong wrong' P Q (err target_size_mismatch) f g h = tt
Holds-map wrong wrong' P Q (err stuck) f g h = h

abbrev pub Fails : Applied → Type 0
Fails result = Holds ⊥ (λ _. ⊥) result

pub set_at-length :
    (target chunk : Bytes) (pos : ℕ)
    → (set_at target pos chunk ≡ none)
      ⊎ ((next : Bytes) × (set_at target pos chunk ≡ some next)
          × (length next ≡ length target)
          × (pos + length chunk ≤ length target))
unfolding set_at
set_at-length target chunk pos = elim (Bool-cases (leb (pos + length chunk) (length target))) [
  | inr k ↦ rw k (inl refl)
  | inl k ↦
      let fits : pos + length chunk ≤ length target = ground (arith, k) in
      rw k (
        inr (
          take pos target ++ (chunk ++ drop (pos + length chunk) target),
          refl,
          omega (
            arith,
            fits,
            length-append (take pos target) (chunk ++ drop (pos + length chunk) target),
            length-append chunk (drop (pos + length chunk) target),
            length-take pos target,
            length-drop (pos + length chunk) target,
          ),
          fits,
        ))
]

-- A position past the end of the target: nothing is returned.
pub apply_from-lost :
    (fuel : ℕ) (base delta target : Bytes) (pos : ℕ)
    → length delta ≤ fuel
    → length target < pos
    → Fails (apply_from fuel base delta target pos)
unfolding apply_from finish_target
apply_from-lost fuel base [] target pos h l =
    let not_whole : (pos == length target) ≡ false = ground (arith, l) in rw not_whole tt
apply_from-lost zero base (cmd ∷ rest) target pos h l = absurd (omega arith)
apply_from-lost (suc fuel) base (cmd ∷ rest) target pos h l =
    elim (Bool-cases (bit_and cmd 0x80 == 0)) [
      | inl k ↦ rw k (elim (Bool-cases (cmd == 0)) [
        | inl z ↦ rw z tt
        | inr z ↦ rw z (elim (set_at-length target (take cmd rest) pos) [
          | inl e ↦ rw e tt
          | inr e ↦ absurd (omega (arith, l, e.3))
        ])
      ])
      | inr k ↦
          let offset = copy_offset cmd rest in
          let size = copy_size cmd offset.1 in
          rw k (elim (set_at-length target (copy_chunk base offset.0 size.0) pos) [
            | inl e ↦ rw e tt
            | inr e ↦ absurd (omega (arith, l, e.3))
          ])
    ]

zeros-add : (i j : ℕ) → zeros (i + j) ≡ zeros i ++ zeros j
unfolding zeros
zeros-add zero j = ap zeros (omega arith)
zeros-add (suc i) j =
    let e : suc i + j ≡ suc (i + j) = omega arith in ap zeros e ∙ ap (λ l. 0 ∷ l) (zeros-add i j)

-- Zeros behind a chunk, cut where the piece ends.
pub filled :
    (a chunk : Bytes) (k n : ℕ)
    → length chunk ≤ n
    → n ≤ k
    → (a ++ chunk) ++ zeros (k - length chunk) ≡ (a ++ padded n chunk) ++ zeros (k - n)
filled a chunk k n small inside =
    let two : k - length chunk ≡ (n - length chunk) + (k - n) = omega arith in
    ap (λ m. (a ++ chunk) ++ zeros m) two
    ∙ ap (λ l. (a ++ chunk) ++ l) (zeros-add (n - length chunk) (k - n))
    ∙ sym (append_assoc (a ++ chunk) (zeros (n - length chunk)) (zeros (k - n)))
    ∙ ap (λ l. l ++ zeros (k - n)) (append_assoc a chunk (zeros (n - length chunk)))

pub place :
    (a chunk : Bytes) (n : ℕ) → length chunk ≤ n → length (a ++ padded n chunk) ≡ length a + n
place a chunk n small = omega (
  arith,
  length-append a (padded n chunk),
  length-append chunk (zeros (n - length chunk)),
  length-zeros (n - length chunk),
)
