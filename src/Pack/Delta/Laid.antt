-- ===== src/Pack/Delta/Laid.antt =====
-- The loop of `applyDelta` of src/lib/pack/packfile.ts on any bytes: what a target that it returns is made of.
use just_git.Base.{
  ℕ, zero, suc, ◌+◌, ◌-◌, ◌^◌, ◌≤◌, ◌<◌, ◌≡◌, ◌≢◌, ◌⊎◌, refl, sym, ap, ◌∙◌, subst, Option, none,
  some, List, [], ◌∷◌, ◌++◌, append_assoc, length, length-append, length-drop, length-take, take,
  drop, ltb, ◌==◌, arith, Bool-cases, inl, inr, if◌then◌else◌,
}
use Prim.Native.Nat.{bit_and}
use just_git.Base.Cuts.{clamp_index}
use just_git.Pack.Sizes.{Bytes}
use just_git.Pack.Delta.Apply.{
  range_error, target_size_mismatch, Applied, err, zeros, set_at, sub_array, copy_offset, copy_size,
  copy_chunk, advance, finish_target, apply_from,
}
use just_git.Pack.Delta.Ops.{length-zeros, set_at_lem}
use just_git.Pack.Delta.Steps.{copy_offset-le, copy_size-le}
use just_git.Pack.Delta.Pieces.{
  Piece, IsRead, ended, inserted, copied, padded, laid, Holds, Holds-map, Fails, set_at-length,
  apply_from-lost, filled, place,
}

split_at : (m n : ℕ) → (m ≤ n) ⊎ (n < m)
split_at m n = omega arith

-- The chunk of an instruction is set, and the loop goes on; `n` is what it announces.
piece_set :
    (P : Bytes → Type 0) (a chunk : Bytes) (k n : ℕ) (more : Bytes → ℕ → Applied)
    → length chunk ≤ n
    → ((target : Bytes) (pos : ℕ) → length target < pos → Fails (more target pos))
    → (n ≤ k
        → Holds ⊥ P (more ((a ++ padded n chunk) ++ zeros (k - n)) (length (a ++ padded n chunk))))
    → Holds ⊥ P (elim (set_at (a ++ zeros k) (length a) chunk) as (λ _. Applied) [
      | none ↦ err range_error
      | some next ↦ more next (length a + n)
    ])
piece_set P a chunk k n more small lost go = elim (split_at (length chunk) k) [
  | inl fits ↦
      let set = set_at_lem a chunk k fits in
      elim (split_at n k) [
        | inl inside ↦
            subst
              (λ o. Holds ⊥ P (elim o as (λ _. Applied) [
                | none ↦ err range_error
                | some next ↦ more next (length a + n)
              ]))
              (sym (set ∙ ap some (filled a chunk k n small inside)))
              (subst (λ pos. Holds ⊥ P (more ((a ++ padded n chunk) ++ zeros (k - n)) pos))
                (place a chunk n small) (go inside))
        | inr past ↦
            subst
              (λ o. Holds ⊥ P (elim o as (λ _. Applied) [
                | none ↦ err range_error
                | some next ↦ more next (length a + n)
              ]))
              (sym set)
              (Holds-map ⊥ ⊥ (λ _. ⊥) P
                (more ((a ++ chunk) ++ zeros (k - length chunk)) (length a + n)) (λ z. z)
                (λ t. absurd)
                (lost ((a ++ chunk) ++ zeros (k - length chunk)) (length a + n) (
                  omega (
                    arith,
                    length-append (a ++ chunk) (zeros (k - length chunk)),
                    length-append a chunk,
                    length-zeros (k - length chunk),
                  ))))
      ]
  | inr over ↦ elim (set_at-length (a ++ zeros k) chunk (length a)) [
    | inl e ↦ rw e tt
    | inr e ↦ absurd (omega (arith, e.3, over, length-append a (zeros k), length-zeros k))
  ]
]

clamp_index-diff :
    (n up back count : ℕ) → clamp_index n (up + count) back - clamp_index n up back ≤ count
unfolding clamp_index
clamp_index-diff n up back count = ground arith

length-sub_array : (base : Bytes) (offset count : ℕ) → length (sub_array base offset count) ≤ count
unfolding sub_array
length-sub_array base offset count =
    let n = length base in
    let up = if ltb offset (2 ^ 31) then offset else 0 in
    let back = if ltb offset (2 ^ 31) then 0 else 2 ^ 32 - offset in
    let first = clamp_index n up back in
    let size = clamp_index n (up + count) back - first in
    let taken = length-take size (drop first base) in
    omega (arith, taken, clamp_index-diff n up back count)

pub length-copy_chunk :
    (base : Bytes) (offset : Option ℕ) (n : ℕ) → length (copy_chunk base offset (some n)) ≤ n
unfolding copy_chunk
length-copy_chunk base none n = omega arith
length-copy_chunk base (some offset) n = length-sub_array base offset n

-- The same of a copy, whose size may be `undefined`.
copy_set :
    (P : Bytes → Type 0) (a base : Bytes) (k : ℕ) (offset size : Option ℕ)
    (more : Bytes → ℕ → Applied)
    → ((target : Bytes) (pos : ℕ) → length target < pos → Fails (more target pos))
    → ((n : ℕ)
        → size ≡ some n
        → n ≤ k
        → Holds ⊥ P (
            more
              ((a ++ padded n (copy_chunk base offset (some n))) ++ zeros (k - n))
              (length (a ++ padded n (copy_chunk base offset (some n))))))
    → Holds ⊥ P
        (elim (set_at (a ++ zeros k) (length a) (copy_chunk base offset size)) as (λ _. Applied) [
          | none ↦ err range_error
          | some next ↦ elim (advance (length a) size) as (λ _. Applied) [
            | none ↦ err target_size_mismatch
            | some at ↦ more next at
          ]
        ])
unfolding advance
copy_set P a base k offset none more lost go =
    elim (set_at (a ++ zeros k) (length a) (copy_chunk base offset none))
      as (λ o. Holds ⊥ P (elim o as (λ _. Applied) [
        | none ↦ err range_error
        | some next ↦ err target_size_mismatch
      ])) [ none ↦ tt | some next ↦ tt ]
copy_set P a base k offset (some n) more lost go =
    piece_set P a (copy_chunk base offset (some n)) k n more (length-copy_chunk base offset n) lost
      (go n refl)

-- What the loop returns, of a target that is filled up to the position.
abbrev pub IsLaid : Bytes → Bytes → Bytes → ℕ → Bytes → Type 0
IsLaid base delta a k target =
    (pieces : List Piece) × IsRead base delta pieces
    × (target ≡ a ++ laid pieces)
    × (length target ≡ length a + k)

IsLaid-next :
    (base delta rest a chunk : Bytes) (k n : ℕ) (target : Bytes)
    → length chunk ≤ n
    → n ≤ k
    → ((pieces : List Piece) → IsRead base rest pieces → IsRead base delta ((n, chunk) ∷ pieces))
    → IsLaid base rest (a ++ padded n chunk) (k - n) target
    → IsLaid base delta a k target
IsLaid-next base delta rest a chunk k n target small inside read (pieces, is, whole, size) = (
  (n, chunk) ∷ pieces,
  read pieces is,
  whole ∙ append_assoc a (padded n chunk) (laid pieces),
  omega (arith, size, place a chunk n small, inside),
)

pub apply_from-IsLaid :
    (fuel : ℕ) (base delta a : Bytes) (k : ℕ)
    → length delta ≤ fuel
    → Holds ⊥ (IsLaid base delta a k) (apply_from fuel base delta (a ++ zeros k) (length a))
unfolding apply_from finish_target
apply_from-IsLaid fuel base [] a k h = elim (Bool-cases (length a == length (a ++ zeros k))) [
  | inl e ↦
      let none_left : k ≡ 0 = ground (arith, e, length-append a (zeros k), length-zeros k) in
      rw e (
        [],
        ended,
        ap (λ m. a ++ zeros m) none_left ∙ unfold zeros in refl,
        omega (arith, length-append a (zeros k), length-zeros k),
      )
  | inr e ↦ rw e tt
]
apply_from-IsLaid zero base (cmd ∷ rest) a k h = absurd (omega arith)
apply_from-IsLaid (suc fuel) base (cmd ∷ rest) a k h = elim (Bool-cases (bit_and cmd 0x80 == 0)) [
  | inl low ↦ rw low (elim (Bool-cases (cmd == 0)) [
    | inl z ↦ rw z tt
    | inr z ↦
        let small : length (take cmd rest) ≤ cmd = omega (arith, length-take cmd rest) in
        let shorter : length (drop cmd rest) ≤ fuel = omega (arith, length-drop cmd rest, h) in
        let not_zero : cmd ≢ 0 = ground (arith, z) in
        rw z (
          piece_set (IsLaid base (cmd ∷ rest) a k) a (take cmd rest) k cmd
            (λ t p. apply_from fuel base (drop cmd rest) t p) small
            (λ t p. apply_from-lost fuel base (drop cmd rest) t p shorter)
            (λ inside.
              Holds-map ⊥ ⊥
                (IsLaid base (drop cmd rest) (a ++ padded cmd (take cmd rest)) (k - cmd))
                (IsLaid base (cmd ∷ rest) a k) _ (λ e. e)
                (λ t.
                  IsLaid-next base (cmd ∷ rest) (drop cmd rest) a (take cmd rest) k cmd t small
                    inside (λ ps. inserted cmd rest ps low not_zero))
                (apply_from-IsLaid fuel base (drop cmd rest) (a ++ padded cmd (take cmd rest))
                  (k - cmd) shorter)))
  ])
  | inr high ↦
      let offset = copy_offset cmd rest in
      let size = copy_size cmd offset.1 in
      let shorter : length size.1 ≤ fuel =
        omega (arith, copy_offset-le cmd rest, copy_size-le cmd offset.1, h) in
      rw high (
        copy_set (IsLaid base (cmd ∷ rest) a k) a base k offset.0 size.0
          (λ t p. apply_from fuel base size.1 t p)
          (λ t p. apply_from-lost fuel base size.1 t p shorter)
          (λ n there inside.
            let chunk = copy_chunk base offset.0 (some n) in
            Holds-map ⊥ ⊥ (IsLaid base size.1 (a ++ padded n chunk) (k - n))
              (IsLaid base (cmd ∷ rest) a k) _ (λ e. e)
              (λ t.
                IsLaid-next base (cmd ∷ rest) size.1 a chunk k n t
                  (length-copy_chunk base offset.0 n) inside
                  (λ ps. copied cmd n rest ps high there))
              (apply_from-IsLaid fuel base size.1 (a ++ padded n chunk) (k - n) shorter)))
]
