-- ===== src/Pack/Delta/Steps.antt =====
-- Proofs about the instructions of a delta in `applyDelta` of src/lib/pack/packfile.ts: reading one takes no byte twice.
use just_git.Base.{ℕ, ◌≤◌, Option, [], ◌∷◌, length, arith}
use just_git.Pack.Sizes.{Bytes}
use just_git.Pack.Delta.Apply.{next_byte, low_byte, high_byte, copy_offset, copy_size}

pub next_byte-le : (rest : Bytes) → length (next_byte rest).1 ≤ length rest
unfolding next_byte
next_byte-le [] = omega arith
next_byte-le (b ∷ rest) = omega arith

pub low_byte-le : (cmd bit : ℕ) (rest : Bytes) → length (low_byte cmd bit rest).1 ≤ length rest
unfolding low_byte
low_byte-le cmd bit rest = ground (arith, next_byte-le rest)

pub high_byte-le :
    (cmd bit shift : ℕ) (p : Option ℕ × Bytes) → length (high_byte cmd bit shift p).1 ≤ length p.1
unfolding high_byte
high_byte-le cmd bit shift (v, rest) = ground (arith, next_byte-le rest)

pub copy_offset-le : (cmd : ℕ) (rest : Bytes) → length (copy_offset cmd rest).1 ≤ length rest
unfolding copy_offset
copy_offset-le cmd rest = omega (arith, high_byte-le, low_byte-le)

pub copy_size-le : (cmd : ℕ) (rest : Bytes) → length (copy_size cmd rest).1 ≤ length rest
unfolding copy_size
copy_size-le cmd rest = omega (arith, high_byte-le, low_byte-le)
