-- ===== src/Pack/Delta/Commands.antt =====
-- Proofs about the copy instructions of src/lib/pack/delta.ts, which src/lib/pack/packfile.ts reads back.
use just_git.Base.{
  ℕ, ◌+◌, ◌*◌, ◌%◌, ◌^◌, ◌≤◌, ◌<◌, ◌≡◌, refl, ap, ◌∙◌, Bool, true, false, ◌&&◌, not, some, ◌++◌,
  ◌==◌, arith, &&-split, Bool-cases, ==_iff, inl, inr,
}
use Prim.Native.Nat.{bit_and}
use just_git.Base.Bits.{shifted, bit_or-shifted}
use just_git.Pack.Sizes.{Bytes}
use just_git.Pack.ReadBack.{fits}
use just_git.Pack.Delta.Apply.{low_byte, high_byte, copy_offset, copy_size, full_size}
use just_git.Pack.Delta.Create.{
  argument, set_flag, flags_of, copy_command, copy_arguments, byte_0, byte_1, byte_2, byte_3,
}

-- A check of both values of a flag.
both : (Bool → Bool) → Bool
both p = p true && p false

both_sound : (p : Bool → Bool) → both p ≡ true → (b : Bool) → p b ≡ true
unfolding both
both_sound p h true = (&&-split (p true) (p false) h).0
both_sound p h false = (&&-split (p true) (p false) h).1

abbrev has_flag : ℕ → ℕ → Bool
has_flag cmd bit = not (bit_and cmd bit == 0)

abbrev same : Bool → Bool → Bool
same true b = b
same false b = not b

abbrev six : (Bool → Bool → Bool → Bool → Bool → Bool → Bool) → Bool
six p = both λ a. both λ b. both λ c. both λ d. both λ e. both λ f. p a b c d e f

six_sound :
    (p : Bool → Bool → Bool → Bool → Bool → Bool → Bool)
    → six p ≡ true
    → (a b c d e f : Bool) → p a b c d e f ≡ true
six_sound p h a b c d e f =
    both_sound (λ f. p a b c d e f)
      (both_sound (λ e. both λ f. p a b c d e f)
        (both_sound (λ d. both λ e. both λ f. p a b c d e f)
          (both_sound (λ c. both λ d. both λ e. both λ f. p a b c d e f)
            (both_sound (λ b. both λ c. both λ d. both λ e. both λ f. p a b c d e f)
              (both_sound (λ a. both λ b. both λ c. both λ d. both λ e. both λ f. p a b c d e f) h
                a)
              b)
            c)
          d)
        e)
      f

abbrev reads_flags : Bool → Bool → Bool → Bool → Bool → Bool → Bool
reads_flags a b c d e f =
    let cmd = flags_of a b c d e f in
    same a (has_flag cmd 0x01)
    && (same b (has_flag cmd 0x02)
        && (same c (has_flag cmd 0x04)
            && (same d (has_flag cmd 0x08)
                && (same e (has_flag cmd 0x10)
                    && (same f (has_flag cmd 0x20)
                        && ((bit_and cmd 0x40 == 0) && has_flag cmd 0x80))))))

flags_table : six reads_flags ≡ true
unfolding both flags_of set_flag
flags_table = refl

flags_lem : (a b c d e f : Bool) → reads_flags a b c d e f ≡ true
flags_lem = six_sound reads_flags flags_table

low_byte_lem :
    (cmd bit b : ℕ) (rest : Bytes)
    → (bit_and cmd bit == 0) ≡ (b == 0)
    → low_byte cmd bit (argument b rest) ≡ (some b, rest)
unfolding low_byte argument
low_byte_lem cmd bit b rest h = ground (arith, h)

high_byte_lem :
    (cmd bit k v b : ℕ) (rest : Bytes)
    → (bit_and cmd bit == 0) ≡ (b == 0)
    → v < shifted k 1
    → b * 2 ^ k % 2 ^ 32 ≡ shifted k b
    → shifted k 0 ≡ 0
    → high_byte cmd bit k (some v, argument b rest) ≡ (some (v + shifted k b), rest)
unfolding high_byte argument
high_byte_lem cmd bit k v b rest h f e z = elim (Bool-cases (b == 0)) [
  | inl y ↦ rw (h, y) (ground (arith, ap (shifted k) ((==_iff b 0).0 y), z))
  | inr n ↦ rw (h, n) (rw e (rw (bit_or-shifted k v b (fits k v f))))
]

record HasFlags (m s : ℕ) : Type 0 where
  bit_0 : (bit_and (copy_command m s) 0x01 == 0) ≡ (byte_0 m == 0)
  bit_1 : (bit_and (copy_command m s) 0x02 == 0) ≡ (byte_1 m == 0)
  bit_2 : (bit_and (copy_command m s) 0x04 == 0) ≡ (byte_2 m == 0)
  bit_3 : (bit_and (copy_command m s) 0x08 == 0) ≡ (byte_3 m == 0)
  bit_4 : (bit_and (copy_command m s) 0x10 == 0) ≡ (byte_0 s == 0)
  bit_5 : (bit_and (copy_command m s) 0x20 == 0) ≡ (byte_1 s == 0)
  bit_6 : (bit_and (copy_command m s) 0x40 == 0) ≡ true
  bit_7 : (bit_and (copy_command m s) 0x80 == 0) ≡ false

copy_command-HasFlags : (m s : ℕ) → HasFlags m s
unfolding copy_command
copy_command-HasFlags m s = record {
  bit_0 = ground (arith, h);
  bit_1 = ground (arith, h);
  bit_2 = ground (arith, h);
  bit_3 = ground (arith, h);
  bit_4 = ground (arith, h);
  bit_5 = ground (arith, h);
  bit_6 = ground (arith, h);
  bit_7 = ground (arith, h);
}
  where
    h :
        reads_flags
          (not (byte_0 m == 0))
          (not (byte_1 m == 0))
          (not (byte_2 m == 0))
          (not (byte_3 m == 0))
          (not (byte_0 s == 0))
          (not (byte_1 s == 0))
        ≡ true
    h =
        flags_lem (not (byte_0 m == 0)) (not (byte_1 m == 0)) (not (byte_2 m == 0))
          (not (byte_3 m == 0)) (not (byte_0 s == 0)) (not (byte_1 s == 0))

argument-append :
    (b : ℕ) (later rest : Bytes) → argument b later ++ rest ≡ argument b (later ++ rest)
unfolding argument
argument-append b later rest = ground arith

abbrev pub size_arguments : ℕ → Bytes → Bytes
size_arguments s rest = argument (byte_0 s) (argument (byte_1 s) rest)

copy_arguments-append :
    (m s : ℕ) (rest : Bytes)
    → copy_arguments m s ++ rest
      ≡ argument
          (byte_0 m)
          (argument (byte_1 m) (argument (byte_2 m) (argument (byte_3 m) (size_arguments s rest))))
unfolding copy_arguments
copy_arguments-append m s rest = simp (argument-append)

pub copy_offset_lem :
    (m s : ℕ) (rest : Bytes)
    → m < 2 ^ 32
    → copy_offset (copy_command m s) (copy_arguments m s ++ rest) ≡ (some m, size_arguments s rest)
unfolding copy_offset
copy_offset_lem m s rest h =
    let flags = copy_command-HasFlags m s in
    let cmd = copy_command m s in
    let args_3 = argument (byte_3 m) (size_arguments s rest) in
    let args_2 = argument (byte_2 m) args_3 in
    ap (λ bytes. high_byte cmd 8 24 (high_byte cmd 4 16 (high_byte cmd 2 8 (low_byte cmd 1 bytes))))
      (copy_arguments-append m s rest)
    ∙ ap (λ p. high_byte cmd 8 24 (high_byte cmd 4 16 (high_byte cmd 2 8 p)))
        (low_byte_lem cmd 1 (byte_0 m) (argument (byte_1 m) args_2) flags.bit_0)
    ∙ ap (λ p. high_byte cmd 8 24 (high_byte cmd 4 16 p))
        (high_byte_lem cmd 2 8 (byte_0 m) (byte_1 m) args_2 flags.bit_1 (omega arith) (omega arith)
          (omega arith))
    ∙ ap (λ p. high_byte cmd 8 24 p)
        (high_byte_lem cmd 4 16 (byte_0 m + shifted 8 (byte_1 m)) (byte_2 m) args_3 flags.bit_2
          (omega arith) (omega arith) (omega arith))
    ∙ high_byte_lem cmd 8 24 (byte_0 m + shifted 8 (byte_1 m) + shifted 16 (byte_2 m)) (byte_3 m)
        (size_arguments s rest) flags.bit_3 (omega arith) (omega arith) (omega arith)
    ∙ ap (λ (v : ℕ). (some v, size_arguments s rest)) (omega arith)

third :
    (cmd v : ℕ) (rest : Bytes)
    → (bit_and cmd 0x40 == 0) ≡ true
    → high_byte cmd 0x40 16 (some v, rest) ≡ (some v, rest)
unfolding high_byte
third cmd v rest h = rw h

full_size_lem :
    (s : ℕ) → 0 < s → s ≤ 65536 → full_size (some (byte_0 s + shifted 8 (byte_1 s))) ≡ some s
unfolding full_size
full_size_lem s g h = ground arith

pub copy_size_lem :
    (m s : ℕ) (rest : Bytes)
    → 0 < s
    → s ≤ 65536
    → copy_size (copy_command m s) (size_arguments s rest) ≡ (some s, rest)
unfolding copy_size
copy_size_lem m s rest g h =
    let flags = copy_command-HasFlags m s in
    let cmd = copy_command m s in
    rw
      (
        low_byte_lem cmd 16 (byte_0 s) (argument (byte_1 s) rest) flags.bit_4,
        high_byte_lem cmd 32 8 (byte_0 s) (byte_1 s) rest flags.bit_5 (omega arith) (omega arith)
            (omega arith),
        no_third,
      )
      (ap (λ o. (o, rest)) (full_size_lem s g h))
  where
    no_third :
        high_byte (copy_command m s) 64 16 (some (byte_0 s + shifted 8 (byte_1 s)), rest)
        ≡ (some (byte_0 s + shifted 8 (byte_1 s)), rest)
    no_third =
        third (copy_command m s) (byte_0 s + shifted 8 (byte_1 s)) rest
          (copy_command-HasFlags m s).bit_6

pub copy_bit_7 : (m s : ℕ) → (bit_and (copy_command m s) 0x80 == 0) ≡ false
copy_bit_7 m s = (copy_command-HasFlags m s).bit_7
