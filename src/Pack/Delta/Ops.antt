-- ===== src/Pack/Delta/Ops.antt =====
-- What the instructions of a delta stand for, and that `applyDelta` of src/lib/pack/packfile.ts does it.
use just_git.Base.{
  ℕ, zero, suc, ◌+◌, ◌-◌, ◌^◌, ◌≤◌, ◌<◌, ◌≡◌, refl, sym, ap, ◌∙◌, true, false, some, List, [], ◌∷◌,
  ◌++◌, append_assoc, append-nil, length, take, drop, take_append, drop_append, length-append, leb,
  ◌==◌, arith, Bool-cases, inl, inr, length-take, length-drop,
}
use Prim.Native.Nat.{bit_and}
use just_git.Base.Cuts.{clamp_index}
use just_git.Base.Bits.{bit_and_top_bit}
use just_git.Pack.Sizes.{Bytes}
use just_git.Pack.Delta.Apply.{
  ok, zeros, set_at, sub_array, copy_chunk, advance, apply_from, finish_target,
}
use just_git.Pack.Delta.Create.{copy_command, copy_arguments}
use just_git.Pack.Delta.Commands.{copy_offset_lem, copy_size_lem, copy_bit_7}

pub data Op : Type 0 where
  insert : Bytes → Op
  copy : ℕ → ℕ → Op

-- The bytes of an instruction, and the bytes of the target that it makes.
abbrev pub print_op : Op → Bytes
print_op (insert chunk) = length chunk ∷ chunk
print_op (copy offset size) = copy_command offset size ∷ copy_arguments offset size

abbrev pub op_meaning : Bytes → Op → Bytes
op_meaning src (insert chunk) = chunk
op_meaning src (copy offset size) = take size (drop offset src)

abbrev pub OpIsValid : Bytes → Op → Type 0
OpIsValid src (insert chunk) = (0 < length chunk) × (length chunk ≤ 127)
OpIsValid src (copy offset size) = (0 < size) × (size ≤ 65536) × (offset + size ≤ length src)

-- The instructions, the newest first.
abbrev pub Ops : Type 0
Ops = List Op

abbrev pub print : Ops → Bytes
print [] = []
print (op ∷ ops) = print ops ++ print_op op

abbrev pub meaning : Bytes → Ops → Bytes
meaning src [] = []
meaning src (op ∷ ops) = meaning src ops ++ op_meaning src op

abbrev pub AreValid : Bytes → Ops → Type 0
AreValid src [] = Unit
AreValid src (op ∷ ops) = OpIsValid src op × AreValid src ops

zeros-drop : (n k : ℕ) → drop n (zeros k) ≡ zeros (k - n)
unfolding zeros
zeros-drop zero k = ap zeros (omega arith)
zeros-drop (suc n) zero = let e : 0 ≡ 0 - suc n = omega arith in ap zeros e
zeros-drop (suc n) (suc k) =
    let e : k - n ≡ suc k - suc n = omega arith in zeros-drop n k ∙ ap zeros e

pub length-zeros : (k : ℕ) → length (zeros k) ≡ k
unfolding zeros
length-zeros zero = refl
length-zeros (suc k) = ap suc (length-zeros k)

drop_past : (a z : Bytes) (n : ℕ) → drop (length a + n) (a ++ z) ≡ drop n z
drop_past [] z n = let e : 0 + n ≡ n = omega arith in ap (λ i. drop i z) e
drop_past (x ∷ a) z n =
    let e : suc (length a) + n ≡ suc (length a + n) = omega arith in
    ap (λ i. drop i (x ∷ (a ++ z))) e ∙ drop_past a z n

pub set_at_lem :
    (a c : Bytes) (k : ℕ)
    → length c ≤ k
    → set_at (a ++ zeros k) (length a) c ≡ some ((a ++ c) ++ zeros (k - length c))
unfolding set_at
set_at_lem a c k h = elim (Bool-cases (leb (length a + length c) (length (a ++ zeros k)))) [
  | inl e ↦
      rw
        (
          e,
          take_append a (zeros k) (length a) refl,
          drop_past a (zeros k) (length c),
          zeros-drop (length c) k,
        )
        (ap some (sym (append_assoc a c (zeros (k - length c)))))
  | inr e ↦ absurd (ground (arith, length-append a (zeros k), length-zeros k))
]

-- A chunk inside the source.
sub_array_lem :
    (src : Bytes) (offset size : ℕ)
    → length src < 2 ^ 31
    → offset + size ≤ length src
    → sub_array src offset size ≡ take size (drop offset src)
unfolding sub_array clamp_index
sub_array_lem src offset size h g = ground (arith, agree)
  where
    agree : take (offset + size - offset) (drop offset src) ≡ take size (drop offset src)
    agree = ap (λ n. take n (drop offset src)) (omega arith)

no_zeros : (m : Bytes) → m ++ zeros (length m - length m) ≡ m
unfolding zeros
no_zeros m =
    let e : length m - length m ≡ 0 = omega arith in ap (λ n. m ++ zeros n) e ∙ append-nil m

insert_lem :
    (fuel k : ℕ) (src chunk rest a : Bytes)
    → (0 < length chunk) × (length chunk ≤ 127)
    → length chunk ≤ k
    → apply_from (suc fuel) src (length chunk ∷ (chunk ++ rest)) (a ++ zeros k) (length a)
      ≡ apply_from fuel src rest
          ((a ++ chunk) ++ zeros (k - length chunk))
          (length a + length chunk)
unfolding apply_from
insert_lem fuel k src chunk rest a v h = rw (
  low,
  not_zero,
  take_append chunk rest (length chunk) refl,
  set_at_lem a chunk k h,
  drop_append chunk rest (length chunk) refl,
)
  where
    low : (bit_and (length chunk) 0x80 == 0) ≡ true
    low = ground (arith, bit_and_top_bit (length chunk))

    not_zero : (length chunk == 0) ≡ false
    not_zero = ground arith

copy_lem :
    (fuel k m n : ℕ) (src rest a : Bytes)
    → length src < 2 ^ 31
    → (0 < n) × (n ≤ 65536) × (m + n ≤ length src)
    → n ≤ k
    → apply_from
        (suc fuel)
        src
        (copy_command m n ∷ (copy_arguments m n ++ rest))
        (a ++ zeros k)
        (length a)
      ≡ apply_from fuel src rest
          ((a ++ take n (drop m src)) ++ zeros (k - length (take n (drop m src))))
          (length a + n)
unfolding apply_from copy_chunk advance
copy_lem fuel k m n src rest a l v h = rw (
  copy_bit_7 m n,
  copy_offset_lem m n rest (omega arith),
  copy_size_lem m n rest v.0 v.1,
  sub_array_lem src m n l v.2,
  set_at_lem a (take n (drop m src)) k (omega (arith, length-take n (drop m src))),
  copy_offset_lem m n rest (omega arith),
  copy_size_lem m n rest v.0 v.1,
  copy_offset_lem m n rest (omega arith),
  copy_size_lem m n rest v.0 v.1,
)

length-op_meaning : (src : Bytes) (m n : ℕ) → m + n ≤ length src → length (take n (drop m src)) ≡ n
length-op_meaning src m n h = omega (arith, length-take n (drop m src), length-drop m src)

-- One instruction.
op_lem :
    (fuel k : ℕ) (src rest a : Bytes) (op : Op)
    → length src < 2 ^ 31
    → OpIsValid src op
    → length (op_meaning src op) ≤ k
    → apply_from (suc fuel) src (print_op op ++ rest) (a ++ zeros k) (length a)
      ≡ apply_from fuel src rest
          ((a ++ op_meaning src op) ++ zeros (k - length (op_meaning src op)))
          (length (a ++ op_meaning src op))
op_lem fuel k src rest a (insert chunk) l v h =
    insert_lem fuel k src chunk rest a v h
    ∙ ap (apply_from fuel src rest ((a ++ chunk) ++ zeros (k - length chunk)))
        (sym (length-append a chunk))
op_lem fuel k src rest a (copy m n) l v h =
    let e = length-op_meaning src m n v.2 in
    copy_lem fuel k m n src rest a l v (omega (arith, e))
    ∙ ap
        (apply_from fuel src rest
          ((a ++ take n (drop m src)) ++ zeros (k - length (take n (drop m src)))))
        (omega (arith, e, length-append a (take n (drop m src))))

-- All instructions, with what follows them.
pub apply_from-print :
    (fuel k : ℕ) (src rest : Bytes) (ops : Ops)
    → length src < 2 ^ 31
    → AreValid src ops
    → length (meaning src ops) ≤ k
    → apply_from (length ops + fuel) src (print ops ++ rest) (zeros k) 0
      ≡ apply_from fuel src rest
          (meaning src ops ++ zeros (k - length (meaning src ops)))
          (length (meaning src ops))
apply_from-print fuel k src rest [] l v h =
    let e : 0 + fuel ≡ fuel = omega arith in let f : k - 0 ≡ k = omega arith in rw (e, f)
apply_from-print fuel k src rest (op ∷ ops) l v h =
    let done = meaning src ops in
    let more = op_meaning src op in
    let count : length (op ∷ ops) + fuel ≡ length ops + suc fuel = omega arith in
    let left : k - length done - length more ≡ k - length (done ++ more) =
      omega (arith, length-append done more) in
    rw (count, append_assoc (print ops) (print_op op) rest)
      (apply_from-print (suc fuel) k src (print_op op ++ rest) ops l v.1
        (omega (arith, length-append done more)))
    ∙ op_lem fuel (k - length done) src rest done op l v.0 (omega (arith, length-append done more))
    ∙ ap (λ n. apply_from fuel src rest ((done ++ more) ++ zeros n) (length (done ++ more))) left

length-print : (ops : Ops) → length ops ≤ length (print ops)
length-print [] = omega arith
length-print (op ∷ ops) =
    omega (arith, length-print ops, length-append (print ops) (print_op op), some_byte op)
  where
    some_byte : (op : Op) → 0 < length (print_op op)
    some_byte (insert chunk) = omega arith
    some_byte (copy m n) = omega arith

-- The instructions alone, the fuel their length.
pub apply_from-ops :
    (src : Bytes) (ops : Ops)
    → length src < 2 ^ 31
    → AreValid src ops
    → apply_from (length (print ops)) src (print ops) (zeros (length (meaning src ops))) 0
      ≡ ok (meaning src ops)
unfolding apply_from finish_target
apply_from-ops src ops l v =
    let n = length (meaning src ops) in
    let extra = length (print ops) - length ops in
    let count : length (print ops) ≡ length ops + extra = omega (arith, length-print ops) in
    ap (λ f. apply_from f src (print ops) (zeros n) 0) count
    ∙ ap (λ bytes. apply_from (length ops + extra) src bytes (zeros n) 0)
        (sym (append-nil (print ops)))
    ∙ apply_from-print extra n src [] ops l v (omega arith)
    ∙ ended src (meaning src ops) extra
  where
    ended :
        (src m : Bytes) (fuel : ℕ)
        → apply_from fuel src [] (m ++ zeros (length m - length m)) (length m) ≡ ok m
    ended src m fuel = ap (λ t. finish_target t (length m)) (no_zeros m) ∙ ground arith
