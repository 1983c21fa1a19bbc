-- ===== src/Pack/Delta/Correct.antt =====
-- `createDelta` of src/lib/pack/delta.ts against `applyDelta` of src/lib/pack/packfile.ts.
use just_git.Base.{
  ℕ, zero, suc, ◌+◌, ◌^◌, ◌≤◌, ◌<◌, ◌≡◌, refl, sym, ap, subst, ◌∙◌, false, Option, none, some, [],
  ◌∷◌, ◌++◌, reverse, append_assoc, append-nil, length, take, ltb, ◌==◌, if◌then◌else◌, arith,
  Bool-cases, ==_iff, inl, inr, min, length-take, lt→ltb, ltb→lt,
}
use just_git.Base.Cuts.{take_all, length-reverse}
use mathlib.Core.List.{reverse-reverse}
use just_git.Pack.Sizes.{Bytes, encode_size_at}
use just_git.Pack.ReadBack.{read_size_encoding-encode_size_at}
use just_git.Pack.Delta.Apply.{ok, apply_delta}
use just_git.Pack.Delta.Match.{DeltaIndex, Writer, search_match}
use just_git.Pack.Delta.Create.{
  Created, null, delta, stuck, write_step, write_loop, finish_delta, close_insert, is_too_big,
  start_writer, create_delta, emit_insert, emit_copy,
}
use just_git.Pack.Delta.Ops.{Ops, print, meaning, AreValid, apply_from-ops}
use just_git.Pack.Delta.Written.{pending, Written, search_match-IsWritten, emit_insert-Written}
use just_git.Pack.Delta.Copied.{close_any, close_insert_parts, emit_copy-Written}

-- What a caller of createDelta may rely on, under a limit of the size or none.
abbrev pub Rebuilds : Bytes → Bytes → Option ℕ → Created → Type 0
Rebuilds src target none null = ⊥
Rebuilds src target (some limit) null = Unit
Rebuilds src target max_size (delta bytes) = apply_delta src bytes ≡ ok target
Rebuilds src target max_size stuck = ⊥

abbrev pub size_header : Bytes → Bytes → Bytes
size_header src target = encode_size_at (length src) ++ encode_size_at (length target)

apply_delta-ops :
    (src target : Bytes) (ops : Ops)
    → length src < 2 ^ 31
    → length target < 2 ^ 31
    → AreValid src ops
    → meaning src ops ≡ target
    → apply_delta src (size_header src target ++ print ops) ≡ ok target
unfolding apply_delta
apply_delta-ops src target ops l m v e =
    ap (apply_delta src)
      (append_assoc (encode_size_at (length src)) (encode_size_at (length target)) (print ops))
    ∙ rw
        (
          read_size_encoding-encode_size_at (length src)
              (encode_size_at (length target) ++ print ops) (omega arith),
          lt→ltb (length src) (2 ^ 31) l,
          (==_iff (length src) (length src)).1 refl,
          read_size_encoding-encode_size_at (length target) (print ops) (omega arith),
          lt→ltb (length target) (2 ^ 31) m,
          ← e,
        )
        (apply_from-ops src ops l v)

search_match_pos :
    (index : DeltaIndex) (target : Bytes) (s : Writer)
    → (search_match index target s).data_pos ≡ s.data_pos
unfolding search_match
search_match_pos index target s = elim (Bool-cases (ltb s.msize 4096)) [
  | inl k ↦ rw k
  | inr k ↦ rw k
]

emit_insert_pos : (target : Bytes) (s : Writer) → (emit_insert target s).data_pos ≡ s.data_pos + 1
unfolding emit_insert
emit_insert_pos target s = elim (Bool-cases (s.inscnt + 1 == 127)) [ inl k ↦ rw k | inr k ↦ rw k ]

not_below : (a b : ℕ) → ltb a b ≡ false → b ≤ a
not_below a b h = ground arith

pending_some :
    (slot : ℕ) (run below : Bytes) → 0 < length run → pending slot run below ≡ run ++ (slot ∷ below)
pending_some slot [] below h = absurd (omega arith)
pending_some slot (x ∷ run) below h = refl

module _ (src target : Bytes) (small : length src < 2 ^ 31) (small' : length target < 2 ^ 31) where
  limited :
      (max_size : Option ℕ) (out : Bytes)
      → apply_delta src (reverse out) ≡ ok target
      → Rebuilds src target max_size (if is_too_big max_size out then null else delta (reverse out))
  unfolding is_too_big
  limited none out e = e
  limited (some n) out e = elim (Bool-cases (is_too_big (some n) out)) [
    | inl k ↦ rw k tt
    | inr k ↦ rw k e
  ]

  too_big_or :
      (max_size : Option ℕ) (out : Bytes) (more : Created)
      → Rebuilds src target max_size more
      → Rebuilds src target max_size (if is_too_big max_size out then null else more)
  unfolding is_too_big
  too_big_or none out more e = e
  too_big_or (some n) out more e = elim (Bool-cases (is_too_big (some n) out)) [
    | inl k ↦ rw k tt
    | inr k ↦ rw k e
  ]

  finish_delta-IsDelta :
      (max_size : Option ℕ) (s : Writer)
      → Written src target (size_header src target) s
      → length target ≤ s.data_pos
      → Rebuilds src target max_size (finish_delta max_size s)
  unfolding finish_delta
  finish_delta-IsDelta max_size s (ops, slot, run, w) h =
      let closed = close_any src target (size_header src target) ops slot run s w in
      let k = closed.1 in
      let c = close_insert s in
      let full : take c.data_pos target ≡ target =
        take_all c.data_pos target (omega (arith, k.within, close_insert_parts s, h)) in
      let whole : meaning src closed.0 ≡ target =
        sym (reverse-reverse (meaning src closed.0))
        ∙ ap reverse (sym k.so_far)
        ∙ reverse-reverse (take c.data_pos target)
        ∙ full in
      let bytes : reverse c.out ≡ size_header src target ++ print closed.0 =
        ap reverse k.written ∙ reverse-reverse (size_header src target ++ print closed.0) in
      limited max_size c.out (
        ap (apply_delta src) bytes ∙ apply_delta-ops src target closed.0 small small' k.valid whole)

  as_source :
      (source : Bytes) (s : Writer) {n : ℕ}
      → source ≡ src
      → Written src target (size_header src target) (emit_copy src target s)
        × (n < (emit_copy src target s).data_pos)
      → Written src target (size_header src target) (emit_copy source target s)
        × (n < (emit_copy source target s).data_pos)
  as_source source s {n} e p =
      subst
        (λ x.
          Written src target (size_header src target) (emit_copy x target s)
          × (n < (emit_copy x target s).data_pos))
        (sym e) p

  write_step-Written :
      (index : DeltaIndex) (s : Writer)
      → index.src ≡ src
      → Written src target (size_header src target) s
      → s.data_pos < length target
      → Written src target (size_header src target) (write_step index target s)
        × (s.data_pos < (write_step index target s).data_pos)
  unfolding write_step
  write_step-Written index s e (ops, slot, run, w) h =
      let header = size_header src target in
      let found = search_match index target s in
      let w' = search_match-IsWritten src target header index ops slot run s e w in
      let same_pos = search_match_pos index target s in
      elim (Bool-cases (ltb found.msize 4)) [
        | inl k ↦ rw k (
          emit_insert-Written src target header found (ops, slot, run, w')
              (omega (arith, same_pos)),
          omega (arith, same_pos, emit_insert_pos target found),
        )
        | inr k ↦
            let made =
              emit_copy-Written src target header found (ops, slot, run, w')
                (not_below found.msize 4 k) in
            rw k (as_source index.src found e (made.0, omega (arith, same_pos, made.1)))
      ]

  write_loop-IsDelta :
      (fuel : ℕ) (index : DeltaIndex) (max_size : Option ℕ) (s : Writer)
      → index.src ≡ src
      → Written src target (size_header src target) s
      → length target ≤ s.data_pos + fuel
      → Rebuilds src target max_size (write_loop fuel index target max_size s)
  unfolding write_loop
  write_loop-IsDelta zero index max_size s e w h =
      let done : ltb s.data_pos (length target) ≡ false = ground (arith, h) in
      rw done (finish_delta-IsDelta max_size s w (omega arith))
  write_loop-IsDelta (suc fuel) index max_size s e w h =
      elim (Bool-cases (ltb s.data_pos (length target))) [
        | inr k ↦ rw k (finish_delta-IsDelta max_size s w (ground (arith, k)))
        | inl k ↦
            let step = write_step-Written index s e w (ltb→lt s.data_pos (length target) k) in
            rw k (
              too_big_or max_size (write_step index target s).out
                (write_loop fuel index target max_size (write_step index target s))
                (write_loop-IsDelta fuel index max_size (write_step index target s) e step.0
                  (omega (arith, step.1))))
      ]

  start_writer-Written :
      0 < length target → Written src target (size_header src target) (start_writer src target)
  unfolding start_writer
  start_writer-Written h =
      let first = take (min 16 (length target)) target in
      let n : length (reverse first) ≡ min 16 (length target) =
        length-reverse first ∙ omega (arith, length-take (min 16 (length target)) target) in
      (
        [],
        0,
        reverse first,
        record {
          written =
              ap (λ l. reverse first ++ (0 ∷ reverse l)) (sym (append-nil (size_header src target)))
              ∙ sym (
                  pending_some 0 (reverse first) (reverse (size_header src target ++ []))
                    (omega (arith, n)));
          counted = sym n;
          short = omega (arith, n);
          valid = tt;
          so_far = sym (append-nil (reverse first));
          within = omega arith;
          found = record { in_src = omega arith; in_rest = omega arith; agree = refl };
        },
      )

-- Whatever the index of the source and the limit, a delta that is created is applied to the
-- source with the target as the result, and without a limit one is created for every target that
-- is not empty; sizes are below 2 ^ 31.
pub create_delta-apply_delta :
    (index : DeltaIndex) (target : Bytes) (max_size : Option ℕ)
    → length index.src < 2 ^ 31
    → length target < 2 ^ 31
    → 0 < length target
    → Rebuilds index.src target max_size (create_delta (some index) target max_size)
unfolding create_delta
create_delta-apply_delta index [] max_size l m h = absurd (omega arith)
create_delta-apply_delta index (b ∷ bytes) max_size l m h =
    write_loop-IsDelta index.src (b ∷ bytes) l m (length (b ∷ bytes)) index max_size
      (start_writer index.src (b ∷ bytes)) refl (start_writer-Written index.src (b ∷ bytes) l m h)
      (omega arith)
