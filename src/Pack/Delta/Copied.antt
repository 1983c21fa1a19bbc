-- ===== src/Pack/Delta/Copied.antt =====
-- The rounds of `createDelta` of src/lib/pack/delta.ts that copy: extended backward, a match stays one, and the
-- instruction makes the bytes of the target that it stands for.
use just_git.Base.{
  ℕ, zero, suc, ◌+◌, ◌-◌, ◌≤◌, ◌<◌, ◌≡◌, refl, sym, ap, ◌∙◌, true, false, Option, none, some, [],
  ◌∷◌, ◌++◌, reverse, append_assoc, get_elem?, length, take, drop, ltb, ◌==◌, if◌then◌else◌, arith,
  Bool-cases, inl, inr, min, length-drop, &&-split,
}
use just_git.Base.Cuts.{
  reverse-take_next, drop_next, take_add, drop-take, take-take, drop-drop, get_elem?-some,
}
use mathlib.Core.List.{reverse-append, reverse-cons, reverse-reverse}
use just_git.Pack.Sizes.{Bytes}
use just_git.Pack.Delta.Match.{Writer}
use just_git.Pack.Delta.Create.{
  step_back, can_extend, same_byte, extend_back, pop, close_insert, emit_copy, copy_command,
  copy_arguments,
}
use just_git.Pack.Delta.Ops.{insert, copy, Ops, print, meaning}
use just_git.Pack.Delta.Matches.{Matches}
use just_git.Pack.Delta.Written.{pending, IsWritten, Written, close_insert-IsWritten}

same_byte_lem : (a b : Option ℕ) (x : ℕ) → same_byte a b ≡ true → b ≡ some x → a ≡ some x
unfolding same_byte
same_byte_lem none none x h e = cc
same_byte_lem none (some y) x h e = cc
same_byte_lem (some z) none x h e = cc
same_byte_lem (some z) (some y) x h e = ground (arith, h, e)

step_back_parts :
    (s : Writer) → ((step_back s).data_pos ≡ s.data_pos - 1) × ((step_back s).msize ≡ s.msize + 1)
unfolding step_back
step_back_parts s = (refl, refl)

pub close_insert_parts :
    (s : Writer) → ((close_insert s).data_pos ≡ s.data_pos) × ((close_insert s).msize ≡ s.msize)
unfolding close_insert
close_insert_parts s = (ground arith, ground arith)

module _ (src target header : Bytes) where
  -- A match one byte longer, at both ends.
  longer :
      (i j k l n n' x : ℕ)
      → get_elem? src i ≡ some x
      → get_elem? target j ≡ some x
      → k ≡ suc i
      → l ≡ suc j
      → n' ≡ suc n
      → l ≤ length target
      → Matches src (drop l target) (record { moff = k; msize = n })
      → Matches src (drop j target) (record { moff = i; msize = n' })
  longer i j k l n n' x a b ek el en p m = record {
    in_src = omega (arith, m.in_src);
    in_rest = omega (arith, m.in_rest, length-drop j target, length-drop l target);
    agree = rw en (
        ap (take (suc n)) (drop_next i src x a)
        ∙ ap (λ l. x ∷ l) (rw (← ek, ← el) m.agree)
        ∙ sym (ap (take (suc n)) (drop_next j target x b)));
  }

  popped :
      (slot x : ℕ) (run below out : Bytes) (n : ℕ)
      → out ≡ pending slot (x ∷ run) below
      → n ≡ length run
      → (if n == 0 then pop (pop out) else pop out) ≡ pending slot run below
  unfolding pop
  popped slot x [] below out n o e = let z : (n == 0) ≡ true = ground (arith, e) in rw (z, o)
  popped slot x (y ∷ run) below out n o e =
      let z : (n == 0) ≡ false = ground (arith, e) in rw (z, o)

  not_at_start : (n x : ℕ) (rest : Bytes) → reverse (take n target) ≡ x ∷ rest → n ≡ suc (n - 1)
  not_at_start zero x rest e = cc
  not_at_start (suc n) x rest e = omega arith

  step_back-IsWritten :
      (ops : Ops) (slot x : ℕ) (run : Bytes) (s : Writer)
      → can_extend src target s ≡ true
      → IsWritten src target header ops slot (x ∷ run) s
      → IsWritten src target header ops slot run (step_back s)
  unfolding step_back can_extend
  step_back-IsWritten ops slot x run s h w =
      let i = s.moff - 1 in
      let j = s.data_pos - 1 in
      let (pos, same) =
        &&-split (ltb 0 s.moff) (same_byte (get_elem? src i) (get_elem? target j)) h in
      let el : s.data_pos ≡ suc j = not_at_start s.data_pos x _ w.so_far in
      let ek : s.moff ≡ suc i = ground arith in
      let (y, at_y) = get_elem?-some j target (omega (arith, w.within)) in
      let at_x : get_elem? src i ≡ some y =
        same_byte_lem (get_elem? src i) (get_elem? target j) y same at_y in
      let before : y ∷ reverse (take j target) ≡ x ∷ (run ++ reverse (meaning src ops)) =
        sym (reverse-take_next j target y at_y)
        ∙ ap (λ n. reverse (take n target)) (sym el)
        ∙ w.so_far in
      record {
        written =
            popped slot x run (reverse (header ++ print ops)) s.out (s.inscnt - 1) w.written
              (omega (arith, w.counted));
        counted = omega (arith, w.counted);
        short = omega (arith, w.short);
        valid = w.valid;
        so_far = cc before;
        within = omega (arith, w.within);
        found =
            longer i j s.moff s.data_pos s.msize (s.msize + 1) y at_x at_y ek el (omega arith)
              w.within w.found;
      }

  -- What the loop leaves: the run it reached, and how far it went.
  record IsExtended (n : ℕ) (ops : Ops) (slot : ℕ) (s t : Writer) : Type 0 where
    run : Bytes
    still : IsWritten src target header ops slot run t
    end : t.data_pos + t.msize ≡ s.data_pos + s.msize
    grows : s.msize ≤ t.msize
    bound : t.msize ≤ s.msize + n

  extend_back-IsExtended :
      (n : ℕ) (ops : Ops) (slot : ℕ) (run : Bytes) (s : Writer)
      → n ≡ length run
      → IsWritten src target header ops slot run s
      → IsExtended n ops slot s (extend_back n src target s)
  unfolding extend_back
  extend_back-IsExtended zero ops slot run s e w = record {
    run = run;
    still = w;
    end = refl;
    grows = omega arith;
    bound = omega arith;
  }
  extend_back-IsExtended (suc n) ops slot [] s e w = absurd (omega arith)
  extend_back-IsExtended (suc n) ops slot (x ∷ run) s e w =
      elim (Bool-cases (can_extend src target s)) [
        | inr k ↦ rw k (record {
          run = x ∷ run;
          still = w;
          end = refl;
          grows = omega arith;
          bound = omega arith;
        })
        | inl k ↦
            let w' = step_back-IsWritten ops slot x run s k w in
            let more = extend_back-IsExtended n ops slot run (step_back s) (omega arith) w' in
            rw k (record {
              run = more.run;
              still = more.still;
              end =
                  omega (arith, more.end, step_back_parts s, not_at_start s.data_pos x _ w.so_far);
              grows = omega (arith, more.grows, step_back_parts s);
              bound = omega (arith, more.bound, step_back_parts s);
            })
      ]

  -- The same with the bytes to insert closed.
  record IsClosed (n : ℕ) (s t : Writer) : Type 0 where
    ops : Ops
    still : IsWritten src target header ops 0 [] t
    end : t.data_pos + t.msize ≡ s.data_pos + s.msize
    grows : s.msize ≤ t.msize
    bound : t.msize ≤ s.msize + n

  pub close_any :
      (ops : Ops) (slot : ℕ) (run : Bytes) (s : Writer)
      → IsWritten src target header ops slot run s
      → (ops' : Ops) × IsWritten src target header ops' 0 [] (close_insert s)
  unfolding close_insert
  close_any ops slot [] s w =
      let none_open : ltb 0 s.inscnt ≡ false = ground (arith, w.counted) in
      (
        ops,
        rw none_open (record {
          written = w.written;
          counted = refl;
          short = w.short;
          valid = w.valid;
          so_far = w.so_far;
          within = w.within;
          found = w.found;
        }),
      )
  close_any ops slot (x ∷ run) s w = (
    insert (reverse (x ∷ run)) ∷ ops,
    close_insert-IsWritten src target header ops slot x run s w,
  )

  IsClosed-back :
      (s : Writer)
      → Written src target header s
      → IsClosed s.inscnt s (close_insert (extend_back s.inscnt src target s))
  IsClosed-back s (ops, slot, run, w) =
      let back = extend_back-IsExtended s.inscnt ops slot run s w.counted w in
      let t = extend_back s.inscnt src target s in
      let closed = close_any ops slot back.run t back.still in
      record {
        ops = closed.0;
        still = closed.1;
        end = omega (arith, close_insert_parts t, back.end);
        grows = omega (arith, close_insert_parts t, back.grows);
        bound = omega (arith, close_insert_parts t, back.bound);
      }

  -- A copy of the first bytes of a match, and the rest of the match.
  copied_lem :
      (pos moff msize size left : ℕ) (ops : Ops)
      → reverse (take pos target) ≡ reverse (meaning src ops)
      → Matches src (drop pos target) (record { moff = moff; msize = msize })
      → size + left ≤ msize
      → (reverse (take (pos + size) target) ≡ reverse (meaning src (copy moff size ∷ ops)))
        × Matches src (drop (pos + size) target) (record { moff = moff + size; msize = left })
  copied_lem pos moff msize size left ops e m h = (
    ap reverse (
        take_add pos size (pos + size) target refl
        ∙ ap (λ l. l ++ take size (drop pos target)) whole
        ∙ ap (λ l. meaning src ops ++ l) (sym (cut size (omega arith)))),
    record {
      in_src = omega (arith, m.in_src);
      in_rest = omega (arith, m.in_rest, length-drop pos target, length-drop (pos + size) target);
      agree =
          ap (take left) (sym (drop-drop moff size (moff + size) src refl))
          ∙ sym (drop-take size left (size + left) (drop moff src) refl)
          ∙ ap (drop size) (cut (size + left) h)
          ∙ drop-take size left (size + left) (drop pos target) refl
          ∙ ap (take left) (drop-drop pos size (pos + size) target refl);
    },
  )
    where
      whole : take pos target ≡ meaning src ops
      whole =
          sym (reverse-reverse (take pos target)) ∙ ap reverse e ∙ reverse-reverse (meaning src ops)

      cut : (k : ℕ) → k ≤ msize → take k (drop moff src) ≡ take k (drop pos target)
      cut k l =
          sym (take-take k msize (drop moff src) l)
          ∙ ap (take k) m.agree
          ∙ take-take k msize (drop pos target) l

  emitted_lem :
      (m n : ℕ) (ops : Ops)
      → reverse (copy_arguments m n) ++ (copy_command m n ∷ reverse (header ++ print ops))
        ≡ reverse (header ++ print (copy m n ∷ ops))
  emitted_lem m n ops = sym (
      ap reverse (sym (append_assoc header (print ops) (copy_command m n ∷ copy_arguments m n)))
      ∙ reverse-append (header ++ print ops) (copy_command m n ∷ copy_arguments m n)
      ∙ ap (λ l. l ++ reverse (header ++ print ops))
          (reverse-cons (copy_command m n) (copy_arguments m n))
      ∙ append_assoc (reverse (copy_arguments m n)) (copy_command m n ∷ [])
          (reverse (header ++ print ops)))

  -- A copy keeps what is written, and the position grows.
  pub emit_copy-Written :
      (s : Writer)
      → Written src target header s
      → 4 ≤ s.msize
      → Written src target header (emit_copy src target s)
        × (s.data_pos < (emit_copy src target s).data_pos)
  unfolding emit_copy
  emit_copy-Written s w h =
      let c = close_insert (extend_back s.inscnt src target s) in
      let k = IsClosed-back s w in
      let size = min c.msize 65536 in
      let left : ℕ = if ltb 0xffffffff (c.moff + size) then 0 else c.msize - size in
      let fits : size + left ≤ c.msize = ground arith in
      let made =
        copied_lem c.data_pos c.moff c.msize size left k.ops k.still.so_far k.still.found fits in
      (
        (
          copy c.moff size ∷ k.ops,
          0,
          [],
          record {
            written =
                ap (λ out. reverse (copy_arguments c.moff size) ++ (copy_command c.moff size ∷ out))
                  k.still.written
                ∙ emitted_lem c.moff size k.ops;
            counted = refl;
            short = omega arith;
            valid = (
              (omega (arith, k.grows), omega arith, omega (arith, k.still.found.in_src)),
              k.still.valid,
            );
            so_far = made.0;
            within =
                omega (arith, k.still.within, k.still.found.in_rest, length-drop c.data_pos target);
            found = made.1;
          },
        ),
        omega (arith, w.3.counted, w.3.short, k.end, k.grows, k.bound),
      )
