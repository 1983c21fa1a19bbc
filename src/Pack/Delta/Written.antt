-- ===== src/Pack/Delta/Written.antt =====
-- What `createDelta` of src/lib/pack/delta.ts has written: whole instructions, and bytes to insert behind
-- a place for their count. The rounds that insert a byte, and the search, keep it.
use just_git.Base.{
  ℕ, suc, ◌+◌, ◌≤◌, ◌<◌, ◌≡◌, refl, sym, ap, ◌∙◌, true, false, some, List, [], ◌∷◌, ◌++◌, reverse,
  append_assoc, get_elem?, length, take, drop, ltb, ◌==◌, if◌then◌else◌, arith, Bool-cases, inl,
  inr,
}
use just_git.Base.Cuts.{reverse-take_next, get_elem?-some, length-reverse}
use mathlib.Core.List.{reverse-append, reverse-cons, reverse-reverse}
use just_git.Pack.Sizes.{Bytes}
use just_git.Pack.Delta.Match.{DeltaIndex, Writer, search_match, element}
use just_git.Pack.Delta.Create.{emit_insert, patch, close_insert}
use just_git.Pack.Delta.Ops.{insert, Ops, print, meaning, AreValid}
use just_git.Pack.Delta.Matches.{Matches, find_match-Matches}

-- The bytes of the open instruction, the newest first, over what is below them.
abbrev pub pending : ℕ → Bytes → Bytes → Bytes
pending slot [] below = below
pending slot (x ∷ run) below = (x ∷ run) ++ (slot ∷ below)

pub record IsWritten (src target header : Bytes) (ops : Ops) (slot : ℕ) (run : Bytes) (s : Writer)
    : Type 0 where
  pub written : s.out ≡ pending slot run (reverse (header ++ print ops))
  pub counted : s.inscnt ≡ length run
  pub short : length run < 127
  pub valid : AreValid src ops
  pub so_far : reverse (take s.data_pos target) ≡ run ++ reverse (meaning src ops)
  pub within : s.data_pos ≤ length target
  pub found : Matches src (drop s.data_pos target) (record { moff = s.moff; msize = s.msize })

patch_lem :
    (r below : Bytes) (n slot : ℕ) → patch (length r) n (r ++ (slot ∷ below)) ≡ r ++ (n ∷ below)
unfolding patch
patch_lem [] below n slot = refl
patch_lem (x ∷ r) below n slot = ap (λ l. x ∷ l) (patch_lem r below n slot)

-- A count in its place makes an instruction.
closed_lem :
    (header run : Bytes) (ops : Ops)
    → run ++ (length run ∷ reverse (header ++ print ops))
      ≡ reverse (header ++ print (insert (reverse run) ∷ ops))
closed_lem header run ops = sym (
    ap reverse (sym (append_assoc header (print ops) (length (reverse run) ∷ reverse run)))
    ∙ reverse-append (header ++ print ops) (length (reverse run) ∷ reverse run)
    ∙ ap (λ l. l ++ reverse (header ++ print ops))
        (reverse-cons (length (reverse run)) (reverse run)
          ∙ ap (λ l. l ++ (length (reverse run) ∷ [])) (reverse-reverse run)
          ∙ ap (λ n. run ++ (n ∷ [])) (length-reverse run))
    ∙ append_assoc run (length run ∷ []) (reverse (header ++ print ops)))

meaning-insert :
    (src run : Bytes) (ops : Ops)
    → reverse (meaning src (insert (reverse run) ∷ ops)) ≡ run ++ reverse (meaning src ops)
meaning-insert src run ops =
    reverse-append (meaning src ops) (reverse run)
    ∙ ap (λ l. l ++ reverse (meaning src ops)) (reverse-reverse run)

pending_cons :
    (slot x : ℕ) (run below : Bytes) → pending slot (x ∷ run) below ≡ (x ∷ run) ++ (slot ∷ below)
pending_cons slot x run below = refl

pub element_lem : (n : ℕ) (xs : List ℕ) → n < length xs → get_elem? xs n ≡ some (element xs n)
unfolding element
element_lem n xs h = let found = get_elem?-some n xs h in ground (arith, found.1)

module _ (src target header : Bytes) where
  -- A round of the search finds a match of the rest.
  pub search_match-IsWritten :
      (index : DeltaIndex) (ops : Ops) (slot : ℕ) (run : Bytes) (s : Writer)
      → index.src ≡ src
      → IsWritten src target header ops slot run s
      → IsWritten src target header ops slot run (search_match index target s)
  unfolding search_match
  search_match-IsWritten index ops slot run s e w = elim (Bool-cases (ltb s.msize 4096)) [
    | inr k ↦ rw k w
    | inl k ↦ rw k (record {
      written = w.written;
      counted = w.counted;
      short = w.short;
      valid = w.valid;
      so_far = w.so_far;
      within = w.within;
      found = rw e (find_match-Matches src (drop s.data_pos target) _ _ _ w.found);
    })
  ]

  -- The bytes to insert become an instruction.
  pub close_insert-IsWritten :
      (ops : Ops) (slot x : ℕ) (run : Bytes) (s : Writer)
      → IsWritten src target header ops slot (x ∷ run) s
      → IsWritten src target header (insert (reverse (x ∷ run)) ∷ ops) 0 [] (close_insert s)
  unfolding close_insert
  close_insert-IsWritten ops slot x run s w =
      let open_run : ltb 0 s.inscnt ≡ true = ground (arith, w.counted) in
      rw open_run (record {
        written =
            ap (λ n. patch n n s.out) w.counted
            ∙ ap (patch (length (x ∷ run)) (length (x ∷ run))) w.written
            ∙ patch_lem (x ∷ run) (reverse (header ++ print ops)) (length (x ∷ run)) slot
            ∙ closed_lem header (x ∷ run) ops;
        counted = refl;
        short = omega arith;
        valid = (
          (
            omega (arith, length-reverse (x ∷ run)),
            omega (arith, length-reverse (x ∷ run), w.short),
          ),
          w.valid,
        );
        so_far = w.so_far ∙ sym (meaning-insert src (x ∷ run) ops);
        within = w.within;
        found = w.found;
      })

  abbrev pub Written : Writer → Type 0
  Written s = (ops : Ops) × (slot : ℕ) × (run : Bytes) × IsWritten src target header ops slot run s

  opened_lem :
      (ops : Ops) (slot : ℕ) (run : Bytes) (s : Writer)
      → IsWritten src target header ops slot run s
      → (slot' : ℕ) × ((if s.inscnt == 0 then 0 ∷ s.out else s.out)
          ≡ run ++ (slot' ∷ reverse (header ++ print ops)))
  opened_lem ops slot [] s w =
      let e : (s.inscnt == 0) ≡ true = ground (arith, w.counted) in (0, rw (e, w.written))
  opened_lem ops slot (x ∷ run) s w =
      let e : (s.inscnt == 0) ≡ false = ground (arith, w.counted) in (slot, rw (e, w.written))

  no_match :
      (s : Writer) (rest rest' : Bytes)
      → Matches src rest (record { moff = s.moff; msize = s.msize })
      → Matches src rest' (record { moff = s.moff; msize = 0 })
  no_match s rest rest' m = record {
    in_src = omega (arith, m.in_src);
    in_rest = omega arith;
    agree = refl;
  }

  -- A byte more, by the case of a full run of 127.
  insert_byte :
      (ops : Ops) (slot slot' y : ℕ) (run opened : Bytes) (s : Writer)
      → IsWritten src target header ops slot run s
      → opened ≡ run ++ (slot' ∷ reverse (header ++ print ops))
      → get_elem? target s.data_pos ≡ some y
      → s.data_pos < length target
      → Written (
          if s.inscnt + 1 == 127
          then record s {
            out = patch (s.inscnt + 1) (s.inscnt + 1) (y ∷ opened);
            inscnt = 0;
            data_pos = s.data_pos + 1;
            msize = 0;
          }
          else record s {
            out = y ∷ opened;
            inscnt = s.inscnt + 1;
            data_pos = s.data_pos + 1;
            msize = 0;
          })
  insert_byte ops slot slot' y run opened s w o g h =
      let grown : reverse (take (s.data_pos + 1) target) ≡ (y ∷ run) ++ reverse (meaning src ops) =
        rw (next s.data_pos) (reverse-take_next s.data_pos target y g ∙ ap (λ l. y ∷ l) w.so_far) in
      let n : s.inscnt + 1 ≡ length (y ∷ run) = omega (arith, w.counted) in
      elim (Bool-cases (s.inscnt + 1 == 127)) [
        | inl e ↦ rw e (
          insert (reverse (y ∷ run)) ∷ ops,
          0,
          [],
          record {
            written =
                ap (λ n. patch n n (y ∷ opened)) n
                ∙ ap (λ l. patch (length (y ∷ run)) (length (y ∷ run)) (y ∷ l)) o
                ∙ patch_lem (y ∷ run) (reverse (header ++ print ops)) (length (y ∷ run)) slot'
                ∙ closed_lem header (y ∷ run) ops;
            counted = refl;
            short = omega arith;
            valid = (
              (
                omega (arith, length-reverse (y ∷ run)),
                omega (arith, length-reverse (y ∷ run), w.short),
              ),
              w.valid,
            );
            so_far = grown ∙ sym (meaning-insert src (y ∷ run) ops);
            within = omega arith;
            found = no_match s _ _ w.found;
          },
        )
        | inr e ↦ rw e (
          ops,
          slot',
          y ∷ run,
          record {
            written = ap (λ l. y ∷ l) o;
            counted = n;
            short = ground (arith, w.short, w.counted, e);
            valid = w.valid;
            so_far = grown;
            within = omega arith;
            found = no_match s _ _ w.found;
          },
        )
      ]
    where
      next : (n : ℕ) → n + 1 ≡ suc n
      next n = omega arith

  pub emit_insert-Written :
      (s : Writer) → Written s → s.data_pos < length target → Written (emit_insert target s)
  unfolding emit_insert
  emit_insert-Written s (ops, slot, run, w) h =
      let (slot', o) = opened_lem ops slot run s w in
      insert_byte ops slot slot' (element target s.data_pos) run
        (if s.inscnt == 0 then 0 ∷ s.out else s.out) s w o (element_lem s.data_pos target h) h
