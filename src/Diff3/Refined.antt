-- ===== src/Diff3/Refined.antt =====
-- Proofs about the refinement of a conflict in src/lib/diff3.ts: differences are found, and either side reads as before.
use just_git.Base.{
  ℕ, zero, suc, ◌+◌, ◌≤◌, ◌≡◌, refl, sym, ap, ◌∙◌, true, Option, some, List, [], ◌∷◌, ◌++◌,
  append_assoc, append-nil, length, length-append, drop, drop_append, arith, Bool-cases, inl, inr,
}
use just_git.Diff3.Indices.{
  Lines, Flags, DiffIndex, skip_matched, skip_changed, are_ended, diff_indices_from,
}
use just_git.Diff3.Blocks.{slice, refine_from}
use just_git.Diff3.Sides.{
  IsDiff, ours, theirs, ours_push, theirs_push, Passed, skip_matched-Passed, skip_changed-Skipped,
}
use just_git.Diff3.Progress.{skip_matched_stops, progress, slice_lem, no_lines}

pub record IsRefined (a b xs ys : Lines) (pos : ℕ) (found : Option (List DiffIndex)) : Type 0 where
  pub ds : List DiffIndex
  pub there : found ≡ some ds
  pub ours_kept : ours (refine_from a b pos ds) ≡ xs
  pub theirs_kept : theirs (refine_from a b pos ds) ≡ ys

-- No difference is left.
nothing_left :
    (a b xs pa : Lines) (pos : ℕ)
    → a ≡ pa ++ xs
    → pos ≡ length pa
    → (ours (refine_from a b pos []) ≡ xs) × (theirs (refine_from a b pos []) ≡ xs)
unfolding refine_from
nothing_left a b xs pa pos e f =
    let rest : drop pos a ≡ xs = ap (drop pos) e ∙ drop_append pa xs pos f in
    (
      ours_push (drop pos a) [] ∙ append-nil (drop pos a) ∙ rest,
      theirs_push (drop pos a) [] ∙ append-nil (drop pos a) ∙ rest,
    )

-- One difference, in front of those that follow.
one_difference :
    (a b pa pb run u v xs' ys' : Lines) (pos i n m k : ℕ) (ds : List DiffIndex)
    → a ≡ pa ++ (run ++ (u ++ xs'))
    → b ≡ (pb ++ run) ++ (v ++ ys')
    → pos ≡ length pa
    → i ≡ length pb
    → n ≡ length run
    → m ≡ length u
    → k ≡ length v
    → ours (refine_from a b (pos + n + m) ds) ≡ xs'
    → theirs (refine_from a b (pos + n + m) ds) ≡ ys'
    → (ours (
          refine_from a b pos
            (record { start_1 = pos + n; length_1 = m; start_2 = i + n; length_2 = k } ∷ ds))
        ≡ run ++ (u ++ xs'))
      × (theirs (
            refine_from a b pos
              (record { start_1 = pos + n; length_1 = m; start_2 = i + n; length_2 = k } ∷ ds))
          ≡ run ++ (v ++ ys'))
unfolding refine_from
one_difference a b pa pb run u v xs' ys' pos i n m k ds ea eb ep ei en em ek o t =
    let first : slice a pos (pos + n) ≡ run =
      slice_lem a pa run (u ++ xs') pos (pos + n) ea ep (omega arith) in
    let left : slice a (pos + n) (pos + n + m) ≡ u =
      slice_lem a (pa ++ run) u xs' (pos + n) (pos + n + m)
        (ea ∙ sym (append_assoc pa run (u ++ xs'))) (omega (arith, length-append pa run))
        (omega arith) in
    let right : slice b (i + n) (i + n + k) ≡ v =
      slice_lem b (pb ++ run) v ys' (i + n) (i + n + k) eb (omega (arith, length-append pb run))
        (omega arith) in
    (
      ours_push (slice a pos (pos + n)) _ ∙ rw (first, left, o),
      theirs_push (slice a pos (pos + n)) _ ∙ rw (first, right, t),
    )

ended_nil : (fa fb : Flags) → are_ended fa fb ≡ true → (fa ≡ []) × (fb ≡ [])
unfolding are_ended
ended_nil [] [] e = (refl, refl)
ended_nil [] (y ∷ fb) e = cc
ended_nil (x ∷ fa) fb e = cc

-- The last round: what the texts share is all that is left of them.
pub last_round :
    (fa fb : Flags) (xs ys : Lines) (n : ℕ) (ga gb : Flags)
    → Passed fa fb xs ys n ga gb
    → are_ended ga gb ≡ true
    → xs ≡ ys
last_round fa fb xs ys n ga gb p e =
    let (a, b) = ended_nil ga gb e in
    let no_old : p.xs' ≡ [] = no_lines p.xs' (length ga) p.rest.old_flags (ap length a) in
    let no_new : p.ys' ≡ [] = no_lines p.ys' (length gb) p.rest.new_flags (ap length b) in
    p.old_run ∙ ap (λ l. p.run ++ l) (no_old ∙ sym no_new) ∙ sym p.new_run

pub diff_indices_from-IsRefined :
    (fuel : ℕ) (a b pa pb xs ys : Lines) (i_a i_b : ℕ) (fa fb : Flags)
    → a ≡ pa ++ xs
    → b ≡ pb ++ ys
    → i_a ≡ length pa
    → i_b ≡ length pb
    → IsDiff xs ys (fa, fb)
    → length fa + length fb ≤ fuel
    → IsRefined a b xs ys i_a (diff_indices_from fuel i_a i_b fa fb)
unfolding diff_indices_from
diff_indices_from-IsRefined zero a b pa pb xs ys i_a i_b [] [] ea eb la lb d h =
    let rest = nothing_left a b xs pa i_a ea la in
    let no_old : xs ≡ [] = no_lines xs 0 d.old_flags refl in
    let no_new : ys ≡ [] = no_lines ys 0 d.new_flags refl in
    record {
      ds = [];
      there = unfold are_ended in refl;
      ours_kept = rest.0;
      theirs_kept = rest.1 ∙ no_old ∙ sym no_new;
    }
diff_indices_from-IsRefined zero a b pa pb xs ys i_a i_b [] (y ∷ fb) ea eb la lb d h =
    absurd (omega arith)
diff_indices_from-IsRefined zero a b pa pb xs ys i_a i_b (x ∷ fa) fb ea eb la lb d h =
    absurd (omega arith)
diff_indices_from-IsRefined (suc fuel) a b pa pb xs ys i_a i_b fa fb ea eb la lb d h =
    let s = skip_matched fa fb in
    let p = skip_matched-Passed fa fb xs ys d in
    elim (Bool-cases (are_ended s.1 s.2)) [
      | inl e ↦
          let rest = nothing_left a b xs pa i_a ea la in
          record {
            ds = [];
            there = ground (arith, e);
            ours_kept = rest.0;
            theirs_kept = rest.1 ∙ last_round fa fb xs ys s.0 s.1 s.2 p e;
          }
      | inr e ↦
          let ca = skip_changed s.1 in
          let cb = skip_changed s.2 in
          let u = skip_changed-Skipped s.1 p.xs' p.rest.old_flags in
          let v = skip_changed-Skipped s.2 p.ys' p.rest.new_flags in
          let moved = progress s.1 s.2 p.xs' p.ys' e (skip_matched_stops fa fb) p.rest in
          let whole_a : a ≡ pa ++ (p.run ++ (u.run ++ u.xs')) =
            ea ∙ ap (λ l. pa ++ l) (p.old_run ∙ ap (λ l. p.run ++ l) u.whole) in
          let whole_b : b ≡ (pb ++ p.run) ++ (v.run ++ v.xs') =
            eb
            ∙ ap (λ l. pb ++ l) (p.new_run ∙ ap (λ l. p.run ++ l) v.whole)
            ∙ sym (append_assoc pb p.run (v.run ++ v.xs')) in
          let more =
            diff_indices_from-IsRefined fuel a b ((pa ++ p.run) ++ u.run) ((pb ++ p.run) ++ v.run)
              u.xs' v.xs' (i_a + s.0 + ca.0) (i_b + s.0 + cb.0) ca.1 cb.1
              (whole_a
                ∙ sym (append_assoc pa p.run (u.run ++ u.xs'))
                ∙ sym (append_assoc (pa ++ p.run) u.run u.xs'))
              (whole_b ∙ sym (append_assoc (pb ++ p.run) v.run v.xs'))
              (omega (
                arith,
                length-append (pa ++ p.run) u.run,
                length-append pa p.run,
                p.counted,
                u.counted,
              ))
              (omega (
                arith,
                length-append (pb ++ p.run) v.run,
                length-append pb p.run,
                p.counted,
                v.counted,
              ))
              (record {
                old_flags = u.flags;
                new_flags = v.flags;
                same_kept = sym u.same ∙ p.rest.same_kept ∙ v.same;
              })
              (omega (
                arith,
                shorter fa xs s.1 p.run p.xs' d.old_flags p.rest.old_flags p.old_run,
                shorter fb ys s.2 p.run p.ys' d.new_flags p.rest.new_flags p.new_run,
                u.flags_left,
                v.flags_left,
                moved,
                h,
              )) in
          let both =
            one_difference a b pa pb p.run u.run v.run u.xs' v.xs' i_a i_b s.0 ca.0 cb.0 more.ds
              whole_a whole_b la lb p.counted u.counted v.counted more.ours_kept more.theirs_kept in
          record {
            ds =
                record {
                  start_1 = i_a + s.0;
                  length_1 = ca.0;
                  start_2 = i_b + s.0;
                  length_2 = cb.0;
                }
                ∷ more.ds;
            there = ground (arith, e, more.there, moved);
            ours_kept = both.0 ∙ sym (p.old_run ∙ ap (λ l. p.run ++ l) u.whole);
            theirs_kept = both.1 ∙ sym (p.new_run ∙ ap (λ l. p.run ++ l) v.whole);
          }
    ]
  where
    shorter :
        (f : Flags) (l : Lines) (g : Flags) (run l' : Lines)
        → length f ≡ length l
        → length g ≡ length l'
        → l ≡ run ++ l'
        → length g ≤ length f
    shorter f l g run l' a b e = omega (arith, ap length e, length-append run l')
