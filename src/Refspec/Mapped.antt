-- ===== src/Refspec/Mapped.antt =====
-- Proofs about the mapping of src/lib/transport/refspec.ts.
use just_git.Base.{
  index_of, ℕ, zero, suc, ◌+◌, ◌-◌, ◌≡◌, refl, sym, ap, ◌∙◌, true, Option, none, some, is_some, [],
  ◌∷◌, ◌++◌, append_assoc, arith, Text, text_eq→eq, text_eq_refl, starts_with, starts_with-append,
  length, length-append, take, drop, take-append-drop, take_append, drop_append, ltb, if◌then◌else◌,
}
use just_git.Refspec.{
  star, Refspec, ends_with, matches_around, refspec_matches, matched, map_matching, map_refspec,
}

drop-nil : (n : ℕ) → drop {A = ℕ} n [] ≡ []
drop-nil zero = refl
drop-nil (suc n) = refl

drop-drop : (m n : ℕ) (s : Text) → drop m (drop n s) ≡ drop (n + m) s
drop-drop m zero s = ap (λ k. drop k s) (omega arith)
drop-drop m (suc n) [] = drop-nil m ∙ sym (drop-nil (suc n + m))
drop-drop m (suc n) (x ∷ s) =
    let shift : suc (n + m) ≡ suc n + m = omega arith in
    drop-drop m n s ∙ ap (λ k. drop k (x ∷ s)) shift

starts_with-drop : (s p : Text) → starts_with s p ≡ true → p ++ drop (length p) s ≡ s
unfolding starts_with
starts_with-drop s [] h = refl
starts_with-drop [] (y ∷ p) h = ground arith
starts_with-drop (x ∷ s) (y ∷ p) h = ground (arith, starts_with-drop s p)

matched_lem :
    (p q n : Text) → matched p q n ≡ take (length n - length q - length p) (drop (length p) n)
unfolding matched
matched_lem p q n =
    let end_idx : (if ltb 0 (length q) then length n - length q else length n)
        ≡ length n - length q =
      ground arith in
    ap (λ k. take (k - length p) (drop (length p) n)) end_idx

-- A name that matches is the prefix, what the star stands for, and the suffix.
matches_around-whole : (p q n : Text) → matches_around p q n ≡ true → p ++ (matched p q n ++ q) ≡ n
unfolding matches_around ends_with
matches_around-whole p q n h =
    ap (λ t. p ++ (t ++ q)) (matched_lem p q n)
    ∙ ap (λ t. p ++ (take (length n - length q - length p) (drop (length p) n) ++ t)) (sym tail)
    ∙ ap (λ t. p ++ t) (take-append-drop (length n - length q - length p) (drop (length p) n))
    ∙ starts_with-drop n p (ground arith)
  where
    same_place : length p + (length n - length q - length p) ≡ length n - length q
    same_place = ground arith

    tail : drop (length n - length q - length p) (drop (length p) n) ≡ q
    tail =
        drop-drop (length n - length q - length p) (length p) n
        ∙ ap (λ k. drop k n) same_place
        ∙ text_eq→eq (drop (length n - length q) n) q (ground arith)

matches_around-append : (p q m : Text) → matches_around p q (p ++ (m ++ q)) ≡ true
unfolding matches_around ends_with
matches_around-append p q m = ground (
  arith,
  starts_with-append p (m ++ q),
  length-append p (m ++ q),
  length-append m q,
  tail,
  text_eq_refl q,
)
  where
    tail : drop (length (p ++ (m ++ q)) - length q) (p ++ (m ++ q)) ≡ q
    tail =
        ap (drop (length (p ++ (m ++ q)) - length q)) (sym (append_assoc p m q))
        ∙ drop_append (p ++ m) q (length (p ++ (m ++ q)) - length q)
            (omega (arith, length-append p (m ++ q), length-append m q, length-append p m))

matched-append : (p q m : Text) → matched p q (p ++ (m ++ q)) ≡ m
matched-append p q m =
    matched_lem p q (p ++ (m ++ q))
    ∙ ap (take (length (p ++ (m ++ q)) - length q - length p))
        (drop_append p (m ++ q) (length p) refl)
    ∙ take_append m q (length (p ++ (m ++ q)) - length q - length p)
        (omega (arith, length-append p (m ++ q), length-append m q))

abbrev pub reversed : Refspec → Refspec
reversed spec = record spec { src = spec.dst; dst = spec.src }

-- Where both patterns of a refspec have a star, or neither has one, a name that it maps is
-- mapped back by the refspec with its patterns exchanged.
pub map_refspec-reversed :
    (spec : Refspec) (ref_name mapped : Text)
    → is_some (index_of star spec.src) ≡ is_some (index_of star spec.dst)
    → map_refspec spec ref_name ≡ some mapped
    → map_refspec (reversed spec) mapped ≡ some ref_name
unfolding map_refspec refspec_matches map_matching
map_refspec-reversed spec ref_name mapped same h =
    by_stars (index_of star spec.src) refl (index_of star spec.dst) refl
  where
    by_stars :
        (a : Option ℕ)
        → index_of star spec.src ≡ a
        → (b : Option ℕ) → index_of star spec.dst ≡ b
        → map_refspec (reversed spec) mapped ≡ some ref_name
    by_stars none ea none eb =
        ground (
          arith,
          ea,
          eb,
          h,
          text_eq→eq spec.src ref_name,
          text_eq_refl spec.dst,
          text_eq_refl mapped,
        )
    by_stars none ea (some j) eb = ground (arith, ea, eb, same)
    by_stars (some i) ea none eb = ground (arith, ea, eb, same)
    by_stars (some i) ea (some j) eb =
        let p = take i spec.src in
        let q = drop (suc i) spec.src in
        let m = matched p q ref_name in
        ground (
          arith,
          ea,
          eb,
          h,
          matches_around-whole p q ref_name,
          matches_around-append (take j spec.dst) (drop (suc j) spec.dst) m,
          matched-append (take j spec.dst) (drop (suc j) spec.dst) m,
        )
