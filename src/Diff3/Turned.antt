-- ===== src/Diff3/Turned.antt =====
-- Proofs about src/lib/diff3.ts: differences that turn one text into another, and what they make of a part of it.
use just_git.Base.{
  ℕ, ◌+◌, ◌≤◌, ◌≡◌, refl, sym, ap, ◌∙◌, subst, List, [], ◌∷◌, ◌++◌, append_assoc, length,
  length-append, arith, All,
}
use just_git.Diff3.Indices.{Lines, DiffIndex}

-- From the positions `i` and `j` on, the differences turn the lines `os` into `xs`.
abbrev pub Turned : ℕ → ℕ → Lines → Lines → List DiffIndex → Type 0
Turned i j os xs [] = os ≡ xs
Turned i j os xs (d ∷ ds) =
    (keep u v os' xs' : Lines) × (os ≡ keep ++ (u ++ os'))
    × (xs ≡ keep ++ (v ++ xs'))
    × (d.start_1 ≡ i + length keep)
    × (d.start_2 ≡ j + length keep)
    × (d.length_1 ≡ length u)
    × (d.length_2 ≡ length v)
    × Turned (d.start_1 + d.length_1) (d.start_2 + d.length_2) os' xs' ds

-- All the differences start at `k` or behind.
abbrev pub From : ℕ → List DiffIndex → Type 0
From k ds = All (λ d. k ≤ d.start_1) ds

-- All of them end at `k` or before.
abbrev pub Until : ℕ → List DiffIndex → Type 0
Until k ds = All (λ d. d.start_1 + d.length_1 ≤ k) ds

-- One text in front of another that is at least as long.
pub append_cut :
    (p q m r : Lines)
    → p ++ q ≡ m ++ r
    → length m ≤ length p
    → (k : Lines) × (p ≡ m ++ k) × (r ≡ k ++ q)
append_cut p q [] r e h = (p, refl, sym e)
append_cut [] q (x ∷ m) r e h = absurd (omega arith)
append_cut (y ∷ p) q (x ∷ m) r e h =
    let (k, f, g) = append_cut p q m r (cc) (omega arith) in (k, cc, g)

-- Lines in front of all differences stand in both texts.
pub Turned-skip :
    (i j : ℕ) (m os xs : Lines) (ds : List DiffIndex)
    → Turned i j (m ++ os) xs ds
    → From (i + length m) ds
    → (xs' : Lines) × (xs ≡ m ++ xs') × Turned (i + length m) (j + length m) os xs' ds
Turned-skip i j m os xs [] t f = (os, sym t, refl)
Turned-skip i j m os xs (d ∷ ds) (keep, u, v, os', xs', eo, ex, s1, s2, l1, l2, t) f =
    let (k, e, g) = append_cut keep (u ++ os') m os (sym eo) (omega (arith, s1, f.0)) in
    let size : length keep ≡ length m + length k = ap length e ∙ length-append m k in
    (
      k ++ (v ++ xs'),
      ex ∙ ap (λ l. l ++ (v ++ xs')) e ∙ append_assoc m k (v ++ xs'),
      (k, u, v, os', xs', g, refl, omega (arith, s1, size), omega (arith, s2, size), l1, l2, t),
    )

-- Where the last of the differences ends in either text.
abbrev pub ends : ℕ → ℕ → List DiffIndex → ℕ × ℕ
ends i j [] = (i, j)
ends i j (d ∷ ds) = ends (d.start_1 + d.length_1) (d.start_2 + d.length_2) ds

-- What the lines `mid` of the old text are turned into by the differences in them.
pub record Consumed (i j : ℕ) (mid post xs : Lines) (t ds : List DiffIndex) : Type 0 where
  pub turned_mid : Lines
  pub turned_post : Lines
  pub whole : xs ≡ turned_mid ++ turned_post
  pub rest : Turned (i + length mid) (j + length turned_mid) post turned_post ds
  pub offset : j + length turned_mid + (ends i j t).0 ≡ (ends i j t).1 + (i + length mid)
  pub inside : (ends i j t).1 ≤ j + length turned_mid
  pub unchanged : t ≡ [] → turned_mid ≡ mid

regroup : (p q m r : Lines) → p ++ (q ++ (m ++ r)) ≡ (p ++ (q ++ m)) ++ r
regroup p q m r = ap (λ l. p ++ l) (sym (append_assoc q m r)) ∙ sym (append_assoc p (q ++ m) r)

pub Turned-consume :
    (i j : ℕ) (mid post xs : Lines) (t ds : List DiffIndex)
    → Turned i j (mid ++ post) xs (t ++ ds)
    → Until (i + length mid) t
    → From (i + length mid) ds
    → Consumed i j mid post xs t ds
Turned-consume i j mid post xs [] ds tu un fr =
    let (xs', e, r) = Turned-skip i j mid post xs ds tu fr in
    record {
      turned_mid = mid;
      turned_post = xs';
      whole = e;
      rest = r;
      offset = omega arith;
      inside = omega arith;
      unchanged = λ e. refl;
    }
Turned-consume i j mid post xs (d ∷ t) ds (keep, u, v, os', xs', eo, ex, s1, s2, l1, l2, tu) un fr =
    let front = keep ++ u in
    let size : length front ≡ length keep + length u = length-append keep u in
    let (mid', e, g) =
      append_cut mid post front os' (eo ∙ sym (append_assoc keep u os'))
        (omega (arith, un.0, s1, l1, size)) in
    let sizes : length mid ≡ length front + length mid' = ap length e ∙ length-append front mid' in
    let there : d.start_1 + d.length_1 + length mid' ≡ i + length mid =
      omega (arith, s1, l1, size, sizes) in
    let more =
      Turned-consume (d.start_1 + d.length_1) (d.start_2 + d.length_2) mid' post xs' t ds
        (subst (λ l. Turned (d.start_1 + d.length_1) (d.start_2 + d.length_2) l xs' (t ++ ds)) g tu)
        (subst (λ k. Until k t) (sym there) un.1) (subst (λ k. From k ds) (sym there) fr) in
    let turned = keep ++ (v ++ more.turned_mid) in
    let turned_size : length turned ≡ length keep + (length v + length more.turned_mid) =
      length-append keep (v ++ more.turned_mid)
      ∙ ap (λ n. length keep + n) (length-append v more.turned_mid) in
    let place : d.start_2 + d.length_2 + length more.turned_mid ≡ j + length turned =
      omega (arith, s2, l2, turned_size) in
    record {
      turned_mid = turned;
      turned_post = more.turned_post;
      whole =
          ex
          ∙ ap (λ l. keep ++ (v ++ l)) more.whole
          ∙ regroup keep v more.turned_mid more.turned_post;
      rest =
          subst (λ n. Turned n (j + length turned) post more.turned_post ds) there
            (subst (λ n. Turned (d.start_1 + d.length_1 + length mid') n post more.turned_post ds)
              place more.rest);
      offset = omega (arith, more.offset, place, there);
      inside = omega (arith, more.inside, place);
      unchanged = λ e. cc;
    }
