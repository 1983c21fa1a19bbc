-- ===== src/Diff3/Loop.antt =====
-- Proofs about the loop of `diff3MergeRegions` in src/lib/diff3.ts: it ends, and its regions split the texts in step.
use just_git.Base.{
  ℕ, suc, ◌+◌, ◌-◌, ◌≤◌, ◌≡◌, refl, sym, ap, ◌∙◌, subst, some, List, [], ◌∷◌, ◌++◌, append_assoc,
  length, length-append, arith,
}
use just_git.Diff3.Indices.{Lines}
use just_git.Diff3.Regions.{
  Side, side_a, side_b, MergeRegion, Hunk, advance_to, pull_in, region_of, regions_from,
}
use just_git.Diff3.Apart.{Separate}
use just_git.Diff3.Turned.{Turned}
use just_git.Diff3.Hunks.{of_side, of_side-append}
use just_git.Diff3.Pulled.{EndsBy, IsPulled, pull_in-IsPulled}
use just_git.Diff3.Cut.{IsCut, side-IsCut}
use just_git.Diff3.InStep.{IsMerge, IsMerge-eq, advance_to-IsMerge}
use just_git.Diff3.Recovered.{
  region_of-IsMerge, InOrder-From, EndsBy-Until, Separate-behind, IsState,
}

pub next_regions :
    (fuel : ℕ) (a o b : Lines) (i : ℕ) (h : Hunk) (hs : List Hunk) (rest : List MergeRegion)
    → regions_from fuel a o b
        (pull_in (h.o_start + h.o_length) hs).0
        (pull_in (h.o_start + h.o_length) hs).2
      ≡ some rest
    → regions_from (suc fuel) a o b i (h ∷ hs)
      ≡ some (
          advance_to o i h.o_start
          ++ (region_of a o b
                (pull_in (h.o_start + h.o_length) hs).0
                h
                (pull_in (h.o_start + h.o_length) hs).1
              ++ rest))
unfolding regions_from
next_regions fuel a o b i h hs rest e = ground (arith, e)

EndsBy-behind : (n : ℕ) (hs ks : List Hunk) → EndsBy n (hs ++ ks) → EndsBy n ks
EndsBy-behind n [] ks e = e
EndsBy-behind n (h ∷ hs) ks e = EndsBy-behind n hs ks e.1

module _ (a o b al ol bl : Lines) (i ja jb : ℕ) (h : Hunk) (hs : List Hunk)
    (s : IsState a o b al ol bl i ja jb (h ∷ hs)) where
  abbrev pub region_end : ℕ
  region_end = (pull_in (h.o_start + h.o_length) hs).0

  abbrev pub taken : List Hunk
  taken = (pull_in (h.o_start + h.o_length) hs).1

  abbrev pub rest : List Hunk
  rest = (pull_in (h.o_start + h.o_length) hs).2

  abbrev pub pulled : IsPulled (h.o_start + h.o_length) hs (pull_in (h.o_start + h.o_length) hs)
  pulled = pull_in-IsPulled (h.o_start + h.o_length) h.o_start hs s.ordered.1

  pub size_o : length o ≡ i + length ol
  size_o = ap length s.place_o ∙ length-append s.po ol ∙ ap (λ n. n + length ol) (sym s.size_o)

  pub in_text : region_end ≤ length o
  in_text = pulled.bounded (length o) s.bounded.0 s.bounded.1

  -- The hunks of a side, in the region and behind it.
  divided : (side : Side) → of_side side (h ∷ hs) ≡ of_side side (h ∷ taken) ++ of_side side rest
  divided side =
      ap (of_side side) (ap (λ l. h ∷ l) pulled.split) ∙ of_side-append side (h ∷ taken) rest

  -- The part of a side that the region takes, where the base is cut in three.
  pub cut :
      (side : Side) (x px xs pre mid post : Lines) (j : ℕ)
      → ol ≡ pre ++ (mid ++ post)
      → length pre ≡ h.o_start - i
      → length mid ≡ region_end - h.o_start
      → Turned i j ol xs (of_side side (h ∷ hs))
      → x ≡ px ++ xs
      → j ≡ length px
      → IsCut side x o xs pre mid post j h.o_start region_end (h ∷ taken) (of_side side rest)
  cut side x px xs pre mid post j eo ep em tu ex ej =
      side-IsCut side x o px xs pre mid post i j h.o_start region_end (h ∷ taken)
        (of_side side (h ∷ taken)) (of_side side rest) (of_side side (h ∷ hs))
        (subst (λ l. Turned i j l xs (of_side side (h ∷ hs))) eo tu) (divided side) refl ex ej
        (let whole : length ol ≡ length (pre ++ (mid ++ post)) = ap length eo in
          omega (arith, size_o, whole))
        (omega (arith, ep, s.ordered.0)) (omega (arith, ep, em, s.ordered.0, pulled.grows))
        (InOrder-From side h.o_start (h ∷ hs) (omega arith, s.ordered.1))
        (EndsBy-Until side region_end (h ∷ taken) (pulled.grows, pulled.taken_ends))
        (InOrder-From side region_end rest pulled.ordered)

  -- The state behind the region.
  pub next-IsState :
      (pre mid post : Lines)
      → (eo : ol ≡ pre ++ (mid ++ post)) → length pre ≡ h.o_start - i
      → length mid ≡ region_end - h.o_start
      → (ca : IsCut side_a a o al pre mid post ja h.o_start region_end
          (h ∷ taken)
          (of_side side_a rest))
      → (cb : IsCut side_b b o bl pre mid post jb h.o_start region_end
          (h ∷ taken)
          (of_side side_b rest))
      → IsState a o b ca.behind post cb.behind region_end
          (ja + length pre + length ca.part)
          (jb + length pre + length cb.part)
          rest
  next-IsState pre mid post eo ep em ca cb = record {
    pa = (s.pa ++ pre) ++ ca.part;
    po = (s.po ++ pre) ++ mid;
    pb = (s.pb ++ pre) ++ cb.part;
    place_a = placed s.pa pre ca.part ca.behind a al s.place_a ca.whole;
    place_o = placed s.po pre mid post o ol s.place_o eo;
    place_b = placed s.pb pre cb.part cb.behind b bl s.place_b cb.whole;
    size_a = sized s.pa pre ca.part ja s.size_a;
    size_o =
        (let here : region_end ≡ i + length pre + length mid =
            omega (arith, ep, em, s.ordered.0, pulled.grows) in
          here ∙ sized s.po pre mid i s.size_o);
    size_b = sized s.pb pre cb.part jb s.size_b;
    ordered = pulled.ordered;
    apart_a =
        Separate-behind (of_side side_a (h ∷ taken)) (of_side side_a rest)
          (subst Separate (divided side_a) s.apart_a);
    apart_b =
        Separate-behind (of_side side_b (h ∷ taken)) (of_side side_b rest)
          (subst Separate (divided side_b) s.apart_b);
    turned_a = ca.next;
    turned_b = cb.next;
    bounded =
        EndsBy-behind (length o) taken rest (subst (EndsBy (length o)) pulled.split s.bounded.1);
  }
    where
      placed : (p q m r x l : Lines) → x ≡ p ++ l → l ≡ q ++ (m ++ r) → x ≡ ((p ++ q) ++ m) ++ r
      placed p q m r x l e f =
          e ∙ ap (λ z. p ++ z) f ∙ sym (append_assoc p q (m ++ r)) ∙ sym (append_assoc (p ++ q) m r)

      sized :
          (p q m : Lines) (n : ℕ) → n ≡ length p → n + length q + length m ≡ length ((p ++ q) ++ m)
      sized p q m n e = omega (arith, e, length-append (p ++ q) m, length-append p q)

  -- The pieces of a round, in front of what the next rounds give.
  pub round-IsMerge :
      (pre mid post : Lines) (regions : List MergeRegion)
      → (eo : ol ≡ pre ++ (mid ++ post)) → length pre ≡ h.o_start - i
      → length mid ≡ region_end - h.o_start
      → (ca : IsCut side_a a o al pre mid post ja h.o_start region_end
          (h ∷ taken)
          (of_side side_a rest))
      → (cb : IsCut side_b b o bl pre mid post jb h.o_start region_end
          (h ∷ taken)
          (of_side side_b rest))
      → IsMerge ca.behind post cb.behind rest regions
      → IsMerge al ol bl
          (h ∷ hs)
          (advance_to o i h.o_start ++ (region_of a o b region_end h taken ++ regions))
  round-IsMerge pre mid post regions eo ep em ca cb t =
      let whole : h ∷ hs ≡ h ∷ (taken ++ rest) = ap (λ l. h ∷ l) pulled.split in
      let here : h.o_start ≡ i + length pre = omega (arith, ep, s.ordered.0) in
      let placed : o ≡ (s.po ++ pre) ++ (mid ++ post) =
        s.place_o ∙ ap (λ l. s.po ++ l) eo ∙ sym (append_assoc s.po pre (mid ++ post)) in
      let region =
        region_of-IsMerge a o b al pre mid post bl ca.behind post cb.behind (s.po ++ pre) ja jb
          region_end h taken rest (of_side side_a rest) (of_side side_b rest) rest regions ca cb
          placed (omega (arith, here, length-append s.po pre, s.size_o))
          (omega (arith, em, pulled.grows)) pulled.chain pulled.alone pulled.touching
          (subst (λ l. Separate (of_side side_a l)) whole s.apart_a)
          (subst (λ l. Separate (of_side side_b l)) whole s.apart_b) t in
      IsMerge-eq _ _ _ _ _ _ _ _ _ _ (sym ca.whole) (sym eo) (sym cb.whole) (sym whole) refl (
        advance_to-IsMerge o s.po pre (mid ++ post) _ _ i h.o_start _ _
          (s.place_o ∙ ap (λ l. s.po ++ l) eo) s.size_o here region)
