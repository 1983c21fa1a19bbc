-- ===== src/Diff3/Cut.antt =====
-- Proofs about a region of `diff3MergeRegions` in src/lib/diff3.ts: the part of a side that it takes.
use just_git.Base.{
  ℕ, ◌+◌, ◌≤◌, ◌≡◌, ◌≢◌, refl, sym, ap, ◌∙◌, subst, List, [], ◌∷◌, ◌++◌, append_assoc, length,
  length-append, arith,
}
use just_git.Diff3.Indices.{Lines, DiffIndex}
use just_git.Diff3.Blocks.{slice}
use just_git.Diff3.Progress.{slice_lem}
use just_git.Diff3.Regions.{Side, Hunk, no_bounds, bounds_of, side_of_region}
use just_git.Diff3.Turned.{Turned, From, Until, Turned-skip, Consumed, Turned-consume}
use just_git.Diff3.Pulled.{side_of_region_lem}
use just_git.Diff3.Hunks.{of_side}

-- The lines `part` of a side stand against the lines of the base from `first` to `last`.
pub record IsCut (side : Side) (x o xs pre mid post : Lines) (j first last : ℕ) (taken : List Hunk)
    (r : List DiffIndex) : Type 0 where
  pub part : Lines
  pub behind : Lines
  pub whole : xs ≡ pre ++ (part ++ behind)
  pub next : Turned last (j + length pre + length part) post behind r
  pub changed :
      of_side side taken ≢ []
      → side_of_region x first last (bounds_of side (no_bounds x o) taken) ≡ part
  pub unchanged : of_side side taken ≡ [] → part ≡ mid
  pub only :
      (d : DiffIndex)
      → of_side side taken ≡ d ∷ []
      → d.start_1 ≡ first
      → d.start_1 + d.length_1 ≡ last
      → (slice x d.start_2 (d.start_2 + d.length_2) ≡ part) × (d.length_2 ≡ length part)

only_part :
    (x px mid post xs : Lines) (i j : ℕ) (d : DiffIndex) (ds : List DiffIndex)
    → (c : Consumed i j mid post xs (d ∷ []) ds) → Turned i j (mid ++ post) xs ((d ∷ []) ++ ds)
    → x ≡ px ++ xs
    → j ≡ length px
    → d.start_1 ≡ i
    → d.start_1 + d.length_1 ≡ i + length mid
    → (slice x d.start_2 (d.start_2 + d.length_2) ≡ c.turned_mid)
      × (d.length_2 ≡ length c.turned_mid)
only_part x px mid post xs i j d ds c (keep, u, v, os', xs', fo, fx, s1, s2, l1, l2, more) ex ej e
      f =
    (
      slice_lem x px c.turned_mid c.turned_post d.start_2 (d.start_2 + d.length_2)
          (ex ∙ ap (λ l. px ++ l) c.whole) (omega (arith, s1, s2, ej, e))
          (omega (arith, s1, s2, e, f, c.offset)),
      omega (arith, s1, s2, e, f, c.offset),
    )

side_changed :
    (side : Side) (x o px mid post xs : Lines) (i j : ℕ) (t ds : List DiffIndex) (hs : List Hunk)
    → (c : Consumed i j mid post xs t ds) → Turned i j (mid ++ post) xs (t ++ ds)
    → x ≡ px ++ xs
    → j ≡ length px
    → i + length (mid ++ post) ≤ length o
    → of_side side hs ≡ t
    → t ≢ []
    → side_of_region x i (i + length mid) (bounds_of side (no_bounds x o) hs) ≡ c.turned_mid
side_changed side x o px mid post xs i j [] ds hs c tu ex ej eo es n = absurd (n refl)
side_changed side x o px mid post xs i j (d ∷ t) ds hs c tu ex ej eo es n =
    side_of_region_lem side x o px mid post xs i j d t ds hs c tu ex ej eo es

side_only :
    (side : Side) (x px mid post xs : Lines) (i j : ℕ) (t ds : List DiffIndex) (d : DiffIndex)
    → (c : Consumed i j mid post xs t ds) → Turned i j (mid ++ post) xs (t ++ ds)
    → x ≡ px ++ xs
    → j ≡ length px
    → t ≡ d ∷ []
    → d.start_1 ≡ i
    → d.start_1 + d.length_1 ≡ i + length mid
    → (slice x d.start_2 (d.start_2 + d.length_2) ≡ c.turned_mid)
      × (d.length_2 ≡ length c.turned_mid)
side_only side x px mid post xs i j t ds d c tu ex ej et e f =
    subst
      (λ l.
        (c' : Consumed i j mid post xs l ds)
        → Turned i j (mid ++ post) xs (l ++ ds)
        → (slice x d.start_2 (d.start_2 + d.length_2) ≡ c'.turned_mid)
          × (d.length_2 ≡ length c'.turned_mid))
      (sym et) (λ c' tu'. only_part x px mid post xs i j d ds c' tu' ex ej e f) c tu

pub side-IsCut :
    (side : Side) (x o px xs pre mid post : Lines) (i j first last : ℕ) (taken : List Hunk)
    (t r ds : List DiffIndex)
    → Turned i j (pre ++ (mid ++ post)) xs ds
    → ds ≡ t ++ r
    → of_side side taken ≡ t
    → x ≡ px ++ xs
    → j ≡ length px
    → i + length (pre ++ (mid ++ post)) ≤ length o
    → first ≡ i + length pre
    → last ≡ i + length pre + length mid
    → From first ds
    → Until last t
    → From last r
    → IsCut side x o xs pre mid post j first last taken r
side-IsCut side x o px xs pre mid post i j first last taken t r ds tu es et ex ej eo ef el from
      until behind =
    let i' = i + length pre in
    let j' = j + length pre in
    let (xs', e, tu') =
      Turned-skip i j pre (mid ++ post) xs (t ++ r)
        (subst (Turned i j (pre ++ (mid ++ post)) xs) es tu)
        (subst (λ n. From n (t ++ r)) ef (subst (From first) es from)) in
    let c =
      Turned-consume i' j' mid post xs' t r tu' (subst (λ n. Until n t) el until)
        (subst (λ n. From n r) el behind) in
    let place : x ≡ (px ++ pre) ++ xs' = ex ∙ ap (λ l. px ++ l) e ∙ sym (append_assoc px pre xs') in
    let size : j' ≡ length (px ++ pre) = omega (arith, ej, length-append px pre) in
    let room : i' + length (mid ++ post) ≤ length o =
      omega (arith, eo, length-append pre (mid ++ post)) in
    record {
      part = c.turned_mid;
      behind = c.turned_post;
      whole = e ∙ ap (λ l. pre ++ l) c.whole;
      next = subst (λ n. Turned n (j' + length c.turned_mid) post c.turned_post r) (sym el) c.rest;
      changed = λ n.
          ap (λ k. side_of_region x k last (bounds_of side (no_bounds x o) taken)) ef
          ∙ ap (λ k. side_of_region x i' k (bounds_of side (no_bounds x o) taken)) el
          ∙ side_changed side x o (px ++ pre) mid post xs' i' j' t r taken c tu' place size room et
              (λ z. n (et ∙ z));
      unchanged = λ z. c.unchanged (sym et ∙ z);
      only = λ d z f g.
          side_only side x (px ++ pre) mid post xs' i' j' t r d c tu' place size (sym et ∙ z)
            (f ∙ ef) (g ∙ el);
    }
