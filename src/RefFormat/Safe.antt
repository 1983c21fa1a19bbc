-- ===== src/RefFormat/Safe.antt =====
-- Proofs about the names of refs (src/lib/refs.ts) as paths (src/lib/path-safety.ts).
use just_git.Base.{
  ℕ, zero, suc, ◌≤◌, ◌<◌, ◌≡◌, refl, sym, ap, ◌∙◌, subst, ◌⊎◌, inl, inr, Bool, true, false, not,
  ◌&&◌, ◌||◌, Option, none, some, [], ◌∷◌, ◌++◌, append-nil, arith, Text, text_eq, includes_unit,
  starts_with, split, split_part, split-append_part, length, length-append, length-take,
  length-drop, take, drop, take-append-drop, leb, ◌==◌, if◌then◌else◌,
}
use just_git.PathSafety.{
  first_is, last_is, is_dot_git, is_safe_component, all_components, verify_path,
}
use just_git.PathSafety.Ends.{last_is-includes_unit, last_is-append}
use just_git.RefFormat.{
  dot, disposition, Scanned, refused, scanned, one_more, scan, is_refused_component,
  check_ref_name_component, check_components, check_ref_format,
}

-- Where a scan of a text without NUL stops: at its end or at a slash.
abbrev StopsAt : Text → ℕ → Type 0
StopsAt s n =
    (n ≤ length s)
    × (includes_unit 0x2f (take n s) ≡ false)
    × ((drop n s ≡ []) ⊎ (drop n s ≡ 0x2f ∷ drop (suc n) s))

abbrev Stops : Text → Scanned → Type 0
Stops s refused = Unit
Stops s (scanned n star) = StopsAt s n

Stops-if :
    (b : Bool) (s : Text) (x y : Scanned)
    → (b ≡ true → Stops s x)
    → (b ≡ false → Stops s y)
    → Stops s (if b then x else y)
Stops-if true s x y hx hy = hx refl
Stops-if false s x y hx hy = hy refl

one_more-Stops :
    (c : ℕ) (s : Text) (r : Scanned) → (c == 0x2f) ≡ false → Stops s r → Stops (c ∷ s) (one_more r)
unfolding one_more
one_more-Stops c s refused h a = tt
one_more-Stops c s (scanned n star) h (a, b, inl e) =
    (omega arith, unfold includes_unit in ground (arith, b), inl e)
one_more-Stops c s (scanned n star) h (a, b, inr e) =
    (omega arith, unfold includes_unit in ground (arith, b), inr e)

scan-Stops :
    (allow : Bool) (last : ℕ) (star : Bool) (s : Text)
    → includes_unit 0 s ≡ false
    → Stops s (scan allow last star s)
unfolding scan includes_unit
scan-Stops allow last star [] z = (omega arith, refl, inl refl)
scan-Stops allow last star (c ∷ s) z =
    Stops-if (disposition c == 1) (c ∷ s) _ _
      (λ e. (omega arith, refl, inr (ap (λ x. x ∷ s) (slash_only e))))
      (λ e.
        Stops-if
          (disposition c == 4
            || (disposition c == 2 && last == 0x2e)
            || (disposition c == 3 && last == 0x40)
            || (disposition c == 5 && not allow))
          (c ∷ s) refused (one_more (scan allow c (star || disposition c == 5) s)) (λ _. tt)
          (λ _. one_more-Stops c s _ (not_slash e) (
            scan-Stops allow c (star || disposition c == 5) s
              (unfold includes_unit in ground arith))))
  where
    slash_only : (disposition c == 1) ≡ true → c ≡ 0x2f
    slash_only e = unfold disposition includes_unit in ground arith

    not_slash : (disposition c == 1) ≡ false → (c == 0x2f) ≡ false
    not_slash e = unfold disposition in ground arith

starts_with-first_is :
    (s : Text) (n : ℕ) → starts_with s (dot ∷ []) ≡ false → first_is dot (take n s) ≡ false
unfolding starts_with first_is
starts_with-first_is s zero h = refl
starts_with-first_is [] (suc n) h = refl
starts_with-first_is (x ∷ s) (suc n) h = ground arith

-- A component that is not empty and does not start with a dot.
undotted_safe : (c : Text) → 0 < length c → first_is dot c ≡ false → is_safe_component c ≡ true
unfolding is_safe_component first_is is_dot_git text_eq
undotted_safe [] p h = absurd (omega arith)
undotted_safe (x ∷ c) p h = ground arith

-- What the front component of a text is, once it is accepted.
abbrev Accepted : Text → Scanned → Type 0
Accepted s refused = Unit
Accepted s (scanned zero star) = Unit
Accepted s (scanned (suc n) star) = StopsAt s (suc n) × (is_safe_component (take (suc n) s) ≡ true)

check_ref_name_component-Accepted :
    (allow : Bool) (s : Text)
    → includes_unit 0 s ≡ false
    → Accepted s (check_ref_name_component allow s)
unfolding check_ref_name_component is_refused_component
check_ref_name_component-Accepted allow s z =
    by_scan (scan allow 0 false s) (scan-Stops allow 0 false s z)
  where
    by_refused :
        (n : ℕ) (star b : Bool)
        → is_refused_component s (suc n) ≡ b
        → StopsAt s (suc n)
        → Accepted s (if b then refused else scanned (suc n) star)
    by_refused n star true e a = tt
    by_refused n star false e a = (
      a,
      undotted_safe (take (suc n) s) (omega (arith, a.0, length-take (suc n) s))
          (starts_with-first_is s (suc n) (ground (arith, e))),
    )

    by_scan :
        (r : Scanned)
        → Stops s r
        → Accepted s (elim r as (λ _. Scanned) [
          | refused ↦ refused
          | scanned n star ↦
              if n == 0
              then scanned 0 star
              else if is_refused_component s n
              then refused
              else scanned n star
        ])
    by_scan refused a = tt
    by_scan (scanned zero star) a = tt
    by_scan (scanned (suc n) star) a =
        let nonzero : (suc n == 0) ≡ false = ground arith in
        rw nonzero (by_refused n star (is_refused_component s (suc n)) refl a)

includes_unit-drop :
    (u n : ℕ) (s : Text) → includes_unit u s ≡ false → includes_unit u (drop n s) ≡ false
unfolding includes_unit
includes_unit-drop u zero s h = h
includes_unit-drop u (suc n) [] h = refl
includes_unit-drop u (suc n) (x ∷ s) h = includes_unit-drop u n s (ground arith)

-- The tests of `verifyPath` on the components and the last unit, on a text that is not empty.
abbrev Passes : Text → Type 0
Passes s =
    (all_components is_safe_component (split 0x2f s) ≡ true)
    × (last_is 0x2f s ≡ false)
    × (0 < length s)

Passes-part :
    (s : Text) → 0 < length s → includes_unit 0x2f s ≡ false → is_safe_component s ≡ true → Passes s
unfolding all_components
Passes-part s p h a =
    (rw (split_part 0x2f s h) (ground (arith, a)), last_is-includes_unit 0x2f s h, p)

Passes-append :
    (part s : Text)
    → includes_unit 0x2f part ≡ false
    → is_safe_component part ≡ true
    → Passes s
    → Passes (part ++ (0x2f ∷ s))
unfolding all_components
Passes-append part s h a (b, c, d) = (
  rw (split-append_part 0x2f part s h) (ground (arith, a, b)),
  last_is-append 0x2f part (0x2f ∷ s) (omega arith) ∙ last_is-append 0x2f (0x2f ∷ []) s d ∙ c,
  omega (arith, length-append part (0x2f ∷ s)),
)

check_components-Passes :
    (fuel : ℕ) (allow : Bool) (s : Text) (k : ℕ)
    → includes_unit 0 s ≡ false
    → check_components fuel allow s ≡ some k
    → Passes s
unfolding check_components
check_components-Passes zero allow s k z h = ground arith
check_components-Passes (suc fuel) allow s k z h =
    by_component (check_ref_name_component allow s) (check_ref_name_component-Accepted allow s z)
      (λ a t. check_components-Passes fuel a t) h
  where
    step : Scanned → Option ℕ
    step r = elim r [
      | refused ↦ none
      | scanned n star ↦ elim n [
        | zero ↦ none
        | suc m ↦
            if leb (length s) (suc m)
            then some 1
            else elim (check_components fuel (allow && not star) (drop (suc (suc m)) s)) [
              | none ↦ none
              | some k ↦ some (suc k)
            ]
      ]
    ]

    by_component :
        (r : Scanned)
        → Accepted s r
        → ((a : Bool) (t : Text) (k : ℕ)
            → includes_unit 0 t ≡ false
            → check_components fuel a t ≡ some k
            → Passes t)
        → step r ≡ some k
        → Passes s
    by_component refused a ih h = ground arith
    by_component (scanned zero star) a ih h = ground arith
    by_component (scanned (suc m) star) ((p, q, inl e), b) ih h =
        subst Passes
          (sym (append-nil (take (suc m) s))
            ∙ ap (λ t. take (suc m) s ++ t) (sym e)
            ∙ take-append-drop (suc m) s)
          (Passes-part (take (suc m) s) (omega (arith, p, length-take (suc m) s)) q b)
    by_component (scanned (suc m) star) ((p, q, inr e), b) ih h =
        subst Passes (ap (λ t. take (suc m) s ++ t) (sym e) ∙ take-append-drop (suc m) s) (
          Passes-append (take (suc m) s) (drop (suc (suc m)) s) q b
            (by_rest (check_components fuel (allow && not star) (drop (suc (suc m)) s)) refl h))
      where
        longer : leb (length s) (suc m) ≡ false
        longer = ground (arith, length-drop (suc m) s, ap length e)

        by_rest :
            (o : Option ℕ)
            → check_components fuel (allow && not star) (drop (suc (suc m)) s) ≡ o
            → (if leb (length s) (suc m)
                then some 1
                else elim o as (λ _. Option ℕ) [ none ↦ none | some j ↦ some (suc j) ])
              ≡ some k
            → Passes (drop (suc (suc m)) s)
        by_rest none c t = ground (arith, longer, t)
        by_rest (some j) c t =
            ih (allow && not star) (drop (suc (suc m)) s) j (includes_unit-drop 0 (suc (suc m)) s z)
              c

first_is-split :
    (s : Text) → all_components is_safe_component (split 0x2f s) ≡ true → first_is 0x2f s ≡ false
unfolding first_is split all_components is_safe_component
first_is-split [] h = refl
first_is-split (x ∷ s) h = ground arith

-- A name that checkRefFormat accepts, under any flags, and that holds no NUL is accepted by
-- verifyPath.
pub check_ref_format-verify_path :
    (refname : Text) (allow_onelevel refspec_pattern : Bool)
    → includes_unit 0 refname ≡ false
    → check_ref_format refname allow_onelevel refspec_pattern ≡ true
    → verify_path refname ≡ true
unfolding check_ref_format verify_path
check_ref_format-verify_path refname one pattern z h = ground (
  arith,
  by_count (check_components (length refname) pattern refname) refl,
  first_is-split refname,
)
  where
    by_count :
        (o : Option ℕ)
        → check_components (length refname) pattern refname ≡ o
        → Passes refname ⊎ (o ≡ none)
    by_count none e = inr refl
    by_count (some k) e = inl (check_components-Passes (length refname) pattern refname k z e)
