-- ===== src/Path/Normal.antt =====
-- Proofs about `normalize` of src/lib/path.ts on absolute paths.
use just_git.Base.{
  ℕ, suc, ◌≡◌, ◌≢◌, refl, sym, ap, ◌∙◌, inl, inr, Bool, true, false, ◌||◌, List, [], ◌∷◌, ◌++◌,
  append-nil, append_assoc, arith, Text, codes, text_eq, split, join_with, IsPart, split-IsPart,
  split-join_with, split-append_sep, length, All, All-append, ltb, Bool-cases, includes_unit,
}
use just_git.PathSafety.{first_is, last_is}
use just_git.Path.{slash, pop, push_segment, push_segments, normalize}

-- A component that `normalize` keeps as it is: no slash, and none of "", "." and "..".
pub record IsPlain (c : Text) : Type 0 where
  pub part : IsPart slash c
  pub not_empty : text_eq c (codes "") ≡ false
  pub not_dot : text_eq c (codes ".") ≡ false
  pub not_up : text_eq c (codes "..") ≡ false

-- "/" followed by the components.
unfoldable pub rooted : List Text → Text
rooted cs = slash ∷ join_with slash cs

pub push_segments-append :
    (b : Bool) (acc xs ys : List Text)
    → push_segments b acc (xs ++ ys) ≡ push_segments b (push_segments b acc xs) ys
unfolding push_segments
push_segments-append b acc [] ys = refl
push_segments-append b acc (x ∷ xs) ys = push_segments-append b (push_segment b acc x) xs ys

push_segment_plain :
    (b : Bool) (acc : List Text) (c : Text) → IsPlain c → push_segment b acc c ≡ acc ++ (c ∷ [])
unfolding push_segment
push_segment_plain b acc c h = ground arith

pub push_segments_plain :
    (b : Bool) (acc cs : List Text) → All IsPlain cs → push_segments b acc cs ≡ acc ++ cs
unfolding push_segments
push_segments_plain b acc [] h = sym (append-nil acc)
push_segments_plain b acc (c ∷ cs) h =
    rw (push_segment_plain b acc c h.0)
      (push_segments_plain b (acc ++ (c ∷ [])) cs h.1 ∙ append_assoc acc (c ∷ []) cs)

All-pop : (acc : List Text) → All IsPlain acc → All IsPlain (pop acc)
unfolding pop
All-pop [] h = tt
All-pop (x ∷ []) h = tt
All-pop (x ∷ y ∷ xs) h = (h.0, All-pop (y ∷ xs) h.1)

IsPlain_lem :
    (c : Text)
    → IsPart slash c
    → (text_eq c (codes "") || text_eq c (codes ".")) ≡ false
    → text_eq c (codes "..") ≡ false
    → IsPlain c
IsPlain_lem c p e u = record {
  part = p;
  not_empty = ground arith;
  not_dot = ground arith;
  not_up = u;
}

push_segment-IsPlain :
    (acc : List Text) (c : Text)
    → IsPart slash c
    → All IsPlain acc
    → All IsPlain (push_segment true acc c)
unfolding push_segment
push_segment-IsPlain acc c p h = elim (Bool-cases (text_eq c (codes "") || text_eq c (codes "."))) [
  | inl e ↦ rw e h
  | inr e ↦ elim (Bool-cases (text_eq c (codes ".."))) [
    | inl u ↦ rw (e, u) (All-pop acc h)
    | inr u ↦ rw (e, u) (All-append IsPlain acc (c ∷ []) h (IsPlain_lem c p e u, tt))
  ]
]

pub push_segments-IsPlain :
    (acc cs : List Text)
    → All (IsPart slash) cs
    → All IsPlain acc
    → All IsPlain (push_segments true acc cs)
unfolding push_segments
push_segments-IsPlain acc [] p h = h
push_segments-IsPlain acc (c ∷ cs) p h =
    push_segments-IsPlain (push_segment true acc c) cs p.1 (push_segment-IsPlain acc c p.0 h)

All-IsPart : (cs : List Text) → All IsPlain cs → All (IsPart slash) cs
All-IsPart [] h = tt
All-IsPart (c ∷ cs) h = (h.0.part, All-IsPart cs h.1)

-- The segments of a rooted path bring back its components.
pub push_segments-rooted :
    (cs : List Text) → All IsPlain cs → push_segments true [] (split slash (rooted cs)) ≡ cs
push_segments-rooted [] h = unfold rooted push_segments push_segment split join_with text_eq in refl
push_segments-rooted (c ∷ cs) h =
    rooted_segments (c ∷ cs)
    ∙ ap (push_segments true []) (split-join_with slash c cs (All-IsPart (c ∷ cs) h))
    ∙ push_segments_plain true [] (c ∷ cs) h
  where
    rooted_segments :
        (ds : List Text)
        → push_segments true [] (split slash (rooted ds))
          ≡ push_segments true [] (split slash (join_with slash ds))
    rooted_segments ds = unfold rooted push_segments push_segment split text_eq in refl

last_is-part : (c : Text) → IsPart slash c → last_is slash c ≡ false
unfolding last_is includes_unit
last_is-part [] h = refl
last_is-part (x ∷ []) h = ground arith
last_is-part (x ∷ y ∷ s) h = last_is-part (y ∷ s) (ground arith)

pub last_is-append : (a b : Text) → b ≢ [] → last_is slash (a ++ b) ≡ last_is slash b
unfolding last_is
last_is-append [] b h = refl
last_is-append (x ∷ []) [] h = absurd (h refl)
last_is-append (x ∷ []) (y ∷ b) h = refl
last_is-append (x ∷ y ∷ a) b h = last_is-append (y ∷ a) b h

pub join_with-ne-nil : (c : Text) (cs : List Text) → IsPlain c → join_with slash (c ∷ cs) ≢ []
unfolding join_with text_eq
join_with-ne-nil [] [] h e = ground (arith, h.not_empty)
join_with-ne-nil (x ∷ c) [] h e = cc
join_with-ne-nil [] (d ∷ cs) h e = cc
join_with-ne-nil (x ∷ c) (d ∷ cs) h e = cc

-- Joined plain components do not end in a slash.
pub last_is-join_with :
    (c : Text) (cs : List Text)
    → All IsPlain (c ∷ cs)
    → last_is slash (join_with slash (c ∷ cs)) ≡ false
unfolding join_with
last_is-join_with c [] h = last_is-part c h.0.part
last_is-join_with c (d ∷ cs) h =
    last_is-append c (slash ∷ join_with slash (d ∷ cs)) (λ e. cc)
    ∙ last_is-append (slash ∷ []) (join_with slash (d ∷ cs)) (join_with-ne-nil d cs h.1.0)
    ∙ last_is-join_with d cs h.1

last_is-rooted :
    (c : Text) (cs : List Text) → All IsPlain (c ∷ cs) → last_is slash (rooted (c ∷ cs)) ≡ false
unfolding rooted
last_is-rooted c cs h =
    last_is-append (slash ∷ []) _ (join_with-ne-nil c cs h.0) ∙ last_is-join_with c cs h

-- `normalize` has cases of their own for "" and "/".
text_eq-slash : (x : ℕ) (s : Text) → text_eq (slash ∷ x ∷ s) (codes "/") ≡ false
unfolding text_eq
text_eq-slash x s = refl

text_eq_empty : (x : ℕ) (s : Text) → text_eq (x ∷ s) (codes "") ≡ false
unfolding text_eq
text_eq_empty x s = refl

first_is-slash : (s : Text) → first_is slash (slash ∷ s) ≡ true
unfolding first_is
first_is-slash s = refl

ruleset absolute_tests = (text_eq-slash, text_eq_empty, first_is-slash)

-- An absolute path whose segments come to `cs`, and which does not end in a slash.
pub normalize_absolute :
    (s : Text) (cs : List Text)
    → s ≢ []
    → push_segments true [] (split slash (slash ∷ s)) ≡ cs
    → last_is slash (slash ∷ s) ≡ false
    → normalize (slash ∷ s) ≡ rooted cs
unfolding rooted
normalize_absolute [] cs n e l = absurd (n refl)
normalize_absolute (x ∷ s) cs n e l = unfold normalize in simp (absolute_tests, e, l)

length_pos : (s : Text) → s ≢ [] → ltb 1 (suc (length s)) ≡ true
length_pos [] n = absurd (n refl)
length_pos (x ∷ s) n = ground arith

-- The same for a path that ends in a slash.
normalize_trailing :
    (s : Text) (c : Text) (cs : List Text)
    → s ≢ []
    → push_segments true [] (split slash (slash ∷ s)) ≡ c ∷ cs
    → last_is slash (slash ∷ s) ≡ true
    → All IsPlain (c ∷ cs)
    → normalize (slash ∷ s) ≡ rooted (c ∷ cs) ++ (slash ∷ [])
unfolding rooted
normalize_trailing [] c cs n e l h = absurd (n refl)
normalize_trailing (x ∷ s) c cs n e l h =
    unfold normalize in
    simp (absolute_tests, e, l)
      (ground (
        arith,
        last_is-rooted c cs h,
        length_pos (join_with slash (c ∷ cs)) (join_with-ne-nil c cs h.0),
      ))

normalize_trailing_root :
    (s : Text)
    → s ≢ []
    → push_segments true [] (split slash (slash ∷ s)) ≡ []
    → last_is slash (slash ∷ s) ≡ true
    → normalize (slash ∷ s) ≡ rooted []
unfolding rooted join_with
normalize_trailing_root [] n e l = absurd (n refl)
normalize_trailing_root (x ∷ s) n e l = unfold normalize in simp (absolute_tests, e, l)

-- The form of a normalized absolute path.
pub data IsNormal : Text → Type 0 where
  bare : (cs : List Text) → All IsPlain cs → IsNormal (rooted cs)
  slashed :
      (c : Text) (cs : List Text)
      → All IsPlain (c ∷ cs)
      → IsNormal (rooted (c ∷ cs) ++ (slash ∷ []))

normalize_by_segments :
    (s : Text)
    → s ≢ []
    → (cs : List Text) → push_segments true [] (split slash (slash ∷ s)) ≡ cs
    → All IsPlain cs
    → IsNormal (normalize (slash ∷ s))
normalize_by_segments s n cs e a = elim (Bool-cases (last_is slash (slash ∷ s))) [
  | inr l ↦ rw (normalize_absolute s cs n e l) (bare cs a)
  | inl l ↦ trailing cs e a l
]
  where
    trailing :
        (ds : List Text)
        → push_segments true [] (split slash (slash ∷ s)) ≡ ds
        → All IsPlain ds
        → last_is slash (slash ∷ s) ≡ true
        → IsNormal (normalize (slash ∷ s))
    trailing [] e a l = rw (normalize_trailing_root s n e l) (bare [] a)
    trailing (d ∷ ds) e a l = rw (normalize_trailing s d ds n e l a) (slashed d ds a)

normalize_root : normalize (slash ∷ []) ≡ rooted []
unfolding normalize text_eq rooted join_with
normalize_root = refl

-- Normalizing any absolute path gives the root, plain components (none empty, dot or dot-dot,
-- none with a slash) and at most one final slash.
pub normalize-IsNormal : (s : Text) → IsNormal (normalize (slash ∷ s))
normalize-IsNormal [] = rw normalize_root (bare [] tt)
normalize-IsNormal (x ∷ s) =
    normalize_by_segments (x ∷ s) (λ e. cc) _ refl
      (push_segments-IsPlain [] _ (split-IsPart slash (slash ∷ x ∷ s)) tt)

append-ne-nil : (s : Text) → (s ++ (slash ∷ [])) ≢ []
append-ne-nil [] e = cc
append-ne-nil (x ∷ s) e = cc

rooted_trailing :
    (c : Text) (cs : List Text)
    → All IsPlain (c ∷ cs)
    → push_segments true [] (split slash (rooted (c ∷ cs) ++ (slash ∷ []))) ≡ c ∷ cs
rooted_trailing c cs a =
    ap (push_segments true []) (split-append_sep slash (rooted (c ∷ cs)) [])
    ∙ push_segments-append true [] (split slash (rooted (c ∷ cs))) (split slash [])
    ∙ ap (λ l. push_segments true l (split slash [])) (push_segments-rooted (c ∷ cs) a)
    ∙ (unfold split push_segments push_segment text_eq in refl)

normalize_normal : {p : Text} → IsNormal p → normalize p ≡ p
unfolding rooted last_is
normalize_normal (bare [] a) = unfold join_with normalize text_eq in refl
normalize_normal (bare (c ∷ cs) a) =
    normalize_absolute _ (c ∷ cs) (join_with-ne-nil c cs a.0) (push_segments-rooted (c ∷ cs) a)
      (last_is-rooted c cs a)
normalize_normal (slashed c cs a) =
    normalize_trailing (join_with slash (c ∷ cs) ++ (slash ∷ [])) c cs
      (append-ne-nil (join_with slash (c ∷ cs))) (rooted_trailing c cs a)
      (last_is-append (rooted (c ∷ cs)) (slash ∷ []) (λ e. cc)) a

-- Normalizing an absolute path twice gives what normalizing it once gives.
pub normalize-normalize : (s : Text) → normalize (normalize (slash ∷ s)) ≡ normalize (slash ∷ s)
normalize-normalize s = normalize_normal (normalize-IsNormal s)
