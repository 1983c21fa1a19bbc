-- ===== src/Base/Maps.antt =====
-- JavaScript's `Map` and `Set` with string keys: an association list in the order of insertion. A
-- write to a key that is there keeps its place.
use mathlib.Core.Path.{◌≡◌, refl, subst, sym}
use mathlib.Core.Bool.{Bool, false, ◌||◌}
use mathlib.Core.List.{List, [], ◌∷◌, ◌++◌}
use mathlib.Core.Option.{Option, none, some}
use native.Mathlib.Omega.{arith}
use mathlib.Core.Logic.{inl, inr}
use just_git.Base.Lists.{All}
use just_git.Base.Tests.{Bool-cases, if◌then◌else◌, is_some}
use just_git.Base.Strings.{Text, text_eq, text_eq_iff, text_eq→eq}

abbrev pub JsMap {ℓ} : Type ℓ → Type ℓ
JsMap V = List (Text × V)

module _ {ℓ} {V : Type ℓ} where
  -- m.get(k)
  unfoldable pub map_get : JsMap V → Text → Option V
  map_get [] k = none
  map_get ((j, v) ∷ m) k = if text_eq j k then some v else map_get m k

  -- m.has(k)
  unfoldable pub map_has : JsMap V → Text → Bool
  unfolding map_get
  map_has m k = is_some (map_get m k)

  -- m.set(k, v)
  unfoldable pub map_set : JsMap V → Text → V → JsMap V
  map_set [] k v = (k, v) ∷ []
  map_set ((j, w) ∷ m) k v = if text_eq j k then (j, v) ∷ m else (j, w) ∷ map_set m k v

  -- m.delete(k), without its result
  unfoldable pub map_delete : JsMap V → Text → JsMap V
  map_delete [] k = []
  map_delete ((j, w) ∷ m) k =
      let rest = map_delete m k in if text_eq j k then rest else (j, w) ∷ rest

module _ {ℓ} {V : Type ℓ} where
  pub map_get-map_set :
      (m : JsMap V) (k j : Text) (v : V)
      → map_get (map_set m k v) j ≡ (if text_eq k j then some v else map_get m j)
  unfolding map_get map_set
  map_get-map_set [] k j v = refl
  map_get-map_set ((i, w) ∷ m) k j v =
      ground (arith, text_eq_iff k j, text_eq_iff i k, text_eq_iff i j, map_get-map_set m k j v)

  pub map_get-map_delete :
      (m : JsMap V) (k j : Text)
      → map_get (map_delete m k) j ≡ (if text_eq k j then none else map_get m j)
  unfolding map_get map_delete
  map_get-map_delete [] k j = ground arith
  map_get-map_delete ((i, w) ∷ m) k j =
      ground (arith, text_eq_iff k j, text_eq_iff i k, text_eq_iff i j, map_get-map_delete m k j)

-- `set.has(k)` on a list of keys, and `set.add(k)`.
unfoldable pub set_has : List Text → Text → Bool
set_has [] k = false
set_has (j ∷ s) k = text_eq j k || set_has s k

unfoldable pub set_add : List Text → Text → List Text
unfolding set_has
set_add s k = if set_has s k then s else s ++ (k ∷ [])

-- No key of the map is `k`; no key stands twice.
abbrev pub IsFresh {ℓ} : {V : Type ℓ} → Text → JsMap V → Type 0
IsFresh k [] = Unit
IsFresh k ((j, v) ∷ m) = (text_eq k j ≡ false) × IsFresh k m

abbrev pub IsDistinct {ℓ} : {V : Type ℓ} → JsMap V → Type 0
IsDistinct [] = Unit
IsDistinct ((k, v) ∷ m) = IsFresh k m × IsDistinct m

module _ {ℓ} {V : Type ℓ} where
  IsFresh-map_set :
      (m : JsMap V) (i k : Text) (v : V)
      → text_eq i k ≡ false
      → IsFresh i m
      → IsFresh i (map_set m k v)
  unfolding map_set
  IsFresh-map_set [] i k v h f = (h, tt)
  IsFresh-map_set ((j, w) ∷ m) i k v h f = elim (Bool-cases (text_eq j k)) [
    | inl e ↦ rw e f
    | inr e ↦ rw e (f.0, IsFresh-map_set m i k v h f.1)
  ]

  pub IsDistinct-map_set :
      (m : JsMap V) (k : Text) (v : V) → IsDistinct m → IsDistinct (map_set m k v)
  unfolding map_set
  IsDistinct-map_set [] k v d = (tt, tt)
  IsDistinct-map_set ((j, w) ∷ m) k v d = elim (Bool-cases (text_eq j k)) [
    | inl e ↦ rw e d
    | inr e ↦ rw e (IsFresh-map_set m j k v e d.0, IsDistinct-map_set m k v d.1)
  ]

-- What holds of the entries after a write: `Q` of the written one, and of each other that had `P`.
module _ {ℓ κ} {V : Type ℓ} (P Q : Text × V → Type κ) (k : Text) (v : V) (written : Q (k, v))
    (kept : (j : Text) (w : V) → text_eq j k ≡ false → P (j, w) → Q (j, w)) where
  All-kept : (m : JsMap V) → IsFresh k m → All P m → All Q m
  All-kept [] f a = tt
  All-kept ((j, w) ∷ m) f a =
      (kept j w (ground (arith, text_eq_iff j k, text_eq_iff k j)) a.0, All-kept m f.1 a.1)

  pub All-map_set : (m : JsMap V) → IsDistinct m → All P m → All Q (map_set m k v)
  unfolding map_set
  All-map_set [] d a = (written, tt)
  All-map_set ((j, w) ∷ m) d a = elim (Bool-cases (text_eq j k)) [
    | inl e ↦ rw e (
      subst (λ i. Q (i, v)) (sym (text_eq→eq j k e)) written,
      All-kept m (subst (λ i. IsFresh i m) (text_eq→eq j k e) d.0) a.1,
    )
    | inr e ↦ rw e (kept j w e a.0, All-map_set m d.1 a.1)
  ]
