-- ===== src/RefFormat/Fuel.antt =====
-- Proofs about the fuel of the loop on the components of a ref name (src/lib/refs.ts).
use just_git.Base.{
  ℕ, zero, suc, ◌≤◌, ◌≡◌, refl, ap, sym, ◌∙◌, Bool, not, ◌&&◌, Option, none, some, [], ◌∷◌, arith,
  Text, length, length-drop, drop, leb, if◌then◌else◌,
}
use just_git.RefFormat.{Scanned, refused, scanned, scan, check_ref_name_component, check_components}

check_components-nil : (fuel : ℕ) (allow : Bool) → check_components fuel allow [] ≡ none
unfolding check_components check_ref_name_component scan
check_components-nil zero allow = refl
check_components-nil (suc fuel) allow = refl

-- Any fuel from the length of the name on gives the same result.
pub check_components_fuel :
    (f g : ℕ) (allow : Bool) (s : Text)
    → length s ≤ f
    → length s ≤ g
    → check_components f allow s ≡ check_components g allow s
unfolding check_components
check_components_fuel f g allow [] p q =
    check_components-nil f allow ∙ sym (check_components-nil g allow)
check_components_fuel zero g allow (c ∷ s) p q = absurd (omega arith)
check_components_fuel (suc f) zero allow (c ∷ s) p q = absurd (omega arith)
check_components_fuel (suc f) (suc g) allow (c ∷ s) p q =
    by_component (check_ref_name_component allow (c ∷ s)) (λ a t. check_components_fuel f g a t)
  where
    step : ℕ → Scanned → Option ℕ
    step fuel r = elim r [
      | refused ↦ none
      | scanned n star ↦ elim n [
        | zero ↦ none
        | suc m ↦
            if leb (length (c ∷ s)) (suc m)
            then some 1
            else elim (check_components fuel (allow && not star) (drop (suc (suc m)) (c ∷ s))) [
              | none ↦ none
              | some k ↦ some (suc k)
            ]
      ]
    ]

    after : Option ℕ → Option ℕ
    after o = elim o [ none ↦ none | some k ↦ some (suc k) ]

    by_component :
        (r : Scanned)
        → ((a : Bool) (t : Text)
            → length t ≤ f
            → length t ≤ g
            → check_components f a t ≡ check_components g a t)
        → step f r ≡ step g r
    by_component refused ih = refl
    by_component (scanned zero star) ih = refl
    by_component (scanned (suc m) star) ih =
        ap (λ o. if leb (length (c ∷ s)) (suc m) then some 1 else after o)
          (ih (allow && not star) (drop (suc (suc m)) (c ∷ s))
            (omega (arith, length-drop (suc (suc m)) (c ∷ s)))
            (omega (arith, length-drop (suc (suc m)) (c ∷ s))))
