-- ===== src/Refspec/ReadBack.antt =====
-- Proofs about the parser of src/lib/transport/refspec.ts.
use just_git.Base.{
  index_of-append, suc, ◌≡◌, refl, Bool, true, false, [], ◌∷◌, ◌++◌, Text, includes_unit, length,
  drop, take_append, if◌then◌else◌,
}
use just_git.PathSafety.{first_is}
use just_git.Refspec.{colon, plus, Refspec, split_spec, parse_refspec}

split_spec-append :
    (force : Bool) (src dst : Text)
    → includes_unit colon src ≡ false
    → split_spec force (src ++ (colon ∷ dst)) ≡ record { force = force; src = src; dst = dst }
unfolding split_spec
split_spec-append force src dst h = rw (
  index_of-append colon src dst h,
  split_spec,
  take_append src (colon ∷ dst) (length src) refl,
  behind src,
)
  where
    behind : (a : Text) → drop (suc (length a)) (a ++ (colon ∷ dst)) ≡ dst
    behind [] = refl
    behind (x ∷ a) = behind a

-- The text of a refspec.
abbrev pub printed : Refspec → Text
printed spec =
    if spec.force then plus ∷ (spec.src ++ (colon ∷ spec.dst)) else spec.src ++ (colon ∷ spec.dst)

-- A refspec whose source holds no colon and does not start with a plus sign is parsed from its
-- text as it was.
pub parse_refspec-printed :
    (spec : Refspec)
    → includes_unit colon spec.src ≡ false
    → first_is plus spec.src ≡ false
    → parse_refspec (printed spec) ≡ spec
unfolding parse_refspec first_is
parse_refspec-printed spec h f =
    by_force spec.force spec.src f (split_spec-append spec.force spec.src spec.dst h)
  where
    by_force :
        (force : Bool) (src : Text)
        → first_is plus src ≡ false
        → split_spec force (src ++ (colon ∷ spec.dst))
          ≡ record { force = force; src = src; dst = spec.dst }
        → parse_refspec
            (if force then plus ∷ (src ++ (colon ∷ spec.dst)) else src ++ (colon ∷ spec.dst))
          ≡ record { force = force; src = src; dst = spec.dst }
    by_force true src f e = e
    by_force false [] f e = e
    by_force false (c ∷ src) f e = rw f e
