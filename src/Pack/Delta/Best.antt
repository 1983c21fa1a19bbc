-- ===== src/Pack/Delta/Best.antt =====
-- The search for the best base in `findBestDeltas` of src/lib/pack/delta.ts.
use just_git.Base.{
  ℕ, zero, suc, ◌+◌, ◌-◌, ◌/◌, ◌^◌, ◌≤◌, ◌<◌, ◌≡◌, refl, sym, ◌∙◌, true, false, Option, none, some,
  List, [], ◌∷◌, length, get_elem?, ltb, leb, ◌==◌, if◌then◌else◌, text_eq, text_eq_iff, All, arith,
  Bool-cases, Option-cases, inl, inr, subst,
}
use just_git.Pack.Sizes.{Bytes}
use just_git.Pack.Delta.Apply.{ok, apply_delta}
use just_git.Pack.Delta.Match.{DeltaIndex}
use just_git.Pack.Delta.Create.{Created, null, delta, stuck, create_delta}
use just_git.Pack.Delta.Correct.{Rebuilds, create_delta-apply_delta}
use just_git.Pack.Delta.Index.{create_delta_index}
use just_git.Pack.Delta.Search.{
  DeltaObject, ResultMap, depth_of, Best, better, size_limit, try_candidate, index_at, search_bases,
}

create_delta_index-src :
    (src : Bytes) (index : DeltaIndex) → create_delta_index src ≡ some index → index.src ≡ src
unfolding create_delta_index
create_delta_index-src src index h = elim (Bool-cases ((length src - 1) / 16 == 0)) [
  | inl k ↦ cc (◌∙◌ (sym (only_none k)) h)
  | inr k ↦ sym (cc (rw k at h))
]
  where
    only_none : ((length src - 1) / 16 == 0) ≡ true → create_delta_index src ≡ none
    only_none k = rw k

pub All-get_elem? {ℓ κ} :
    {A : Type ℓ} (P : A → Type κ) (xs : List A) (n : ℕ) (x : A)
    → All P xs
    → get_elem? xs n ≡ some x
    → P x
All-get_elem? P [] n x a h = cc
All-get_elem? P (y ∷ xs) zero x a h = subst P (cc h) a.0
All-get_elem? P (y ∷ xs) (suc n) x a h = All-get_elem? P xs n x a.1 h

create_delta-some :
    (index : DeltaIndex) (target bytes : Bytes) (max_size : Option ℕ)
    → length index.src < 2 ^ 31
    → length target < 2 ^ 31
    → create_delta (some index) target max_size ≡ delta bytes
    → apply_delta index.src bytes ≡ ok target
unfolding create_delta
create_delta-some index [] bytes max_size l m h = cc
create_delta-some index (b ∷ target) bytes max_size l m h =
    subst (Rebuilds index.src (b ∷ target) max_size) h
      (create_delta-apply_delta index (b ∷ target) max_size l m (omega arith))

pub not_le : (a b : ℕ) → leb a b ≡ false → b < a
not_le a b h = ground arith

-- Each place of the window has the index of its object.
abbrev pub IsWindow : List DeltaObject → ℕ → ℕ → List (Option DeltaIndex) → Type 0
IsWindow sorted first count indices =
    (n : ℕ) (c : DeltaObject)
    → n < count
    → get_elem? sorted (first + n) ≡ some c
    → index_at indices n ≡ create_delta_index c.content

-- What the best delta stands for, before the object at i.
module _ (max_depth : ℕ) (sorted : List DeltaObject) (results : ResultMap) where
  abbrev pub IsBest : ℕ → DeltaObject → Best → Type 0
  IsBest i obj none = Unit
  IsBest i obj (some (bytes, base)) =
      (k : ℕ) × (c : DeltaObject) × (k < i)
      × (get_elem? sorted k ≡ some c)
      × (c.hash ≡ base)
      × (c.kind ≡ obj.kind)
      × (apply_delta c.content bytes ≡ ok obj.content)
      × (depth_of results base < max_depth)

  better-IsBest :
      (i k : ℕ) (obj candidate : DeltaObject) (index : DeltaIndex) (max_size : ℕ) (best : Best)
      → k < i
      → get_elem? sorted k ≡ some candidate
      → text_eq candidate.kind obj.kind ≡ true
      → depth_of results candidate.hash < max_depth
      → index.src ≡ candidate.content
      → length candidate.content < 2 ^ 31
      → length obj.content < 2 ^ 31
      → IsBest i obj best
      → IsBest i obj (better obj candidate index max_size best)
  unfolding better
  better-IsBest i k obj candidate index max_size best lt at same deep src l m b =
      elim (Bool-cases (ltb max_size 16)) [
        | inl s ↦ rw s b
        | inr s ↦
            rw s (by_created (create_delta (some index) obj.content (some max_size)) refl best b)
      ]
    where
      found :
          (bytes : Bytes)
          → create_delta (some index) obj.content (some max_size) ≡ delta bytes
          → IsBest i obj (some (bytes, candidate.hash))
      found bytes e = (
        k,
        candidate,
        lt,
        at,
        refl,
        (text_eq_iff candidate.kind obj.kind).0 same,
        rw (← src) (create_delta-some index obj.content bytes (some max_size) (rw src l) m e),
        deep,
      )

      by_created :
          (r : Created)
          → create_delta (some index) obj.content (some max_size) ≡ r
          → (best : Best) → IsBest i obj best
          → IsBest i obj (elim r as (λ _. Best) [
            | null ↦ best
            | stuck ↦ best
            | delta bytes ↦ elim best as (λ _. Best) [
              | none ↦ some (bytes, candidate.hash)
              | some (old, base) ↦
                  if ltb (length bytes) (length old)
                  then some (bytes, candidate.hash)
                  else some (old, base)
            ]
          ])
      by_created null e best b = b
      by_created stuck e best b = b
      by_created (delta bytes) e none b = found bytes e
      by_created (delta bytes) e (some (old, base)) b =
          elim (Bool-cases (ltb (length bytes) (length old))) [
            | inl s ↦ rw s (found bytes e)
            | inr s ↦ rw s b
          ]

  try_candidate-IsBest :
      (i k : ℕ) (obj candidate : DeltaObject) (slot : Option DeltaIndex) (best : Best)
      → k < i
      → get_elem? sorted k ≡ some candidate
      → slot ≡ create_delta_index candidate.content
      → length candidate.content < 2 ^ 31
      → length obj.content < 2 ^ 31
      → IsBest i obj best
      → IsBest i obj (try_candidate results max_depth obj candidate slot best)
  unfolding try_candidate
  try_candidate-IsBest i k obj candidate none best lt at e l m b = b
  try_candidate-IsBest i k obj candidate (some index) best lt at e l m b =
      elim (Bool-cases (text_eq candidate.kind obj.kind)) [
        | inr s ↦ rw s b
        | inl s ↦ rw s (elim (Bool-cases (leb max_depth (depth_of results candidate.hash))) [
          | inl d ↦ rw d b
          | inr d ↦
              rw d (elim (Bool-cases (ltb (length obj.content) (length candidate.content / 32))) [
                | inl z ↦ rw z b
                | inr z ↦ rw z (
                    better-IsBest i k obj candidate index (size_limit obj best) best lt at s
                      (not_le max_depth (depth_of results candidate.hash) d)
                      (create_delta_index-src candidate.content index (sym e)) l m b)
              ])
        ])
      ]

  pub search_bases-IsBest :
      (n i first : ℕ) (indices : List (Option DeltaIndex)) (obj : DeltaObject) (best : Best)
      → first + n ≤ i
      → IsWindow sorted first n indices
      → All (λ (o : DeltaObject). length o.content < 2 ^ 31) sorted
      → length obj.content < 2 ^ 31
      → IsBest i obj best
      → IsBest i obj (search_bases n first sorted results indices max_depth obj best)
  unfolding search_bases
  search_bases-IsBest zero i first indices obj best h w small m b = b
  search_bases-IsBest (suc n) i first indices obj best h w small m b =
      search_bases-IsBest n i first indices obj _ (omega arith)
        (λ j c lt at. w j c (omega arith) at) small m
        (elim (Option-cases (get_elem? sorted (first + n))) [
          | inl none_there ↦ rw none_there b
          | inr there ↦ rw there.1 (
              try_candidate-IsBest i (first + n) obj there.0 (index_at indices n) best (omega arith)
                there.1 (w n there.0 (omega arith) there.1)
                (All-get_elem? (λ (o : DeltaObject). length o.content < 2 ^ 31) sorted (first + n)
                  there.0 small there.1)
                m b)
        ])
