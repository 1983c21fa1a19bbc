-- ===== src/Pack/Delta/Based.antt =====
-- Proofs about `findBestDeltas` of src/lib/pack/delta.ts: the window of indices follows the objects, and the
-- base of a delta is an object before it.
use just_git.Base.{
  ℕ, ◌+◌, ◌-◌, ◌^◌, ◌≤◌, ◌<◌, ◌≡◌, refl, min, Option, none, some, List, [], ◌∷◌, length, drop,
  get_elem?, Text, text_eq, map_set, All, arith, Bool-cases, inl, inr, sort_by, All-sort_by,
}
use just_git.Pack.Sizes.{Bytes}
use just_git.Pack.Delta.Apply.{ok, apply_delta}
use just_git.Pack.Delta.Match.{DeltaIndex}
use just_git.Pack.Delta.Index.{create_delta_index}
use just_git.Pack.Delta.Search.{
  DeltaObject, DeltaResult, object_before, ResultMap, Best, search_bases, plain_result, result_of,
  slide, best_deltas, find_best_deltas,
}
use just_git.Pack.Delta.Best.{All-get_elem?, IsWindow, IsBest, search_bases-IsBest}
use just_git.Pack.Delta.Window.{length-slide, drop_head, drop_tail, slide-IsWindow}

-- A statement of each result, by its place.
abbrev pub AllFrom : (ℕ → DeltaResult → Type 0) → ℕ → List DeltaResult → Type 0
AllFrom P i [] = Unit
AllFrom P i (r ∷ rs) = P i r × AllFrom P (i + 1) rs

-- The base is an object before, of the same type, whose content the delta turns into the object's.
abbrev pub HasBase : List DeltaObject → ℕ → DeltaResult → Option Text → Option Bytes → Type 0
HasBase sorted i r none none = r.depth ≡ 0
HasBase sorted i r none (some bytes) = ⊥
HasBase sorted i r (some base) none = ⊥
HasBase sorted i r (some base) (some bytes) =
    (k : ℕ) × (c : DeltaObject) × (k < i)
    × (get_elem? sorted k ≡ some c)
    × (c.hash ≡ base)
    × (c.kind ≡ r.kind)
    × (apply_delta c.content bytes ≡ ok r.content)

abbrev pub IsBased : ℕ → List DeltaObject → ℕ → DeltaResult → Type 0
IsBased max_depth sorted i r =
    (o : DeltaObject) × (get_elem? sorted i ≡ some o)
    × (r.hash ≡ o.hash)
    × (r.kind ≡ o.kind)
    × (r.content ≡ o.content)
    × (r.depth ≤ max_depth)
    × HasBase sorted i r r.delta_base r.delta_bytes

result_of-IsBased :
    (max_depth i : ℕ) (sorted : List DeltaObject) (results : ResultMap) (obj : DeltaObject)
    (best : Best)
    → get_elem? sorted i ≡ some obj
    → IsBest max_depth sorted results i obj best
    → IsBased max_depth sorted i (result_of results obj best)
unfolding result_of plain_result
result_of-IsBased max_depth i sorted results obj none at b =
    (obj, at, refl, refl, refl, omega arith, refl)
result_of-IsBased max_depth i sorted results obj (some (bytes, base)) at b =
    elim (Bool-cases (text_eq base [])) [
      | inl e ↦ rw e (obj, at, refl, refl, refl, omega arith, refl)
      | inr e ↦
          rw e (obj, at, refl, refl, refl, omega (arith, b.7), (b.0, b.1, b.2, b.3, b.4, b.5, b.6))
    ]

module _ (window max_depth : ℕ) (sorted : List DeltaObject) where
  best_deltas-IsBased :
      (i : ℕ) (rest : List DeltaObject) (results : ResultMap) (indices : List (Option DeltaIndex))
      → drop i sorted ≡ rest
      → (0 < window → length indices ≡ min i window)
      → IsWindow sorted (i - window) (i - (i - window)) indices
      → All (λ (o : DeltaObject). length o.content < 2 ^ 31) sorted
      → AllFrom
          (IsBased max_depth sorted)
          i
          (best_deltas window max_depth sorted i rest results indices)
  unfolding best_deltas
  best_deltas-IsBased i [] results indices d len w small = tt
  best_deltas-IsBased i (obj ∷ rest) results indices d len w small =
      let first = i - window in
      let best = search_bases (i - first) first sorted results indices max_depth obj none in
      let here : get_elem? sorted i ≡ some obj = drop_head i sorted obj rest d in
      let next : drop (i + 1) sorted ≡ rest = drop_tail i sorted obj rest d in
      (
        result_of-IsBased max_depth i sorted results obj best here (
            search_bases-IsBest max_depth sorted results (i - first) i first indices obj none
              (omega arith) w small
              (All-get_elem? (λ (o : DeltaObject). length o.content < 2 ^ 31) sorted i obj small
                here)
              tt),
        best_deltas-IsBased (i + 1) rest (map_set results obj.hash (result_of results obj best))
            (slide window indices (create_delta_index obj.content)) next
            (λ p. length-slide window i indices (create_delta_index obj.content) p (len p))
            (slide-IsWindow sorted window i indices obj here len w) small,
      )

-- Where all contents are below 2 ^ 31 bytes, every result stands for the object at its place;
-- its depth is at most the limit; and where it has a delta, an object before it, of the same
-- type and with the hash of the base, is turned into its content by the delta.
pub find_best_deltas-IsBased :
    (window max_depth : ℕ) (objects : List DeltaObject)
    → All (λ (o : DeltaObject). length o.content < 2 ^ 31) objects
    → AllFrom
        (IsBased max_depth (sort_by object_before objects))
        0
        (find_best_deltas window max_depth objects)
unfolding find_best_deltas
find_best_deltas-IsBased window max_depth objects small =
    let sorted = sort_by object_before objects in
    best_deltas-IsBased window max_depth sorted 0 sorted [] [] refl (λ p. omega arith)
      (λ n c lt at. absurd (omega arith))
      (All-sort_by object_before (λ (o : DeltaObject). length o.content < 2 ^ 31) objects small)
