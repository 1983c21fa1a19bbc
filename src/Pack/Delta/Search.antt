-- ===== src/Pack/Delta/Search.antt =====
-- `findBestDeltas` of src/lib/pack/delta.ts: the base of each object among those before it.
use just_git.Base.{
  ℕ, zero, suc, ◌+◌, ◌-◌, ◌/◌, Bool, not, Option, none, some, List, [], ◌∷◌, ◌++◌, length, drop,
  get_elem?, ltb, leb, ◌==◌, if◌then◌else◌, Text, codes, text_eq, JsMap, map_get, map_set, sort_by,
}
use just_git.Pack.Sizes.{Bytes}
use just_git.Pack.Delta.Match.{DeltaIndex}
use just_git.Pack.Delta.Create.{null, delta, stuck, create_delta}
use just_git.Pack.Delta.Index.{create_delta_index}

pub record DeltaObject : Type 0 where
  pub kind : Text
  pub content : Bytes
  pub hash : Text

pub record DeltaResult : Type 0 where
  pub hash : Text
  pub kind : Text
  pub content : Bytes
  pub delta_base : Option Text
  pub delta_bytes : Option Bytes
  pub depth : ℕ

-- `TYPE_ORDER[type] ?? 99`
unfoldable pub type_order : Text → ℕ
type_order kind =
    if text_eq kind (codes "blob")
    then 0
    else if text_eq kind (codes "tree")
    then 1
    else if text_eq kind (codes "commit")
    then 2
    else if text_eq kind (codes "tag")
    then 3
    else 99

-- The order of the sort: by type, larger contents first.
unfoldable pub object_before : DeltaObject → DeltaObject → Bool
unfolding type_order
object_before a b =
    let ta = type_order a.kind in
    let tb = type_order b.kind in
    if ta == tb then ltb (length b.content) (length a.content) else ltb ta tb

abbrev pub ResultMap : Type 0
ResultMap = JsMap DeltaResult

-- `resultMap.get(hash)?.depth ?? 0`
unfoldable pub depth_of : ResultMap → Text → ℕ
depth_of results hash = elim (map_get results hash) [ none ↦ 0 | some r ↦ r.depth ]

-- `bestDelta` and `bestBase`
abbrev pub Best : Type 0
Best = Option (Bytes × Text)

-- A delta for the candidate's index, if it is smaller than the best one.
unfoldable pub better : DeltaObject → DeltaObject → DeltaIndex → ℕ → Best → Best
better obj candidate index max_size best =
    if ltb max_size 16
    then best
    else elim (create_delta (some index) obj.content (some max_size)) as (λ _. Best) [
      | null ↦ best
      | stuck ↦ best
      | delta bytes ↦ elim best as (λ _. Best) [
        | none ↦ some (bytes, candidate.hash)
        | some (old, base) ↦
            if ltb (length bytes) (length old)
            then some (bytes, candidate.hash)
            else some (old, base)
      ]
    ]

-- The limit of the size: half the content, or the best delta.
unfoldable pub size_limit : DeltaObject → Best → ℕ
size_limit obj none = length obj.content / 2
size_limit obj (some (bytes, base)) = length bytes

-- One candidate.
unfoldable pub try_candidate :
    ResultMap → ℕ → DeltaObject → DeltaObject → Option DeltaIndex → Best → Best
unfolding better size_limit depth_of
try_candidate results max_depth obj candidate none best = best
try_candidate results max_depth obj candidate (some index) best =
    if not (text_eq candidate.kind obj.kind)
    then best
    else if leb max_depth (depth_of results candidate.hash)
    then best
    else if ltb (length obj.content) (length candidate.content / 32)
    then best
    else better obj candidate index (size_limit obj best) best

-- `xs[i] ?? null` of a list of what may be null.
unfoldable pub index_at : List (Option DeltaIndex) → ℕ → Option DeltaIndex
index_at [] i = none
index_at (x ∷ xs) zero = x
index_at (x ∷ xs) (suc i) = index_at xs i

-- The loop on the candidates, from the nearest to the one at the start of the window.
unfoldable pub search_bases :
    ℕ → ℕ → List DeltaObject → ResultMap → List (Option DeltaIndex) → ℕ → DeltaObject → Best → Best
unfolding try_candidate index_at
search_bases zero window_start sorted results indices max_depth obj best = best
search_bases (suc n) window_start sorted results indices max_depth obj best =
    let next : Best = elim (get_elem? sorted (window_start + n)) [
      | none ↦ best
      | some candidate ↦ try_candidate results max_depth obj candidate (index_at indices n) best
    ] in
    search_bases n window_start sorted results indices max_depth obj next

unfoldable pub plain_result : DeltaObject → DeltaResult
plain_result obj = record {
  hash = obj.hash;
  kind = obj.kind;
  content = obj.content;
  delta_base = none;
  delta_bytes = none;
  depth = 0;
}

-- `if (bestDelta && bestBase)`: a text that is empty is no base.
unfoldable pub result_of : ResultMap → DeltaObject → Best → DeltaResult
unfolding depth_of plain_result
result_of results obj none = plain_result obj
result_of results obj (some (bytes, base)) =
    if text_eq base [] then plain_result obj else record (plain_result obj) {
      delta_base = some base;
      delta_bytes = some bytes;
      depth = depth_of results base + 1;
    }

-- The sliding window: `shift()` where it is full, then `push`.
unfoldable pub slide : ℕ → List (Option DeltaIndex) → Option DeltaIndex → List (Option DeltaIndex)
slide window indices index =
    (if leb window (length indices) then drop 1 indices else indices) ++ (index ∷ [])

-- The loop on the objects; `rest` is what is left of the sorted ones at i.
unfoldable pub best_deltas :
    ℕ
    → ℕ
    → List DeltaObject
    → ℕ
    → List DeltaObject
    → ResultMap
    → List (Option DeltaIndex)
    → List DeltaResult
unfolding search_bases result_of slide
best_deltas window max_depth sorted i [] results indices = []
best_deltas window max_depth sorted i (obj ∷ rest) results indices =
    let window_start = i - window in
    let best =
      search_bases (i - window_start) window_start sorted results indices max_depth obj none in
    let result = result_of results obj best in
    result
    ∷ best_deltas window max_depth sorted (i + 1) rest (map_set results obj.hash result)
        (slide window indices (create_delta_index obj.content))

-- `options?.window ?? 10` and `options?.depth ?? 50` are arguments here.
unfoldable pub find_best_deltas : ℕ → ℕ → List DeltaObject → List DeltaResult
unfolding best_deltas object_before
find_best_deltas window max_depth objects =
    let sorted = sort_by object_before objects in best_deltas window max_depth sorted 0 sorted [] []
