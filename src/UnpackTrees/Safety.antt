-- ===== src/UnpackTrees/Safety.antt =====
-- Proofs about `unpackTrees` of src/lib/unpack-trees.ts, for every list of path states.
use just_git.Base.{
  ◌≡◌, refl, inl, inr, true, false, ◌&&◌, Option, none, some, List, [], ◌∷◌, arith, Text,
  text_eq_refl, text_eq_comm, All, All-append, Bool-cases, Option-cases, JsMap, map_get, map_set,
  map_get-map_set, IsDistinct, IsDistinct-map_set, All-map_set,
}
use just_git.Index.{IndexEntry, Index}
use just_git.UnpackTrees.State.{
  PathState, MergeDecision, MergeAction, keep, take, skip, TakeFrom, MergeFn, UnpackOptions,
  WorktreeOp, unpacked,
}
use just_git.UnpackTrees.Merge.{twoway_merge}
use just_git.UnpackTrees.Check.{check_decision, check_decisions, check_decision_preconditions}
use just_git.UnpackTrees.Build.{
  build_action, build_decision, build_decisions, build_result, stage0_map,
}
use just_git.UnpackTrees.Unpack.{state_map, decide_all, unpack_states}
use just_git.UnpackTrees.Table.{is_unharmed, is_write, Passes, twoway_merge-Unharmed}

-- The operation is on a path whose state says that no work of the user is lost.
pub record OpIsSafe (states : JsMap PathState) (op : WorktreeOp) : Type 0 where
  pub state : PathState
  pub found : map_get states op.path ≡ some state
  pub unharmed : is_unharmed state ≡ true

-- Every decision was made on the state that the map of states holds for its path.
abbrev IsDecided : MergeFn → UnpackOptions → JsMap PathState → Text × MergeDecision → Type 0
IsDecided merge_fn opts states (path, decision) =
    (s : PathState) × (map_get states path ≡ some s) × (decision ≡ merge_fn s opts)

module _ (merge_fn : MergeFn) (opts : UnpackOptions) where
  decide_all-IsDecided :
      (ss : List PathState) (m : JsMap PathState) (d : JsMap MergeDecision)
      → IsDistinct d
      → All (IsDecided merge_fn opts m) d
      → All (IsDecided merge_fn opts (state_map ss m)) (decide_all merge_fn opts ss d)
  unfolding decide_all state_map
  decide_all-IsDecided [] m d distinct a = a
  decide_all-IsDecided (s ∷ ss) m d distinct a =
      decide_all-IsDecided ss (map_set m s.path s) (map_set d s.path (merge_fn s opts))
        (IsDistinct-map_set d s.path (merge_fn s opts) distinct)
        (All-map_set (IsDecided merge_fn opts m) (IsDecided merge_fn opts (map_set m s.path s))
          s.path (merge_fn s opts)
          (s, rw (map_get-map_set m s.path s.path s, text_eq_refl s.path), refl)
          (λ j w other (t, found, made).
            (t, rw (map_get-map_set m s.path j s, text_eq_comm s.path j, other) found, made))
          d distinct a)

  checked :
      (states : JsMap PathState) (d : JsMap MergeDecision)
      → check_decisions opts states d ≡ []
      → All (λ (path, decision). check_decision opts states path decision ≡ none) d
  unfolding check_decisions
  checked states [] h = tt
  checked states ((path, decision) ∷ d) h = (ground arith, checked states d (ground arith))

  -- The operations of one decision are on its own path, and only a write has any.
  build_action-OpIsSafe :
      (stage0 : JsMap IndexEntry) (states : JsMap PathState) (s : PathState) (path : Text)
      (action : MergeAction) (from : Option TakeFrom)
      → opts.reset ≡ false
      → map_get states path ≡ some s
      → (is_write action ≡ true → is_unharmed s ≡ true)
      → All (OpIsSafe states) (build_action opts stage0 s path action from).1
  unfolding build_action
  build_action-OpIsSafe stage0 states s path keep from reset found h =
      elim (Option-cases (map_get stage0 path)) [
        | inl e ↦ rw e tt
        | inr (entry, e) ↦ rw (e, reset) tt
      ]
  build_action-OpIsSafe stage0 states s path take from reset found h =
      elim (Bool-cases opts.update_worktree) [
        | inl u ↦ rw u (record { state = s; found = found; unharmed = h refl }, tt)
        | inr u ↦ rw u tt
      ]
  build_action-OpIsSafe stage0 states s path MergeAction.delete from reset found h =
      elim (Bool-cases (opts.update_worktree && s.exists_on_disk)) [
        | inl u ↦ rw u (record { state = s; found = found; unharmed = h refl }, tt)
        | inr u ↦ rw u tt
      ]
  build_action-OpIsSafe stage0 states s path skip from reset found h = tt

not_reset_checks :
    (opts : UnpackOptions) (states : JsMap PathState) (d : JsMap MergeDecision)
    → opts.reset ≡ false
    → check_decision_preconditions d states opts ≡ []
    → check_decisions opts states d ≡ []
unfolding check_decision_preconditions
not_reset_checks opts states d reset h = ground arith

Passes_lem :
    (opts : UnpackOptions) (states : JsMap PathState) (s : PathState) (path : Text)
    (decision : MergeDecision)
    → map_get states path ≡ some s
    → check_decision opts states path decision ≡ none
    → Passes opts s decision
unfolding check_decision
Passes_lem opts states s path decision found h = rw (found, check_decision) at h

-- An unpacking that is not refused rejected nothing, and its operations are those of the result.
unpacked_inv :
    (merge_fn : MergeFn) (opts : UnpackOptions) (ss : List PathState) (index : Index)
    (entries : List IndexEntry) (ops : List WorktreeOp)
    → unpack_states merge_fn opts ss index ≡ unpacked entries ops
    → (check_decision_preconditions (decide_all merge_fn opts ss []) (state_map ss []) opts ≡ [])
      × (ops ≡ (build_result (decide_all merge_fn opts ss []) (state_map ss []) index opts).1)
unfolding unpack_states
unpacked_inv merge_fn opts ss index entries ops h = ground arith

module _ (merge_fn : MergeFn) (opts : UnpackOptions) (reset : opts.reset ≡ false)
    (fn_unharmed : (s : PathState)
      → Passes opts s (merge_fn s opts)
      → is_write (merge_fn s opts).action ≡ true
      → is_unharmed s ≡ true) where
  build_decisions-OpIsSafe :
      (stage0 : JsMap IndexEntry) (states : JsMap PathState) (d : JsMap MergeDecision)
      → All (IsDecided merge_fn opts states) d
      → All (λ (path, decision). check_decision opts states path decision ≡ none) d
      → All (OpIsSafe states) (build_decisions opts stage0 states d).1
  unfolding build_decisions
  build_decisions-OpIsSafe stage0 states [] a c = tt
  build_decisions-OpIsSafe stage0 states ((path, decision) ∷ d) ((s, found, made), a) (ok, c) =
      rw (found, build_decisions)
        (All-append (OpIsSafe states) (build_decision opts stage0 s path decision).1 _
          (build_action-OpIsSafe merge_fn opts stage0 states s path decision.action
            decision.take_from reset found
            (λ write.
              fn_unharmed s (rw made at (Passes_lem opts states s path decision found ok))
                (rw made at write)))
          (build_decisions-OpIsSafe stage0 states d a c))

  -- If every write of the merge function that passes its checks is harmless, then so is every
  -- operation of an unpacking that is not refused.
  pub unpack_states-OpIsSafe :
      (ss : List PathState) (index : Index) (entries : List IndexEntry) (ops : List WorktreeOp)
      → unpack_states merge_fn opts ss index ≡ unpacked entries ops
      → All (OpIsSafe (state_map ss [])) ops
  unpack_states-OpIsSafe ss index entries ops h =
      let states = state_map ss [] in
      let decisions = decide_all merge_fn opts ss [] in
      let (clear, built) = unpacked_inv merge_fn opts ss index entries ops h in
      rw built (
        unfold build_result in
        build_decisions-OpIsSafe (stage0_map index.entries []) states decisions
          (decide_all-IsDecided merge_fn opts ss [] [] tt tt)
          (checked merge_fn opts states decisions
            (not_reset_checks opts states decisions reset clear)))

-- For a two-way unpacking that neither resets nor allows staged changes and is not refused,
-- every worktree operation is on a path whose state loses no work: the index is in conflict
-- there, no file is on disk, the file is what the index says, or it is ignored and not in the
-- index.
pub twoway_unpack-OpIsSafe :
    (opts : UnpackOptions) (ss : List PathState) (index : Index) (entries : List IndexEntry)
    (ops : List WorktreeOp)
    → opts.reset ≡ false
    → opts.allow_staged_changes ≡ false
    → unpack_states twoway_merge opts ss index ≡ unpacked entries ops
    → All (OpIsSafe (state_map ss [])) ops
twoway_unpack-OpIsSafe opts ss index entries ops reset allow =
    unpack_states-OpIsSafe twoway_merge opts reset (λ s. twoway_merge-Unharmed opts s allow) ss
      index entries ops
