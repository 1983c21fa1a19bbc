-- ===== src/UnpackTrees/Table.antt =====
-- Proofs about the decision tables of src/lib/unpack-trees.ts, state by state.
use just_git.Base.{
  ◌≡◌, refl, Bool, true, false, ◌&&◌, ◌||◌, not, Option, none, some, arith, Text, text_eq_iff, ltb,
  is_some, set_has,
}
use just_git.UnpackTrees.State.{
  Mode, PathState, MergeDecision, MergeAction, take, UnpackOptions, is_untracked,
}
use just_git.UnpackTrees.Merge.{
  same, tree_mode, index_mode, opt_text_eq, opt_num_eq, oneway_merge, twoway_merge,
}
use just_git.UnpackTrees.Check.{resolve_result, check_requirements, check_single_requirement}

-- No work of the user is at the path: the index is in conflict there, no file is on disk, the file is
-- what the index says, or it is ignored and not in the index.
unfoldable pub is_unharmed : PathState → Bool
is_unharmed s =
    ltb 0 s.index_stage
    || not s.exists_on_disk
    || (opt_text_eq s.worktree_hash s.index_hash
        && (not (is_some s.worktree_hash) || opt_num_eq s.worktree_mode s.index_mode))
    || (not (is_some s.index_hash) && s.is_ignored_on_disk)

-- The decision writes or deletes the file.
abbrev pub is_write : MergeAction → Bool
is_write take = true
is_write MergeAction.delete = true
is_write _ = false

-- The decision's preconditions hold.
abbrev pub Passes : UnpackOptions → PathState → MergeDecision → Type 0
Passes opts s d = check_requirements opts s (resolve_result d s) d.requirements ≡ none

pub twoway_merge-Unharmed :
    (opts : UnpackOptions) (s : PathState)
    → opts.allow_staged_changes ≡ false
    → Passes opts s (twoway_merge s opts)
    → is_write (twoway_merge s opts).action ≡ true
    → is_unharmed s ≡ true
unfolding is_unharmed is_untracked twoway_merge check_requirements check_single_requirement
twoway_merge-Unharmed opts s allow passes write = ground arith

pub oneway_merge-Unharmed :
    (opts : UnpackOptions) (s : PathState)
    → opts.reset ≡ false
    → set_has opts.stripped_conflict_paths s.path ≡ false
    → Passes opts s (oneway_merge s opts)
    → is_write (oneway_merge s opts).action ≡ true
    → is_unharmed s ≡ true
unfolding is_unharmed is_untracked oneway_merge check_requirements check_single_requirement
oneway_merge-Unharmed opts s reset stripped passes write = ground arith

-- `same` compares hashes.
same-hash : (a b : Option Text) (m n : Option Mode) → same a m b n ≡ true → a ≡ b
unfolding same
same-hash none none m n h = refl
same-hash none (some b) m n h = cc
same-hash (some a) none m n h = cc
same-hash (some a) (some b) m n h = ground (arith, text_eq_iff a b)

-- The result of the one-way table has, in every state and under all options, the hash that the
-- target tree has at the path, or none if it has none.
pub oneway_merge-result :
    (opts : UnpackOptions) (s : PathState)
    → (resolve_result (oneway_merge s opts) s).hash ≡ s.remote_hash
unfolding oneway_merge resolve_result
oneway_merge-result opts s = ground (
  arith,
  same-hash s.index_hash s.remote_hash (index_mode s.index_mode) (tree_mode s.remote_mode),
)

abbrev pub is_clean : PathState → Bool
is_clean s = same s.index_hash (index_mode s.index_mode) s.head_hash (tree_mode s.head_mode)

-- On a path with a stage-0 index entry that matches the old tree, the result of the two-way
-- table has the hash that the new tree has there, or none if the new tree has none.
pub twoway_merge-result :
    (opts : UnpackOptions) (s : PathState)
    → s.index_stage ≡ 0
    → is_some s.index_hash ≡ true
    → is_clean s ≡ true
    → (resolve_result (twoway_merge s opts) s).hash ≡ s.remote_hash
unfolding twoway_merge resolve_result
twoway_merge-result opts s stage tracked clean = ground (
  arith,
  same-hash s.index_hash s.remote_hash (index_mode s.index_mode) (tree_mode s.remote_mode),
  same-hash s.index_hash s.head_hash (index_mode s.index_mode) (tree_mode s.head_mode),
  same-hash s.head_hash s.remote_hash (tree_mode s.head_mode) (tree_mode s.remote_mode),
)

-- Without allowStagedChanges the two-way table takes or deletes at a path with a stage-0 index
-- entry only if that entry matches the old tree.
pub twoway_merge-staged :
    (opts : UnpackOptions) (s : PathState)
    → opts.allow_staged_changes ≡ false
    → s.index_stage ≡ 0
    → is_some s.index_hash ≡ true
    → is_write (twoway_merge s opts).action ≡ true
    → is_clean s ≡ true
unfolding twoway_merge
twoway_merge-staged opts s allow stage tracked write = ground arith
