-- ===== src/UnpackTrees/Merge.antt =====
-- The one-way and two-way decision tables of src/lib/unpack-trees.ts.
use just_git.Base.{
  Bool, true, false, ◌&&◌, ◌||◌, not, Option, none, some, List, [], ◌∷◌, Text, text_eq, ltb, ◌==◌,
  if◌then◌else◌, is_some, set_has,
}
use just_git.Base.ParseInt.{ParsedInt, int, negative, parse_int}
use just_git.Index.{ObjectId}
use just_git.UnpackTrees.State.{
  Mode, text, number, PathState, MergeDecision, MergeAction, keep, take, skip, remote,
  PreconditionRequirement, index_must_match_head, worktree_must_be_uptodate, no_untracked,
  no_untracked_removed, UnpackOptions,
}

-- `===` on numbers (`NaN` differs from itself), and on a value or `null`.
unfoldable pub num_eq : ParsedInt → ParsedInt → Bool
num_eq (int a) (int b) = a == b
num_eq (negative a) (negative b) = a == b
num_eq _ _ = false

unfoldable pub opt_num_eq : Option ParsedInt → Option ParsedInt → Bool
unfolding num_eq
opt_num_eq none none = true
opt_num_eq (some a) (some b) = num_eq a b
opt_num_eq _ _ = false

unfoldable pub opt_text_eq : Option Text → Option Text → Bool
opt_text_eq none none = true
opt_text_eq (some a) (some b) = text_eq a b
opt_text_eq _ _ = false

unfoldable pub mode_number : Option Mode → Option ParsedInt
mode_number none = none
mode_number (some (text s)) = some (parse_int s 8)
mode_number (some (number n)) = some n

unfoldable pub same : Option ObjectId → Option Mode → Option ObjectId → Option Mode → Bool
unfolding opt_text_eq opt_num_eq mode_number
same hash_a mode_a hash_b mode_b =
    if not (opt_text_eq hash_a hash_b)
    then false
    else if not (is_some hash_a)
    then true
    else opt_num_eq (mode_number mode_a) (mode_number mode_b)

-- A mode of a tree, and of an index entry, as an argument of `same`.
abbrev pub tree_mode : Option Text → Option Mode
tree_mode none = none
tree_mode (some s) = some (text s)

abbrev pub index_mode : Option ParsedInt → Option Mode
index_mode none = none
index_mode (some n) = some (number n)

abbrev pub decide : MergeAction → List PreconditionRequirement → MergeDecision
decide action requirements = record {
  action = action;
  take_from = none;
  requirements = requirements;
}

abbrev pub take_remote : List PreconditionRequirement → MergeDecision
take_remote requirements = record {
  action = take;
  take_from = some remote;
  requirements = requirements;
}

unfoldable pub oneway_merge : PathState → UnpackOptions → MergeDecision
oneway_merge state opts =
    if not (is_some state.remote_hash)
    then (if not (is_some state.index_hash) && state.index_stage == 0
        then decide skip []
        else decide MergeAction.delete (if opts.reset then [] else worktree_must_be_uptodate ∷ []))
    else if same state.index_hash (index_mode state.index_mode) state.remote_hash
        (tree_mode state.remote_mode)
    then decide keep []
    else if not (is_some state.index_hash)
    then (let skip_absent_check = opts.reset || set_has opts.stripped_conflict_paths state.path in
        take_remote (if skip_absent_check then [] else no_untracked ∷ []))
    else take_remote (if opts.reset then [] else worktree_must_be_uptodate ∷ [])

-- The branch for an index entry with stages above 0.
twoway_conflicted : Bool → Bool → MergeDecision
twoway_conflicted same_old_new has_new =
    if same_old_new
    then (if not has_new then decide MergeAction.delete [] else take_remote [])
    else decide keep (index_must_match_head ∷ [])

-- The branch for a path with no index entry.
twoway_no_index : Bool → Bool → Bool → Bool → MergeDecision
twoway_no_index same_old_new has_old has_new allow_staged_changes =
    if not has_new
    then (if not has_old then decide skip [] else decide skip (no_untracked_removed ∷ []))
    else if has_old
    then (if same_old_new
        then decide skip []
        else if allow_staged_changes
        then take_remote []
        else decide keep (index_must_match_head ∷ []))
    else take_remote (no_untracked ∷ [])

-- The cases 4 to 20, and the fallthrough.
twoway_indexed : Bool → Bool → Bool → Bool → Bool → Bool → MergeDecision
twoway_indexed same_old_new same_idx_old same_idx_new has_old has_new allow_staged_changes =
    if not has_old && not has_new
    then decide keep []
    else if not has_old && same_idx_new
    then decide keep []
    else if same_idx_old && not has_new
    then decide MergeAction.delete (worktree_must_be_uptodate ∷ [])
    else if has_old && same_old_new
    then decide keep []
    else if has_old && has_new && same_idx_new
    then decide keep []
    else if has_old && has_new && same_idx_old && not same_idx_new
    then take_remote (worktree_must_be_uptodate ∷ [])
    else if allow_staged_changes
    then (if not has_new then decide MergeAction.delete [] else take_remote [])
    else decide keep (index_must_match_head ∷ [])

unfoldable pub twoway_merge : PathState → UnpackOptions → MergeDecision
unfolding twoway_conflicted twoway_no_index twoway_indexed
twoway_merge state opts =
    let old = state.head_hash in
    let nu = state.remote_hash in
    let idx = state.index_hash in
    let same_old_new = same old (tree_mode state.head_mode) nu (tree_mode state.remote_mode) in
    let same_idx_old = same idx (index_mode state.index_mode) old (tree_mode state.head_mode) in
    let same_idx_new = same idx (index_mode state.index_mode) nu (tree_mode state.remote_mode) in
    if ltb 0 state.index_stage
    then twoway_conflicted same_old_new (is_some nu)
    else if not (is_some idx)
    then twoway_no_index same_old_new (is_some old) (is_some nu) opts.allow_staged_changes
    else twoway_indexed same_old_new same_idx_old same_idx_new (is_some old) (is_some nu)
        opts.allow_staged_changes
