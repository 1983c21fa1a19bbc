-- ===== src/UnpackTrees/Check.antt =====
-- The verification of preconditions in src/lib/unpack-trees.ts.
use just_git.Base.{
  Bool, true, false, ◌&&◌, ◌||◌, not, Option, none, some, List, [], ◌∷◌, Text, if◌then◌else◌,
  is_some, JsMap, map_get,
}
use just_git.Index.{ObjectId}
use just_git.UnpackTrees.State.{
  Mode, PathState, MergeDecision, keep, take, TakeFrom, head, remote, base, PreconditionRequirement,
  index_must_not_exist, index_must_match_head, index_must_match_result, worktree_must_be_uptodate,
  no_untracked, no_untracked_removed, UnpackOptions, UnpackError, would_overwrite,
  not_uptodate_file, would_lose_untracked_overwritten, would_lose_untracked_removed, RejectedPath,
  is_untracked,
}
use just_git.UnpackTrees.Merge.{same, tree_mode, index_mode, opt_text_eq, opt_num_eq}

pub record ResultEntry : Type 0 where
  pub hash : Option ObjectId
  pub mode : Option Mode

taken_entry : Option TakeFrom → PathState → ResultEntry
taken_entry (some head) state = record { hash = state.head_hash; mode = tree_mode state.head_mode }
taken_entry (some remote) state = record {
  hash = state.remote_hash;
  mode = tree_mode state.remote_mode;
}
taken_entry (some base) state = record { hash = state.base_hash; mode = none }
taken_entry none state = record { hash = none; mode = none }

unfoldable pub resolve_result : MergeDecision → PathState → ResultEntry
unfolding taken_entry
resolve_result decision state = elim decision.action [
  | take ↦ taken_entry decision.take_from state
  | keep ↦ record { hash = state.index_hash; mode = index_mode state.index_mode }
  | _ ↦ record { hash = none; mode = none }
]

-- The worktree file is what the index says, or may be replaced by what it already is.
check_uptodate : PathState → ResultEntry → Bool → Option UnpackError
check_uptodate state result allow_content_escape_hatch =
    if not state.exists_on_disk
    then none
    else if opt_text_eq state.worktree_hash state.index_hash
        && (not (is_some state.worktree_hash) || opt_num_eq state.worktree_mode state.index_mode)
    then none
    else if allow_content_escape_hatch
        && same state.worktree_hash
            (if not (is_some state.worktree_hash) then none else index_mode state.worktree_mode)
            result.hash result.mode
    then none
    else some not_uptodate_file

check_untracked : PathState → UnpackError → Option UnpackError
check_untracked state error =
    if is_untracked state then (if state.is_ignored_on_disk then none else some error) else none

unfoldable pub check_single_requirement :
    PreconditionRequirement → PathState → ResultEntry → Bool → Option UnpackError
unfolding check_uptodate check_untracked
check_single_requirement index_must_not_exist state result allow =
    if is_some state.index_hash
    then some would_overwrite
    else if is_untracked state
    then some would_lose_untracked_removed
    else none
check_single_requirement index_must_match_head state result allow =
    if not (
      same state.index_hash (index_mode state.index_mode) state.head_hash
        (tree_mode state.head_mode))
    then some would_overwrite
    else none
check_single_requirement index_must_match_result state result allow =
    if is_some state.index_hash
      && not (same state.index_hash (index_mode state.index_mode) result.hash result.mode)
    then some would_overwrite
    else none
check_single_requirement worktree_must_be_uptodate state result allow =
    check_uptodate state result allow
check_single_requirement no_untracked state result allow =
    check_untracked state would_lose_untracked_overwritten
check_single_requirement no_untracked_removed state result allow =
    check_untracked state would_lose_untracked_removed

is_match_head : PreconditionRequirement → Bool
is_match_head index_must_match_head = true
is_match_head _ = false

-- The inner loop: the first requirement that fails gives the path's only error.
unfoldable pub check_requirements :
    UnpackOptions → PathState → ResultEntry → List PreconditionRequirement → Option UnpackError
unfolding is_match_head
check_requirements opts state result [] = none
check_requirements opts state result (req ∷ reqs) =
    let later = check_requirements opts state result reqs in
    if opts.allow_staged_changes && is_match_head req
    then later
    else elim (check_single_requirement req state result false) [
      | none ↦ later
      | some error ↦ some error
    ]

-- One decision; a path without a state is passed over.
unfoldable pub check_decision :
    UnpackOptions → JsMap PathState → Text → MergeDecision → Option UnpackError
check_decision opts states path decision = elim (map_get states path) [
  | none ↦ none
  | some state ↦ check_requirements opts state (resolve_result decision state) decision.requirements
]

-- The outer loop.
unfoldable pub check_decisions :
    UnpackOptions → JsMap PathState → JsMap MergeDecision → List RejectedPath
check_decisions opts states [] = []
check_decisions opts states ((path, decision) ∷ rest) =
    let later = check_decisions opts states rest in
    elim (check_decision opts states path decision) [
      | none ↦ later
      | some error ↦
          record { path = path; error = error } ∷ (if opts.stop_at_first_error then [] else later)
    ]

unfoldable pub check_decision_preconditions :
    JsMap MergeDecision → JsMap PathState → UnpackOptions → List RejectedPath
check_decision_preconditions decisions states opts =
    if opts.reset then [] else check_decisions opts states decisions
