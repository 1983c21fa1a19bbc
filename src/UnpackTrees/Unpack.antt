-- ===== src/UnpackTrees/Unpack.antt =====
-- The entry points of src/lib/unpack-trees.ts: `unpackTrees`, its callers, and the texts of their
-- errors. A flattened tree stands for a tree's hash.
use just_git.Base.{
  Bool, true, false, ◌&&◌, not, Option, none, some, List, [], ◌∷◌, ◌++◌, map, Text, codes, length,
  ltb, if◌then◌else◌, JsMap, map_has, map_set, set_has, set_add, sort_texts, filter,
}
use just_git.Index.{IndexEntry, Index, get_stage0_entries}
use just_git.UnpackTrees.State.{
  PathState, MergeDecision, MergeFn, UnpackOptions, UnpackError, would_overwrite, not_uptodate_file,
  would_lose_untracked_overwritten, would_lose_untracked_removed, RejectedPath, OpType, WorktreeOp,
  FlatTreeEntry, ErrorOutput, UnpackResult, unpacked, refused,
}
use just_git.UnpackTrees.Merge.{oneway_merge, twoway_merge}
use just_git.UnpackTrees.Check.{check_decision_preconditions}
use just_git.UnpackTrees.Build.{Worktree, build_path_states, build_result}

same_error : UnpackError → UnpackError → Bool
same_error would_overwrite would_overwrite = true
same_error not_uptodate_file not_uptodate_file = true
same_error would_lose_untracked_overwritten would_lose_untracked_overwritten = true
same_error would_lose_untracked_removed would_lose_untracked_removed = true
same_error _ _ = false

abbrev error_order : List UnpackError
error_order =
    would_overwrite ∷ not_uptodate_file ∷ would_lose_untracked_overwritten
    ∷ would_lose_untracked_removed ∷ []

error_message : UnpackError → Text → Text
error_message would_overwrite op =
    codes "error: Your local changes to the following files would be overwritten by "
    ++ op
    ++ codes ":"
error_message not_uptodate_file op =
    codes "error: Your local changes to the following files would be overwritten by "
    ++ op
    ++ codes ":"
error_message would_lose_untracked_overwritten op =
    codes "error: The following untracked working tree files would be overwritten by "
    ++ op
    ++ codes ":"
error_message would_lose_untracked_removed op =
    codes "error: The following untracked working tree files would be removed by "
    ++ op
    ++ codes ":"

error_fix : UnpackError → Text → Text
error_fix would_overwrite action =
    codes "Please commit your changes or stash them before you " ++ action ++ codes "."
error_fix not_uptodate_file action =
    codes "Please commit your changes or stash them before you " ++ action ++ codes "."
error_fix _ action = codes "Please move or remove them before you " ++ action ++ codes "."

abbrev newline : Text
newline = 0xa ∷ []

-- "\t" and the path on a line each.
file_list : List Text → Text
file_list [] = []
file_list (f ∷ []) = 0x9 ∷ f
file_list (f ∷ g ∷ fs) = (0x9 ∷ f) ++ newline ++ file_list (g ∷ fs)

error_blocks : List UnpackError → List RejectedPath → Text → Text → Text
unfolding same_error error_message error_fix file_list sort_texts filter
error_blocks [] rejected op action = []
error_blocks (error ∷ errors) rejected op action =
    let paths = sort_texts (map (λ r. r.path) (filter (λ r. same_error r.error error) rejected)) in
    let rest = error_blocks errors rejected op action in
    if ltb 0 (length paths)
    then error_message error op
      ++ newline
      ++ file_list paths
      ++ newline
      ++ error_fix error action
      ++ newline
      ++ rest
    else rest

unfoldable pub format_errors : List RejectedPath → UnpackOptions → ErrorOutput
unfolding error_blocks
format_errors rejected opts =
    let action : Text = elim opts.action_hint [ none ↦ opts.operation_name | some hint ↦ hint ] in
    let blocks = error_blocks error_order rejected opts.operation_name action in
    record {
      stdout = [];
      stderr = if ltb 0 (length blocks) then blocks ++ codes "Aborting" ++ newline else [];
      exit_code = opts.error_exit_code;
    }

-- `new Map(pathStates.map((s) => [s.path, s]))`
unfoldable pub state_map : List PathState → JsMap PathState → JsMap PathState
state_map [] m = m
state_map (s ∷ ss) m = state_map ss (map_set m s.path s)

unfoldable pub decide_all :
    MergeFn → UnpackOptions → List PathState → JsMap MergeDecision → JsMap MergeDecision
decide_all merge_fn opts [] m = m
decide_all merge_fn opts (s ∷ ss) m =
    decide_all merge_fn opts ss (map_set m s.path (merge_fn s opts))

-- The steps 2 to 5, from the path states.
unfoldable pub unpack_states : MergeFn → UnpackOptions → List PathState → Index → UnpackResult
unpack_states merge_fn opts path_states index =
    let states = state_map path_states [] in
    let decisions = decide_all merge_fn opts path_states [] in
    let rejected = check_decision_preconditions decisions states opts in
    if ltb 0 (length rejected)
    then refused rejected (format_errors rejected opts)
    else (let built = build_result decisions states index opts in unpacked built.0 built.1)

unfoldable pub unpack_trees :
    MergeFn → UnpackOptions → Worktree → List (JsMap FlatTreeEntry) → Index → UnpackResult
unpack_trees merge_fn opts worktree trees index =
    unpack_states merge_fn opts (build_path_states worktree trees index) index

abbrev pub default_options : UnpackOptions
default_options = record {
  update_worktree = true;
  reset = false;
  stop_at_first_error = false;
  stripped_conflict_paths = [];
  allow_staged_changes = false;
  error_exit_code = 1;
  operation_name = codes "merge";
  action_hint = none;
}

abbrev checkout_options : UnpackOptions
checkout_options = record default_options {
  operation_name = codes "checkout";
  action_hint = some (codes "switch branches");
}

abbrev reset_options : UnpackOptions
reset_options = record default_options {
  reset = true;
  error_exit_code = 128;
  operation_name = codes "reset";
}

unfoldable pub checkout_trees :
    Worktree → JsMap FlatTreeEntry → JsMap FlatTreeEntry → Index → UnpackResult
checkout_trees worktree current target index =
    unpack_trees twoway_merge checkout_options worktree (current ∷ target ∷ []) index

unfoldable pub fast_forward_merge :
    Worktree → JsMap FlatTreeEntry → JsMap FlatTreeEntry → Index → UnpackResult
fast_forward_merge worktree current target index =
    unpack_trees twoway_merge default_options worktree (current ∷ target ∷ []) index

unfoldable pub reset_hard : Worktree → JsMap FlatTreeEntry → Index → UnpackResult
reset_hard worktree target index =
    unpack_trees oneway_merge reset_options worktree (target ∷ []) index

-- Paths with an entry above stage 0.
staged_conflicts : List IndexEntry → List Text → List Text
staged_conflicts [] s = s
staged_conflicts (e ∷ es) s = staged_conflicts es (if ltb 0 e.stage then set_add s e.path else s)

abort_line : RejectedPath → Text
abort_line e = elim e.error [
  | not_uptodate_file ↦
      codes "error: Entry '" ++ e.path ++ codes "' not uptodate. Cannot merge." ++ newline
  | would_lose_untracked_overwritten ↦
      codes "error: Untracked working tree file '"
      ++ e.path
      ++ codes "' would be overwritten by merge."
      ++ newline
  | _ ↦ []
]

abort_lines : List RejectedPath → Text
unfolding abort_line
abort_lines [] = []
abort_lines (e ∷ es) = abort_line e ++ abort_lines es

abort_output : List RejectedPath → ErrorOutput → Text → ErrorOutput
unfolding abort_lines
abort_output errors output rev_name =
    let lines = abort_lines errors in
    if ltb 0 (length lines)
    then record {
      stdout = [];
      stderr =
          lines
          ++ codes "fatal: Could not reset index file to revision '"
          ++ rev_name
          ++ codes "'."
          ++ newline;
      exit_code = 128;
    }
    else output

-- The conflict paths that neither the tree nor the new entries have are deleted.
orphan_deletes : JsMap FlatTreeEntry → List Text → List Text → List WorktreeOp
orphan_deletes orig new_paths [] = []
orphan_deletes orig new_paths (p ∷ ps) =
    let rest = orphan_deletes orig new_paths ps in
    if not (map_has orig p) && not (set_has new_paths p)
    then record { path = p; type = OpType.delete; hash = none; mode = none } ∷ rest
    else rest

abort_options : List Text → UnpackOptions
abort_options conflicts = record default_options {
  error_exit_code = 128;
  stop_at_first_error = true;
  stripped_conflict_paths = conflicts;
}

-- `has_worktree`: whether `ctx.workTree` is there.
unfoldable pub merge_abort :
    Bool → Worktree → JsMap FlatTreeEntry → Index → Option Text → UnpackResult
unfolding staged_conflicts abort_output orphan_deletes abort_options
merge_abort has_worktree worktree orig index target_rev_name =
    let conflicts = staged_conflicts index.entries [] in
    let cleaned : Index = record { version = index.version; entries = get_stage0_entries index } in
    elim (unpack_trees oneway_merge (abort_options conflicts) worktree (orig ∷ []) cleaned) [
      | refused errors output ↦ refused errors (
          abort_output errors output
            (elim target_rev_name [ none ↦ codes "HEAD" | some rev ↦ rev ]))
      | unpacked entries ops ↦
          let orphans = orphan_deletes orig (map (λ e. e.path) entries) conflicts in
          unpacked entries (if has_worktree then ops ++ orphans else ops)
    ]
