-- ===== src/UnpackTrees/Examples.antt =====
-- The theorems on unpacking trees at concrete inputs.
use just_git.Base.{
  ℕ, ◌≡◌, refl, some, none, true, false, List, [], ◌∷◌, Text, codes, base_functions, All,
}
use just_git.Base.ParseInt.{int, parse_int}
use just_git.Index.{Index, IndexEntry, default_stat, entry_before}
use just_git.UnpackTrees.State.{PathState, WorktreeOp, checkout, unpacked}
use just_git.UnpackTrees.Merge.{same, oneway_merge, twoway_merge}
use just_git.UnpackTrees.Check.{
  resolve_result, check_decisions, check_decision, check_requirements, check_single_requirement,
  check_decision_preconditions,
}
use just_git.UnpackTrees.Build.{build_result, build_decisions, build_action, stage0_map}
use just_git.UnpackTrees.Unpack.{state_map, decide_all, unpack_states, default_options}
use just_git.UnpackTrees.Table.{
  is_clean, is_write, oneway_merge-result, twoway_merge-result, twoway_merge-staged,
}
use just_git.UnpackTrees.Safety.{OpIsSafe, twoway_unpack-OpIsSafe}

-- A tracked file that the new tree changes.
abbrev changed : PathState
changed = record {
  path = codes "a";
  base_hash = none;
  head_hash = some (codes "11");
  remote_hash = some (codes "22");
  index_hash = some (codes "11");
  index_mode = some (int 0o100644);
  index_stage = 0;
  exists_on_disk = true;
  is_ignored_on_disk = false;
  worktree_hash = some (codes "11");
  worktree_mode = some (int 0o100644);
  head_mode = some (codes "100644");
  remote_mode = some (codes "100755");
}

abbrev entry : Text → ℕ → IndexEntry
entry hash mode = record {
  path = codes "a";
  mode = int mode;
  hash = hash;
  stage = 0;
  stat = default_stat;
}

abbrev index : Index
index = record { version = 2; entries = entry (codes "11") 0o100644 ∷ [] }

abbrev ops : List WorktreeOp
ops =
    record {
      path = codes "a";
      type = checkout;
      hash = some (codes "22");
      mode = some (int 0o100755);
    }
    ∷ []

checkout_runs :
    unpack_states twoway_merge default_options (changed ∷ []) index
    ≡ unpacked (entry (codes "22") 0o100755 ∷ []) ops
unfolding unpack_states state_map decide_all twoway_merge same check_decision_preconditions
    check_decisions check_decision check_requirements check_single_requirement build_result
    build_decisions build_action stage0_map entry_before parse_int resolve_result base_functions
    default_stat
checkout_runs = refl

twoway_unpack-OpIsSafe_example : All (OpIsSafe (state_map (changed ∷ []) [])) ops
twoway_unpack-OpIsSafe_example =
    twoway_unpack-OpIsSafe default_options (changed ∷ []) index (entry (codes "22") 0o100755 ∷ [])
      ops refl refl checkout_runs

changed-is_clean : is_clean changed ≡ true
unfolding same base_functions parse_int
changed-is_clean = refl

twoway_merge-result_example :
    (resolve_result (twoway_merge changed default_options) changed).hash ≡ some (codes "22")
twoway_merge-result_example = twoway_merge-result default_options changed refl refl changed-is_clean

changed-is_write : is_write (twoway_merge changed default_options).action ≡ true
unfolding twoway_merge same base_functions parse_int
changed-is_write = refl

twoway_merge-staged_example : is_clean changed ≡ true
twoway_merge-staged_example =
    twoway_merge-staged default_options changed refl refl refl changed-is_write

oneway_merge-result_example :
    (resolve_result (oneway_merge changed default_options) changed).hash ≡ some (codes "22")
oneway_merge-result_example = oneway_merge-result default_options changed
