-- ===== src/UnpackTrees/Build.antt =====
-- The path states and the result of src/lib/unpack-trees.ts.
use just_git.Base.{
  Bool, true, false, ◌&&◌, not, Option, none, some, List, [], ◌∷◌, ◌++◌, Text, ◌==◌, if◌then◌else◌,
  JsMap, map_get, map_has, map_set, set_has, set_add, sort_by, sort_texts, filter,
}
use just_git.Base.ParseInt.{ParsedInt, int, parse_int}
use just_git.Index.{ObjectId, IndexEntry, Index, default_stat, entry_before}
use just_git.UnpackTrees.State.{
  PathState, MergeDecision, MergeAction, keep, take, skip, TakeFrom, head, UnpackOptions, OpType,
  checkout, WorktreeOp, FlatTreeEntry,
}

-- What the worktree walk and the file system answer. `files` are the files on disk, `visible` those
-- that no ignore rule hides; the hash of a cleaned file may depend on the indexed hash, and its mode
-- on the index entry. `none` where the file cannot be read.
pub record Worktree : Type 0 where
  pub files : List Text
  pub visible : List Text
  pub cleaned_hash : Text → Option ObjectId → Option ObjectId
  pub file_mode : Text → Option IndexEntry → Option ParsedInt

unfoldable pub stage0_map : List IndexEntry → JsMap IndexEntry → JsMap IndexEntry
stage0_map [] m = m
stage0_map (e ∷ es) m = stage0_map es (if e.stage == 0 then map_set m e.path e else m)

conflict_paths : List IndexEntry → List Text → List Text
conflict_paths [] s = s
conflict_paths (e ∷ es) s = conflict_paths es (if e.stage == 0 then s else set_add s e.path)

add_keys : JsMap FlatTreeEntry → List Text → List Text
add_keys [] s = s
add_keys ((k, e) ∷ m) s = add_keys m (set_add s k)

tree_paths : List (JsMap FlatTreeEntry) → List Text → List Text
unfolding add_keys
tree_paths [] s = s
tree_paths (m ∷ ms) s = tree_paths ms (add_keys m s)

index_only : List Text → List IndexEntry → List Text → List Text
index_only trees [] s = s
index_only trees (e ∷ es) s =
    index_only trees es (if not (set_has trees e.path) then set_add s e.path else s)

worktree_only : List Text → List Text → List Text → List Text
worktree_only trees [] s = s
worktree_only trees (f ∷ fs) s =
    worktree_only trees fs (if not (set_has trees f) then set_add s f else s)

-- Tree paths first, and then those of the index and the worktree alone.
unfoldable pub sorted_paths : List (JsMap FlatTreeEntry) → List IndexEntry → List Text → List Text
unfolding tree_paths index_only worktree_only sort_texts
sorted_paths tree_maps entries files =
    let trees = tree_paths tree_maps [] in
    let others = worktree_only trees files (index_only trees entries []) in
    sort_texts trees ++ sort_texts others

abbrev hash_of : Option FlatTreeEntry → Option ObjectId
hash_of none = none
hash_of (some e) = some e.hash

abbrev mode_of : Option FlatTreeEntry → Option Text
mode_of none = none
mode_of (some e) = some e.mode

-- The entries of a path in the base, head and remote trees.
tree_entries :
    List (JsMap FlatTreeEntry)
    → Text
    → Option FlatTreeEntry × Option FlatTreeEntry × Option FlatTreeEntry
tree_entries [] path = (none, none, none)
tree_entries (r ∷ []) path = (none, none, map_get r path)
tree_entries (h ∷ r ∷ []) path = (none, map_get h path, map_get r path)
tree_entries (b ∷ h ∷ r ∷ more) path = (map_get b path, map_get h path, map_get r path)

abbrev index_hash_of : Option IndexEntry → Option ObjectId
index_hash_of none = none
index_hash_of (some e) = some e.hash

abbrev index_mode_of : Option IndexEntry → Option ParsedInt
index_mode_of none = none
index_mode_of (some e) = some e.mode

unfoldable pub path_state :
    Worktree → List (JsMap FlatTreeEntry) → JsMap IndexEntry → List Text → Text → PathState
unfolding tree_entries
path_state worktree tree_maps stage0 conflicts path =
    let (b, h, r) = tree_entries tree_maps path in
    let index_entry = map_get stage0 path in
    let exists = set_has worktree.files path in
    record {
      path = path;
      base_hash = hash_of b;
      head_hash = hash_of h;
      remote_hash = hash_of r;
      index_hash = index_hash_of index_entry;
      index_mode = index_mode_of index_entry;
      index_stage = if set_has conflicts path then 1 else 0;
      exists_on_disk = exists;
      is_ignored_on_disk = exists && not (set_has worktree.visible path);
      worktree_hash =
          if exists then worktree.cleaned_hash path (index_hash_of index_entry) else none;
      worktree_mode = if exists then worktree.file_mode path index_entry else none;
      head_mode = mode_of h;
      remote_mode = mode_of r;
    }

path_states :
    Worktree
    → List (JsMap FlatTreeEntry)
    → JsMap IndexEntry
    → List Text
    → List Text
    → List PathState
unfolding path_state
path_states worktree tree_maps stage0 conflicts [] = []
path_states worktree tree_maps stage0 conflicts (p ∷ ps) =
    path_state worktree tree_maps stage0 conflicts p
    ∷ path_states worktree tree_maps stage0 conflicts ps

unfoldable pub build_path_states : Worktree → List (JsMap FlatTreeEntry) → Index → List PathState
unfolding path_states stage0_map conflict_paths sorted_paths
build_path_states worktree tree_maps index =
    path_states worktree tree_maps (stage0_map index.entries []) (conflict_paths index.entries [])
      (sorted_paths tree_maps index.entries worktree.files)

abbrev regular_file : ParsedInt
regular_file = int 0o100644

-- `mode ? Number.parseInt(mode, 8) : 0o100644`
unfoldable pub numeric_mode : Option Text → ParsedInt
numeric_mode none = regular_file
numeric_mode (some []) = regular_file
numeric_mode (some (c ∷ s)) = parse_int (c ∷ s) 8

abbrev pub Built : Type 0
Built = List IndexEntry × List WorktreeOp

build_keep : UnpackOptions → Text → Option IndexEntry → Built
build_keep opts path none = ([], [])
build_keep opts path (some e) = (
  e ∷ [],
  if opts.reset && opts.update_worktree
      then record { path = path; type = checkout; hash = some e.hash; mode = some e.mode } ∷ []
      else [],
)

-- A hash that is missing from the tree would be `null as ObjectId`: such an entry has the hash "",
-- and its operation none. The merge functions never take from a tree that lacks the path.
build_take : UnpackOptions → PathState → Option TakeFrom → Text → Built
unfolding numeric_mode
build_take opts state from path =
    let from_head : Bool = elim from [ some head ↦ true | _ ↦ false ] in
    let hash = if from_head then state.head_hash else state.remote_hash in
    let mode = numeric_mode (if from_head then state.head_mode else state.remote_mode) in
    (
      record {
        path = path;
        mode = mode;
        hash = elim hash [ none ↦ [] | some h ↦ h ];
        stage = 0;
        stat = default_stat;
      }
          ∷ [],
      if opts.update_worktree
          then record { path = path; type = checkout; hash = hash; mode = some mode } ∷ []
          else [],
    )

build_delete : UnpackOptions → PathState → Text → Built
build_delete opts state path = (
  [],
  if opts.update_worktree && state.exists_on_disk
      then record { path = path; type = OpType.delete; hash = none; mode = none } ∷ []
      else [],
)

-- What one decision adds to the entries and to the operations.
unfoldable pub build_action :
    UnpackOptions → JsMap IndexEntry → PathState → Text → MergeAction → Option TakeFrom → Built
unfolding build_keep build_take build_delete
build_action opts stage0 state path keep from = build_keep opts path (map_get stage0 path)
build_action opts stage0 state path take from = build_take opts state from path
build_action opts stage0 state path MergeAction.delete from = build_delete opts state path
build_action opts stage0 state path skip from = ([], [])

abbrev pub build_decision :
    UnpackOptions → JsMap IndexEntry → PathState → Text → MergeDecision → Built
build_decision opts stage0 state path decision =
    build_action opts stage0 state path decision.action decision.take_from

unfoldable pub build_decisions :
    UnpackOptions → JsMap IndexEntry → JsMap PathState → JsMap MergeDecision → Built
build_decisions opts stage0 states [] = ([], [])
build_decisions opts stage0 states ((path, decision) ∷ rest) =
    let later = build_decisions opts stage0 states rest in
    elim (map_get states path) [
      | none ↦ later
      | some state ↦
          (let now = build_decision opts stage0 state path decision in
            (now.0 ++ later.0, now.1 ++ later.1))
    ]

unfoldable pub build_result : JsMap MergeDecision → JsMap PathState → Index → UnpackOptions → Built
build_result decisions states index opts =
    let untouched = filter (λ e. not (map_has decisions e.path)) index.entries in
    let built = build_decisions opts (stage0_map index.entries []) states decisions in
    (sort_by entry_before (untouched ++ built.0), built.1)
