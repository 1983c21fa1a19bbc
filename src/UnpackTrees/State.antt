-- ===== src/UnpackTrees/State.antt =====
-- The types of src/lib/unpack-trees.ts. The lazy getters of a path's state are the values that they
-- give; `none` is `null`.
use just_git.Base.{ℕ, Bool, ◌&&◌, not, Option, List, Text, is_some}
use just_git.Base.ParseInt.{ParsedInt}
use just_git.Index.{ObjectId, IndexEntry}

pub data UnpackError : Type 0 where
  would_overwrite not_uptodate_file would_lose_untracked_overwritten : UnpackError
  would_lose_untracked_removed : UnpackError

pub record RejectedPath : Type 0 where
  pub path : Text
  pub error : UnpackError

-- `string | number`: a tree's mode is a string, an index entry's a number.
pub data Mode : Type 0 where
  text : Text → Mode
  number : ParsedInt → Mode

pub record PathState : Type 0 where
  pub path : Text
  pub base_hash : Option ObjectId
  pub head_hash : Option ObjectId
  pub remote_hash : Option ObjectId
  pub index_hash : Option ObjectId
  pub index_mode : Option ParsedInt
  pub index_stage : ℕ
  pub exists_on_disk : Bool
  pub is_ignored_on_disk : Bool
  pub worktree_hash : Option ObjectId
  pub worktree_mode : Option ParsedInt
  pub head_mode : Option Text
  pub remote_mode : Option Text

-- On disk, and not in the index.
unfoldable pub is_untracked : PathState → Bool
is_untracked state = state.exists_on_disk && not (is_some state.index_hash)

pub data MergeAction : Type 0 where
  keep take delete skip : MergeAction

pub data TakeFrom : Type 0 where
  head remote base : TakeFrom

pub data PreconditionRequirement : Type 0 where
  index_must_not_exist index_must_match_head index_must_match_result : PreconditionRequirement
  worktree_must_be_uptodate no_untracked no_untracked_removed : PreconditionRequirement

-- `caseNumber` is for debugging only and is left out.
pub record MergeDecision : Type 0 where
  pub action : MergeAction
  pub take_from : Option TakeFrom
  pub requirements : List PreconditionRequirement

-- The options but for the merge function, which `unpack_trees` takes beside them, and the texts of
-- the messages.
pub record UnpackOptions : Type 0 where
  pub update_worktree : Bool
  pub reset : Bool
  pub stop_at_first_error : Bool
  pub stripped_conflict_paths : List Text
  pub allow_staged_changes : Bool
  pub error_exit_code : ℕ
  pub operation_name : Text
  pub action_hint : Option Text

abbrev pub MergeFn : Type 0
MergeFn = PathState → UnpackOptions → MergeDecision

pub data OpType : Type 0 where
  checkout delete : OpType

pub record WorktreeOp : Type 0 where
  pub path : Text
  pub type : OpType
  pub hash : Option ObjectId
  pub mode : Option ParsedInt

pub record FlatTreeEntry : Type 0 where
  pub hash : ObjectId
  pub mode : Text

pub record ErrorOutput : Type 0 where
  pub stdout : Text
  pub stderr : Text
  pub exit_code : ℕ

-- `success: true` with the new entries and operations, or `success: false` with the errors.
pub data UnpackResult : Type 0 where
  unpacked : List IndexEntry → List WorktreeOp → UnpackResult
  refused : List RejectedPath → ErrorOutput → UnpackResult
