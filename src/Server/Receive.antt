-- ===== src/Server/Receive.antt =====
-- The ref updates of src/server/operations.ts: the updates of a push, compare-and-swap of each, and
-- the run of a push with its hooks. A hook is a function of the updates: what it rejects, if it does.
-- `isAncestor`, which reads the commits, is a parameter; none is its exception.
use just_git.Base.{
  Bool, true, false, not, ◌&&◌, Option, none, some, List, [], ◌∷◌, map, Text, codes, text_eq,
  if◌then◌else◌,
}
use just_git.RefFormat.{check_ref_format}
use just_git.Server.Memory.{MemoryStorage, direct}
use just_git.Server.Adapter.{GitRepo, head, exists, remove_objects, compare_and_swap_ref}

pub record PushCommand : Type 0 where
  pub old_hash : Text
  pub new_hash : Text
  pub ref_name : Text

pub record RefUpdate : Type 0 where
  pub ref : Text
  pub old_hash : Option Text
  pub new_hash : Text
  pub is_ff : Bool
  pub is_create : Bool
  pub is_delete : Bool

pub record RefResult : Type 0 where
  pub ref : Text
  pub ok : Bool
  pub error : Option Text

pub record RefUpdateResult : Type 0 where
  pub ref_results : List RefResult
  pub applied : List RefUpdate

abbrev pub zero_hash : Text
zero_hash = codes "0000000000000000000000000000000000000000"

-- `err` is caught: `isFF` stays false.
unfoldable pub ancestry : Option Bool → Bool
ancestry none = false
ancestry (some b) = b

unfoldable pub build_ref_update : (Text → Text → Option Bool) → Bool → PushCommand → RefUpdate
unfolding ancestry
build_ref_update is_ancestor unpack_ok cmd =
    if text_eq cmd.old_hash zero_hash
    then record {
      ref = cmd.ref_name;
      old_hash = none;
      new_hash = cmd.new_hash;
      is_ff = false;
      is_create = true;
      is_delete = false;
    }
    else if text_eq cmd.new_hash zero_hash
    then record {
      ref = cmd.ref_name;
      old_hash = some cmd.old_hash;
      new_hash = cmd.new_hash;
      is_ff = false;
      is_create = false;
      is_delete = true;
    }
    else record {
      ref = cmd.ref_name;
      old_hash = some cmd.old_hash;
      new_hash = cmd.new_hash;
      is_ff = unpack_ok && ancestry (is_ancestor cmd.old_hash cmd.new_hash);
      is_create = false;
      is_delete = false;
    }

unfoldable pub build_ref_updates :
    (Text → Text → Option Bool) → List PushCommand → Bool → List RefUpdate
build_ref_updates is_ancestor commands unpack_ok =
    map (build_ref_update is_ancestor unpack_ok) commands

-- The two tests at the start of a round.
unfoldable pub name_error : RefUpdate → Option Text
name_error update =
    if text_eq update.ref head
    then some (codes "HEAD cannot be updated via push")
    else if not update.is_delete && not (check_ref_format update.ref false false)
    then some (codes "invalid refname")
    else none

unfoldable pub swap_error : Bool → Option Text
swap_error ok = if ok then none else some (codes "failed to lock")

-- The compare-and-swap of a round. The storage in memory throws nothing.
unfoldable pub swap_update : MemoryStorage → GitRepo → RefUpdate → Option Text × MemoryStorage
unfolding swap_error
swap_update s repo update =
    let expected_old = if update.is_create then none else update.old_hash in
    let new_ref = if update.is_delete then none else some (direct update.new_hash) in
    let swapped = compare_and_swap_ref s repo update.ref expected_old new_ref in
    (swap_error swapped.0, swapped.1)

-- The test for the object, and the compare-and-swap.
unfoldable pub apply_update : MemoryStorage → GitRepo → RefUpdate → Option Text × MemoryStorage
apply_update s repo update =
    if update.is_delete
    then swap_update s repo update
    else let known = exists s repo update.new_hash in
      if known.0 then swap_update known.1 repo update else (some (codes "missing objects"), known.1)

-- One update, where `verdict` is the error of the update hook.
unfoldable pub run_update :
    (RefUpdate → Option Text) → MemoryStorage → GitRepo → RefUpdate → Option Text × MemoryStorage
run_update verdict s repo update = elim (name_error update) [
  | some e ↦ (some e, s)
  | none ↦ elim (verdict update) [ some e ↦ (some e, s) | none ↦ apply_update s repo update ]
]

unfoldable pub add_result : RefUpdate → Option Text → RefUpdateResult → RefUpdateResult
add_result update none rest = record {
  ref_results = record { ref = update.ref; ok = true; error = none } ∷ rest.ref_results;
  applied = update ∷ rest.applied;
}
add_result update (some e) rest = record {
  ref_results = record { ref = update.ref; ok = false; error = some e } ∷ rest.ref_results;
  applied = rest.applied;
}

unfoldable pub run_updates :
    (RefUpdate → Option Text)
    → MemoryStorage
    → GitRepo
    → List RefUpdate
    → RefUpdateResult × MemoryStorage
run_updates verdict s repo [] = (record { ref_results = []; applied = [] }, s)
run_updates verdict s repo (update ∷ updates) =
    let ran = run_update verdict s repo update in
    let rest = run_updates verdict ran.1 repo updates in (add_result update ran.0 rest.0, rest.1)

unfoldable pub apply_cas_ref_updates :
    MemoryStorage → GitRepo → List RefUpdate → RefUpdateResult × MemoryStorage
apply_cas_ref_updates s repo updates = run_updates (λ _. none) s repo updates

pub record Rejection : Type 0 where
  pub message : Option Text

-- The hooks that can reject; `postReceive`, which changes no result, is left out.
pub record ServerHooks : Type 0 where
  pub pre_receive : Option (List RefUpdate → Option Rejection)
  pub update : Option (RefUpdate → Option Rejection)

unfoldable pub rejection_message : Text → Rejection → Text
rejection_message default r = elim r.message [ none ↦ default | some m ↦ m ]

unfoldable pub update_verdict : ServerHooks → RefUpdate → Option Text
unfolding rejection_message
update_verdict hooks update = elim hooks.update [
  | none ↦ none
  | some hook ↦ elim (hook update) [
    | none ↦ none
    | some r ↦ some (rejection_message (codes "update hook declined") r)
  ]
]

unfoldable pub pre_receive_verdict : ServerHooks → List RefUpdate → Option Text
unfolding rejection_message
pre_receive_verdict hooks updates = elim hooks.pre_receive [
  | none ↦ none
  | some hook ↦ elim (hook updates) [
    | none ↦ none
    | some r ↦ some (rejection_message (codes "pre-receive hook declined") r)
  ]
]

-- `rollbackIngestedObjects`, on the object store of the adapter, where hashes are given.
unfoldable pub rollback_ingested_objects : MemoryStorage → GitRepo → List Text → MemoryStorage
rollback_ingested_objects s repo hashes = (remove_objects s repo hashes).1

unfoldable pub declined : Text → List RefUpdate → RefUpdateResult
declined message updates = record {
  ref_results = map (λ u. record { ref = u.ref; ok = false; error = some message }) updates;
  applied = [];
}

-- The rollback after the updates.
unfoldable pub settle :
    GitRepo → List Text → RefUpdateResult × MemoryStorage → RefUpdateResult × MemoryStorage
settle repo ingested (result, s) = elim result.applied [
  | [] ↦ (result, rollback_ingested_objects s repo ingested)
  | ◌∷◌ u us ↦ (result, s)
]

unfoldable pub apply_receive_pack :
    ServerHooks
    → MemoryStorage
    → GitRepo
    → List RefUpdate
    → List Text
    → RefUpdateResult × MemoryStorage
unfolding settle
apply_receive_pack hooks s repo updates ingested = elim (pre_receive_verdict hooks updates) [
  | some message ↦ (declined message updates, rollback_ingested_objects s repo ingested)
  | none ↦ settle repo ingested (run_updates (update_verdict hooks) s repo updates)
]
