-- ===== src/Server/Examples.antt =====
-- The theorems on the server's storage and pushes at a concrete state.
use just_git.Base.{
  ◌≡◌, refl, Bool, true, false, ◌&&◌, none, some, List, [], ◌∷◌, Text, codes, text_eq, All,
  IsDistinct, base_functions,
}
use just_git.RefFormat.{
  disposition, one_more, scan, is_refused_component, check_ref_name_component, check_components,
  check_ref_format,
}
use just_git.Server.Memory.{
  has_repo, NewObject, direct, MemoryStorage, get_obj_map, get_ref_map, set_obj_map, set_ref_map,
  has_object, put_all, put_objects, delete_all, delete_objects, atomic_ref_update,
}
use just_git.Server.Adapter.{
  fork_into, GitRepo, exists, commit_pack, remove_objects, current_hash, same_hash, is_expected,
  swap_in, compare_and_swap_ref,
}
use just_git.Server.Receive.{
  RefUpdate, ServerHooks, name_error, swap_error, swap_update, apply_update, run_update, add_result,
  run_updates, update_verdict, pre_receive_verdict, rollback_ingested_objects, settle,
  apply_receive_pack,
}
use just_git.Server.Observe.{ref_at, SameObjects, SameRefs}
use just_git.Server.Push.{
  names, IsAllowed, apply_receive_pack-untouched, apply_receive_pack-rollback,
  apply_receive_pack-IsAllowed,
}
use just_git.Server.Settled.{AreSet, apply_receive_pack-AreSet}
use just_git.Server.Race.{
  IsAsExpected, compare_and_swap_ref-IsAsExpected, compare_and_swap_ref-race,
}
use just_git.Server.Fork.{forked_ref, ref_at-fork_into}

abbrev main : Text
main = codes "refs/heads/main"

abbrev repo : GitRepo
repo = record { repo_id = codes "r"; parent_id = none }

-- One branch, at "a1".
abbrev start : MemoryStorage
start = record {
  repos = codes "r" ∷ [];
  objects = (codes "r", (codes "a1", record { kind = codes "blob"; content = [] }) ∷ []) ∷ [];
  refs = (codes "r", (main, direct (codes "a1")) ∷ []) ∷ [];
  forks = [];
}

abbrev hooks : ServerHooks
hooks = record { pre_receive = none; update = none }

abbrev batch : List NewObject
batch = record { hash = codes "b2"; kind = codes "blob"; content = 7 ∷ [] } ∷ []

-- A move of the branch from a hash to "b2".
abbrev move : Text → RefUpdate
move old = record {
  ref = main;
  old_hash = some old;
  new_hash = codes "b2";
  is_ff = true;
  is_create = false;
  is_delete = false;
}

-- Opens the functions of a push for an evaluation.
push_functions : Bool
unfolding base_functions disposition one_more scan is_refused_component check_ref_name_component
    check_components check_ref_format get_obj_map get_ref_map set_obj_map set_ref_map has_object
    put_all put_objects delete_all delete_objects atomic_ref_update exists commit_pack
    remove_objects current_hash same_hash is_expected swap_in compare_and_swap_ref name_error
    swap_error swap_update apply_update run_update add_result run_updates update_verdict
    pre_receive_verdict rollback_ingested_objects settle apply_receive_pack
push_functions = true

stale_declined :
    (apply_receive_pack hooks
      (commit_pack start repo batch).1
      repo
      (move (codes "c3") ∷ [])
      (commit_pack start repo batch).0).0.applied
    ≡ []
unfolding push_functions
stale_declined = refl

apply_receive_pack-rollback_example :
    SameObjects
      (apply_receive_pack hooks
        (commit_pack start repo batch).1
        repo
        (move (codes "c3") ∷ [])
        (commit_pack start repo batch).0).1
      start
    × SameRefs
        (apply_receive_pack hooks
          (commit_pack start repo batch).1
          repo
          (move (codes "c3") ∷ [])
          (commit_pack start repo batch).0).1
        start
apply_receive_pack-rollback_example =
    apply_receive_pack-rollback hooks start repo batch (move (codes "c3") ∷ []) stale_declined

abbrev ingested : MemoryStorage
ingested = (commit_pack start repo batch).1

move_applied :
    (apply_receive_pack hooks ingested repo (move (codes "a1") ∷ []) (codes "b2" ∷ [])).0.applied
    ≡ move (codes "a1") ∷ []
unfolding push_functions
move_applied = refl

only_main :
    (text_eq repo.repo_id (codes "r")
      && names
          (codes "refs/heads/other")
          (apply_receive_pack hooks ingested repo
            (move (codes "a1") ∷ [])
            (codes "b2" ∷ [])).0.applied)
    ≡ false
unfolding push_functions
only_main = refl

apply_receive_pack-untouched_example :
    ref_at
      (apply_receive_pack hooks ingested repo (move (codes "a1") ∷ []) (codes "b2" ∷ [])).1
      (codes "r")
      (codes "refs/heads/other")
    ≡ ref_at ingested (codes "r") (codes "refs/heads/other")
apply_receive_pack-untouched_example =
    apply_receive_pack-untouched hooks ingested repo (move (codes "a1") ∷ []) (codes "b2" ∷ [])
      (codes "r") (codes "refs/heads/other") only_main

apply_receive_pack-IsAllowed_example :
    All
      (λ u. IsAllowed u × (update_verdict hooks u ≡ none))
      (apply_receive_pack hooks ingested repo (move (codes "a1") ∷ []) (codes "b2" ∷ [])).0.applied
apply_receive_pack-IsAllowed_example =
    apply_receive_pack-IsAllowed hooks ingested repo (move (codes "a1") ∷ []) (codes "b2" ∷ [])

none_twice : names main [] ≡ false
unfolding push_functions
none_twice = refl

apply_receive_pack-AreSet_example :
    AreSet
      (apply_receive_pack hooks ingested repo (move (codes "a1") ∷ []) (codes "b2" ∷ [])).1
      repo
      (apply_receive_pack hooks ingested repo (move (codes "a1") ∷ []) (codes "b2" ∷ [])).0.applied
apply_receive_pack-AreSet_example =
    apply_receive_pack-AreSet hooks ingested repo (move (codes "a1") ∷ []) (codes "b2" ∷ [])
      (none_twice, tt)

swap_runs :
    (compare_and_swap_ref start repo main (some (codes "a1")) (some (direct (codes "b2")))).0 ≡ true
unfolding push_functions
swap_runs = refl

other_hash : same_hash (some (codes "b2")) (some (codes "a1")) ≡ false
unfolding push_functions
other_hash = refl

compare_and_swap_ref-IsAsExpected_example : IsAsExpected start repo main (some (codes "a1"))
compare_and_swap_ref-IsAsExpected_example =
    compare_and_swap_ref-IsAsExpected start repo main (some (codes "a1"))
      (some (direct (codes "b2"))) swap_runs

compare_and_swap_ref-race_example :
    (compare_and_swap_ref
      (compare_and_swap_ref start repo main (some (codes "a1")) (some (direct (codes "b2")))).1
      repo
      main
      (some (codes "a1"))
      (some (direct (codes "c3")))).0
    ≡ false
compare_and_swap_ref-race_example =
    compare_and_swap_ref-race start repo main (codes "b2") (some (codes "a1"))
      (some (direct (codes "c3"))) other_hash swap_runs

source_is_there : has_repo start (codes "r") ≡ true
unfolding push_functions has_repo
source_is_there = refl

target_is_not_there : has_repo start (codes "f") ≡ false
unfolding push_functions has_repo
target_is_not_there = refl

start-IsDistinct : IsDistinct (get_ref_map start (codes "r")).0
unfolding push_functions
start-IsDistinct = (tt, tt)

ref_at-fork_into_example :
    ref_at (fork_into start (codes "r") (codes "f") none).1 (codes "f") main
    ≡ forked_ref start (codes "r") (codes "f") none main
ref_at-fork_into_example =
    ref_at-fork_into start (codes "r") (codes "f") main none source_is_there target_is_not_there
      start-IsDistinct
