-- ===== src/Server/Swap.antt =====
-- Proofs about a round of a push in src/server/operations.ts: the refs and objects that it changes.
use just_git.Base.{
  ◌≡◌, ap, ◌∙◌, not, ◌&&◌, Option, none, some, arith, Text, text_eq, text_eq_iff, is_some, JsMap,
  map_get, map_get-map_set, map_get-map_delete, if◌then◌else◌,
}
use just_git.Server.Memory.{
  Ref, direct, MemoryStorage, get_ref_map, set_ref_map, has_object, atomic_ref_update,
}
use just_git.Server.Adapter.{GitRepo, exists, swap_in, is_expected, compare_and_swap_ref}
use just_git.Server.Receive.{RefUpdate, swap_error, swap_update, apply_update, run_update}
use just_git.Server.Observe.{
  object_at, ref_at, value_at, SameObjects, SameRefs, get_ref_map_lem, ref_at-set_ref_map,
  refs-get_obj_map, object_at-get_obj_map, objects-get_ref_map,
}

swap_in_lem :
    (refs : JsMap Ref) (name n : Text) (old : Option Text) (new : Option Ref)
    → map_get (swap_in refs name old new).1 n
      ≡ (if is_expected refs name old && text_eq name n then new else map_get refs n)
unfolding swap_in
swap_in_lem refs name n old none = ground (arith, map_get-map_delete refs name n)
swap_in_lem refs name n old (some r) = ground (arith, map_get-map_set refs name n r)

-- A compare-and-swap changes at most the ref that it names, and that only if it succeeds.
pub compare_and_swap_ref_lem :
    (s : MemoryStorage) (repo : GitRepo) (name other n : Text) (old : Option Text)
    (new : Option Ref)
    → ref_at (compare_and_swap_ref s repo name old new).1 other n ≡ (
        if (compare_and_swap_ref s repo name old new).0
          && text_eq repo.repo_id other
          && text_eq name n
        then new
        else ref_at s other n)
unfolding compare_and_swap_ref atomic_ref_update
compare_and_swap_ref_lem s repo name other n old new =
    ref_at-set_ref_map s repo.repo_id other n
      (swap_in (get_ref_map s repo.repo_id).0 name old new).1
    ∙ ground (
      arith,
      swap_in_lem (get_ref_map s repo.repo_id).0 name n old new,
      get_ref_map_lem s repo.repo_id n,
      text_eq_iff repo.repo_id other,
      swap_in-ok (get_ref_map s repo.repo_id).0 name old new,
    )
  where
    swap_in-ok :
        (refs : JsMap Ref) (name : Text) (old : Option Text) (new : Option Ref)
        → (swap_in refs name old new).0 ≡ is_expected refs name old
    swap_in-ok refs name old new = unfold swap_in in ground arith

SameObjects-compare_and_swap_ref :
    (s : MemoryStorage) (repo : GitRepo) (name : Text) (old : Option Text) (new : Option Ref)
    → SameObjects (compare_and_swap_ref s repo name old new).1 s
unfolding compare_and_swap_ref atomic_ref_update set_ref_map
SameObjects-compare_and_swap_ref s repo name old new other hash =
    ap (λ o. value_at o other hash) (objects-get_ref_map s repo.repo_id)

SameRefs-has_object :
    (s : MemoryStorage) (repo_id hash : Text) → SameRefs (has_object s repo_id hash).1 s
unfolding has_object
SameRefs-has_object s repo_id hash other n =
    ap (λ o. value_at o other n) (refs-get_obj_map s repo_id)

SameObjects-has_object :
    (s : MemoryStorage) (repo_id hash : Text) → SameObjects (has_object s repo_id hash).1 s
unfolding has_object
SameObjects-has_object s repo_id hash other h = object_at-get_obj_map s repo_id other h

pub SameRefs-exists :
    (s : MemoryStorage) (repo : GitRepo) (hash : Text) → SameRefs (exists s repo hash).1 s
unfolding exists
SameRefs-exists s repo hash other n =
    elim repo.parent_id
      as (λ p.
        ref_at (exists s (record repo { parent_id = p }) hash).1 other n ≡ ref_at s other n) [
          | none ↦ ground (arith, SameRefs-has_object s repo.repo_id hash other n)
          | some p ↦ ground (
            arith,
            SameRefs-has_object s repo.repo_id hash other n,
            SameRefs-has_object (has_object s repo.repo_id hash).1 p hash other n,
          )
        ]

pub SameObjects-exists :
    (s : MemoryStorage) (repo : GitRepo) (hash : Text) → SameObjects (exists s repo hash).1 s
unfolding exists
SameObjects-exists s repo hash other n =
    elim repo.parent_id
      as (λ p.
        object_at (exists s (record repo { parent_id = p }) hash).1 other n ≡ object_at s other n) [
          | none ↦ ground (arith, SameObjects-has_object s repo.repo_id hash other n)
          | some p ↦ ground (
            arith,
            SameObjects-has_object s repo.repo_id hash other n,
            SameObjects-has_object (has_object s repo.repo_id hash).1 p hash other n,
          )
        ]

-- The ref that an update writes.
abbrev pub new_ref : RefUpdate → Option Ref
new_ref update = if update.is_delete then none else some (direct update.new_hash)

abbrev expected_old : RefUpdate → Option Text
expected_old update = if update.is_create then none else update.old_hash

-- What one of the steps below leaves at a ref.
abbrev WritesRef :
    MemoryStorage → GitRepo → RefUpdate → Option Text × MemoryStorage → Text → Text → Type 0
WritesRef s repo u (e, t) other n = ref_at t other n ≡ (
    if not (is_some e) && text_eq repo.repo_id other && text_eq u.ref n
    then new_ref u
    else ref_at s other n)

swap_update-refs :
    (s : MemoryStorage) (repo : GitRepo) (u : RefUpdate) (other n : Text)
    → WritesRef s repo u (swap_update s repo u) other n
unfolding swap_update swap_error
swap_update-refs s repo u other n =
    ground (arith, compare_and_swap_ref_lem s repo u.ref other n (expected_old u) (new_ref u))

apply_update-refs :
    (s : MemoryStorage) (repo : GitRepo) (u : RefUpdate) (other n : Text)
    → WritesRef s repo u (apply_update s repo u) other n
unfolding apply_update
apply_update-refs s repo u other n = ground (
  arith,
  swap_update-refs s repo u other n,
  swap_update-refs (exists s repo u.new_hash).1 repo u other n,
  SameRefs-exists s repo u.new_hash other n,
)

-- A round that refuses an update leaves every ref, and one that applies it writes its ref only.
pub run_update-refs :
    (verdict : RefUpdate → Option Text) (s : MemoryStorage) (repo : GitRepo) (u : RefUpdate)
    (other n : Text)
    → WritesRef s repo u (run_update verdict s repo u) other n
unfolding run_update
run_update-refs verdict s repo u other n = ground (arith, apply_update-refs s repo u other n)

swap_update-objects :
    (s : MemoryStorage) (repo : GitRepo) (u : RefUpdate) → SameObjects (swap_update s repo u).1 s
unfolding swap_update
swap_update-objects s repo u =
    SameObjects-compare_and_swap_ref s repo u.ref (expected_old u) (new_ref u)

-- A round leaves every object.
pub run_update-objects :
    (verdict : RefUpdate → Option Text) (s : MemoryStorage) (repo : GitRepo) (u : RefUpdate)
    → SameObjects (run_update verdict s repo u).1 s
unfolding run_update apply_update
run_update-objects verdict s repo u other hash = ground (
  arith,
  swap_update-objects s repo u other hash,
  swap_update-objects (exists s repo u.new_hash).1 repo u other hash,
  SameObjects-exists s repo u.new_hash other hash,
)
