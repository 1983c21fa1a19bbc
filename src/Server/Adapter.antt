-- ===== src/Server/Adapter.antt =====
-- The adapter of src/server/storage.ts over the storage in memory: life of a repository, objects seen
-- through a fork, and refs with compare-and-swap. Every promise settles at once.
use just_git.Base.{
  ℕ, zero, suc, Bool, true, false, not, Option, none, some, List, [], ◌∷◌, ◌++◌, Text, codes,
  text_eq, JsMap, map_get, map_set, map_has, map_delete, if◌then◌else◌,
}
use just_git.Server.Memory.{
  Ref, direct, symbolic, NewObject, RawRefEntry, MemoryStorage, has_repo, insert_repo, delete_repo,
  put_objects, has_object, delete_objects, get_ref, put_ref, list_refs, atomic_ref_update,
  fork_repo, get_fork_parent, list_forks,
}

-- The repository that `buildRepo` makes: its name and that of its parent.
pub record GitRepo : Type 0 where
  pub repo_id : Text
  pub parent_id : Option Text

pub data AdapterError : Type 0 where
  already_exists source_not_found has_active_forks : AdapterError

pub data Outcome (A : Type 0) : Type 0 where
  done : A → Outcome A
  thrown : AdapterError → Outcome A

unfoldable pub build_repo : MemoryStorage → Text → GitRepo
build_repo s repo_id = record { repo_id = repo_id; parent_id = get_fork_parent s repo_id }

-- `refs/heads/<branch>`, the branch "main" where none is given.
unfoldable pub default_head : Option Text → Ref
default_head branch =
    symbolic (codes "refs/heads/" ++ elim branch [ none ↦ codes "main" | some b ↦ b ])

abbrev pub head : Text
head = codes "HEAD"

unfoldable pub create_repo : MemoryStorage → Text → Option Text → Outcome GitRepo × MemoryStorage
create_repo s repo_id default_branch =
    if has_repo s repo_id
    then (thrown already_exists, s)
    else let written = put_ref (insert_repo s repo_id) repo_id head (default_head default_branch) in
      (done (build_repo written repo_id), written)

unfoldable pub open_repo : MemoryStorage → Text → Option GitRepo
open_repo s repo_id = if has_repo s repo_id then some (build_repo s repo_id) else none

unfoldable pub remove_repo : MemoryStorage → Text → Outcome Unit × MemoryStorage
remove_repo s repo_id = elim (list_forks s repo_id) [
  | [] ↦ (done tt, delete_repo s repo_id)
  | ◌∷◌ f fs ↦ (thrown has_active_forks, s)
]

unfoldable pub copy_refs : MemoryStorage → Text → List RawRefEntry → MemoryStorage
copy_refs s target_id [] = s
copy_refs s target_id (entry ∷ entries) =
    copy_refs (put_ref s target_id entry.name entry.target) target_id entries

unfoldable pub fork_refs : MemoryStorage → Text → Text → Option Text → MemoryStorage
fork_refs s source_id target_id default_branch =
    let listed = list_refs s source_id none in
    let copied = copy_refs listed.1 target_id listed.0 in
    let found = get_ref copied source_id head in
    put_ref found.1 target_id head
      (elim found.0 [ some ref ↦ ref | none ↦ default_head default_branch ])

unfoldable pub fork_into :
    MemoryStorage → Text → Text → Option Text → Outcome GitRepo × MemoryStorage
fork_into s source_id target_id default_branch =
    if not (has_repo s source_id)
    then (thrown source_not_found, s)
    else if has_repo s target_id
    then (thrown already_exists, s)
    else let root_id = elim (get_fork_parent s source_id) as (λ _. Text) [
      | some p ↦ p
      | none ↦ source_id
    ] in
      let registered = fork_repo (insert_repo s target_id) root_id target_id in
      let forked = fork_refs registered source_id target_id default_branch in
      (done (build_repo forked target_id), forked)

-- `AdaptedObjectStore.exists`
unfoldable pub exists : MemoryStorage → GitRepo → Text → Bool × MemoryStorage
exists s repo hash =
    let own = has_object s repo.repo_id hash in
    if own.0
    then (true, own.1)
    else elim repo.parent_id [ none ↦ (false, own.1) | some parent ↦ has_object own.1 parent hash ]

unfoldable pub commit_pack : MemoryStorage → GitRepo → List NewObject → List Text × MemoryStorage
commit_pack s repo [] = ([], s)
commit_pack s repo (obj ∷ batch) = put_objects s repo.repo_id (obj ∷ batch)

unfoldable pub remove_objects : MemoryStorage → GitRepo → List Text → ℕ × MemoryStorage
remove_objects s repo [] = (0, s)
remove_objects s repo (hash ∷ hashes) = delete_objects s repo.repo_id (hash ∷ hashes)

-- `resolveRefChain`, with the rounds left up to its bound of eleven as the fuel.
unfoldable pub resolve_ref_chain : ℕ → (Text → Option Ref) → Text → Option Text
resolve_ref_chain zero read_ref target = none
resolve_ref_chain (suc rounds) read_ref target = elim (read_ref target) [
  | none ↦ none
  | some ref ↦ elim ref [
    | direct hash ↦ some hash
    | symbolic next ↦ resolve_ref_chain rounds read_ref next
  ]
]

unfoldable pub current_hash : JsMap Ref → Option Ref → Option Text
current_hash refs none = none
current_hash refs (some (direct hash)) = some hash
current_hash refs (some (symbolic target)) = resolve_ref_chain 11 (map_get refs) target

unfoldable pub same_hash : Option Text → Option Text → Bool
same_hash none none = true
same_hash (some a) (some b) = text_eq a b
same_hash none (some b) = false
same_hash (some a) none = false

-- The test on the expected hash in the callback of `compareAndSwapRef`.
unfoldable pub is_expected : JsMap Ref → Text → Option Text → Bool
is_expected refs name none = not (map_has refs name)
is_expected refs name (some expected) =
    same_hash (current_hash refs (map_get refs name)) (some expected)

unfoldable pub swap_in : JsMap Ref → Text → Option Text → Option Ref → Bool × JsMap Ref
swap_in refs name expected_old new_ref =
    if is_expected refs name expected_old
    then (true, elim new_ref [ none ↦ map_delete refs name | some ref ↦ map_set refs name ref ])
    else (false, refs)

unfoldable pub compare_and_swap_ref :
    MemoryStorage → GitRepo → Text → Option Text → Option Ref → Bool × MemoryStorage
compare_and_swap_ref s repo name expected_old new_ref =
    atomic_ref_update s repo.repo_id (λ refs. swap_in refs name expected_old new_ref)
