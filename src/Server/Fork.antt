-- ===== src/Server/Fork.antt =====
-- Proofs about `forkRepo` of src/server/storage.ts: the refs of a fork.
use just_git.Base.{
  ◌≡◌, refl, ap, ◌∙◌, subst, true, false, ◌&&◌, Option, none, some, List, [], ◌∷◌, map, filter,
  arith, Text, text_eq, text_eq_iff, text_eq_refl, JsMap, map_get, map_set, map_get-map_set,
  IsFresh, IsDistinct, if◌then◌else◌,
}
use just_git.Server.Memory.{
  Ref, RawRefEntry, MemoryStorage, has_repo, insert_repo, fork_repo, get_fork_parent, get_ref_map,
  put_ref, get_ref, list_refs, is_wanted,
}
use just_git.Server.Adapter.{head, default_head, copy_refs, fork_refs, fork_into}
use just_git.Server.Observe.{
  ref_at, get_ref_map_lem, ref_at-get_ref_map, ref_at-set_ref_map, get_ref_lem,
}

put_ref_lem :
    (s : MemoryStorage) (repo_id name other n : Text) (r : Ref)
    → ref_at (put_ref s repo_id name r) other n
      ≡ (if text_eq repo_id other && text_eq name n then some r else ref_at s other n)
unfolding put_ref
put_ref_lem s repo_id name other n r =
    ref_at-set_ref_map s repo_id other n (map_set (get_ref_map s repo_id).0 name r)
    ∙ ground (
      arith,
      map_get-map_set (get_ref_map s repo_id).0 name n r,
      get_ref_map_lem s repo_id n,
      text_eq_iff repo_id other,
    )

map_get-IsFresh : (m : JsMap Ref) (k : Text) → IsFresh k m → map_get m k ≡ none
unfolding map_get
map_get-IsFresh [] k f = refl
map_get-IsFresh ((j, v) ∷ m) k f =
    ground (arith, text_eq_iff j k, text_eq_iff k j, map_get-IsFresh m k f.1, f.0)

abbrev entries : JsMap Ref → List RawRefEntry
entries m = map (λ e. record { name = e.0; target = e.1 }) m

abbrev or_else : Option Ref → Option Ref → Option Ref
or_else none o = o
or_else (some r) o = some r

copy_refs_lem :
    (m : JsMap Ref) (s : MemoryStorage) (target_id n : Text)
    → IsDistinct m
    → ref_at (copy_refs s target_id (entries m)) target_id n
      ≡ or_else (map_get m n) (ref_at s target_id n)
unfolding copy_refs map_get
copy_refs_lem [] s target_id n d = refl
copy_refs_lem ((k, v) ∷ m) s target_id n d =
    copy_refs_lem m (put_ref s target_id k v) target_id n d.1
    ∙ ap (or_else (map_get m n)) (put_ref_lem s target_id k target_id n v)
    ∙ ground (arith, text_eq_iff k n, text_eq_refl target_id, map_get-IsFresh m k d.0)

copy_refs-other :
    (es : List RawRefEntry) (s : MemoryStorage) (target_id other n : Text)
    → text_eq target_id other ≡ false
    → ref_at (copy_refs s target_id es) other n ≡ ref_at s other n
unfolding copy_refs
copy_refs-other [] s target_id other n h = refl
copy_refs-other (e ∷ es) s target_id other n h =
    copy_refs-other es (put_ref s target_id e.name e.target) target_id other n h
    ∙ put_ref_lem s target_id e.name other n e.target
    ∙ ground (arith, h)

wanted_all : (m : JsMap Ref) → filter (λ e. is_wanted none e.0) m ≡ m
unfolding filter is_wanted
wanted_all [] = refl
wanted_all (e ∷ m) = ap (λ l. e ∷ l) (wanted_all m)

list_refs_lem :
    (s : MemoryStorage) (repo_id : Text)
    → (list_refs s repo_id none).0 ≡ entries (get_ref_map s repo_id).0
unfolding list_refs
list_refs_lem s repo_id = ap entries (wanted_all (get_ref_map s repo_id).0)

-- The ref of the source; HEAD of the default branch and the others of the target where it has none.
abbrev pub forked_ref : MemoryStorage → Text → Text → Option Text → Text → Option Ref
forked_ref s source_id target_id default_branch n =
    or_else (ref_at s source_id n)
      (if text_eq head n then some (default_head default_branch) else ref_at s target_id n)

ref_at-get_ref :
    (s : MemoryStorage) (repo_id key other n : Text)
    → ref_at (get_ref s repo_id key).1 other n ≡ ref_at s other n
unfolding get_ref
ref_at-get_ref s repo_id key other n = ref_at-get_ref_map s repo_id other n

ref_at-list_refs :
    (s : MemoryStorage) (repo_id other n : Text)
    → ref_at (list_refs s repo_id none).1 other n ≡ ref_at s other n
unfolding list_refs
ref_at-list_refs s repo_id other n = ref_at-get_ref_map s repo_id other n

copied_target :
    (s : MemoryStorage) (source_id target_id n : Text)
    → IsDistinct (get_ref_map s source_id).0
    → ref_at
        (copy_refs (list_refs s source_id none).1 target_id (list_refs s source_id none).0)
        target_id
        n
      ≡ or_else (ref_at s source_id n) (ref_at s target_id n)
copied_target s source_id target_id n d =
    ap (λ es. ref_at (copy_refs (list_refs s source_id none).1 target_id es) target_id n)
      (list_refs_lem s source_id)
    ∙ copy_refs_lem (get_ref_map s source_id).0 (list_refs s source_id none).1 target_id n d
    ∙ ap (λ o. or_else o (ref_at (list_refs s source_id none).1 target_id n))
        (get_ref_map_lem s source_id n)
    ∙ ap (or_else (ref_at s source_id n)) (ref_at-list_refs s source_id target_id n)

-- The head that is read from the source, which the copies leave.
copied_source :
    (s : MemoryStorage) (source_id target_id n : Text)
    → text_eq target_id source_id ≡ false
    → (get_ref
        (copy_refs (list_refs s source_id none).1 target_id (list_refs s source_id none).0)
        source_id
        n).0
      ≡ ref_at s source_id n
copied_source s source_id target_id n h =
    get_ref_lem (copy_refs (list_refs s source_id none).1 target_id (list_refs s source_id none).0)
      source_id n
    ∙ copy_refs-other (list_refs s source_id none).0 (list_refs s source_id none).1 target_id
        source_id n h
    ∙ ref_at-list_refs s source_id source_id n

fork_refs_lem :
    (s : MemoryStorage) (source_id target_id n : Text) (default_branch : Option Text)
    → text_eq target_id source_id ≡ false
    → IsDistinct (get_ref_map s source_id).0
    → ref_at (fork_refs s source_id target_id default_branch) target_id n
      ≡ forked_ref s source_id target_id default_branch n
unfolding fork_refs
fork_refs_lem s source_id target_id n default_branch h d =
    let listed = list_refs s source_id none in
    let c = copy_refs listed.1 target_id listed.0 in
    let found = get_ref c source_id head in
    let r : Ref = elim found.0 [ some ref ↦ ref | none ↦ default_head default_branch ] in
    put_ref_lem found.1 target_id head target_id n r
    ∙ ground (
      arith,
      text_eq_refl target_id,
      text_eq_iff head n,
      ref_at-get_ref c source_id head target_id n,
      copied_target s source_id target_id n d,
      copied_source s source_id target_id head h,
    )

-- The map of a repository's refs depends on no other field.
same_map :
    (s t : MemoryStorage) (repo_id : Text)
    → s.refs ≡ t.refs
    → (get_ref_map s repo_id).0 ≡ (get_ref_map t repo_id).0
unfolding get_ref_map
same_map s t repo_id e = ground (arith, e)

fork_registered_lem :
    (s : MemoryStorage) (source_id target_id root_id n : Text) (default_branch : Option Text)
    → text_eq target_id source_id ≡ false
    → IsDistinct (get_ref_map s source_id).0
    → ref_at
        (fork_refs
          (fork_repo (insert_repo s target_id) root_id target_id)
          source_id
          target_id
          default_branch)
        target_id
        n
      ≡ forked_ref s source_id target_id default_branch n
unfolding insert_repo fork_repo
fork_registered_lem s source_id target_id root_id n default_branch h d =
    fork_refs_lem (fork_repo (insert_repo s target_id) root_id target_id) source_id target_id n
      default_branch h
      (subst IsDistinct
        (same_map s (fork_repo (insert_repo s target_id) root_id target_id) source_id refl) d)

other_repo :
    (s : MemoryStorage) (source_id target_id : Text)
    → has_repo s source_id ≡ true
    → has_repo s target_id ≡ false
    → text_eq target_id source_id ≡ false
other_repo s source_id target_id a b = ground (arith, a, b, text_eq_iff target_id source_id)

-- The fork of a repository that exists, whose map of refs has no key twice, to an id that is not
-- in use reads each ref as the repository does, HEAD as the default branch where it has none,
-- and the others as the id did before.
pub ref_at-fork_into :
    (s : MemoryStorage) (source_id target_id n : Text) (default_branch : Option Text)
    → has_repo s source_id ≡ true
    → has_repo s target_id ≡ false
    → IsDistinct (get_ref_map s source_id).0
    → ref_at (fork_into s source_id target_id default_branch).1 target_id n
      ≡ forked_ref s source_id target_id default_branch n
unfolding fork_into
ref_at-fork_into s source_id target_id n default_branch a b d =
    let root_id = elim (get_fork_parent s source_id) as (λ _. Text) [
      | some p ↦ p
      | none ↦ source_id
    ] in
    rw (a, b)
      (fork_registered_lem s source_id target_id root_id n default_branch
        (other_repo s source_id target_id a b) d)
