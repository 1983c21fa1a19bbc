-- ===== src/Server/Rollback.antt =====
-- Proofs about `putObjects` and `deleteObjects` of src/server/memory-storage.ts: ingestion and rollback.
use just_git.Base.{
  ◌≡◌, refl, ap, ◌∙◌, ◌&&◌, none, List, [], ◌∷◌, arith, Text, text_eq, text_eq_iff, is_some, JsMap,
  map_get, map_set, map_has, map_delete, set_has, map_get-map_set, map_get-map_delete,
  if◌then◌else◌,
}
use just_git.Server.Memory.{
  RawObject, NewObject, MemoryStorage, get_obj_map, set_obj_map, put_all, put_objects, delete_all,
  delete_objects,
}
use just_git.Server.Adapter.{GitRepo, commit_pack, remove_objects}
use just_git.Server.Receive.{rollback_ingested_objects}
use just_git.Server.Observe.{
  object_at, value_at, SameRefs, get_obj_map_lem, object_at-set_obj_map, refs-get_obj_map,
}

map_has_lem : (m : JsMap RawObject) (k : Text) → map_has m k ≡ is_some (map_get m k)
map_has_lem m k = unfold map_has in refl

-- An inserted hash was not there, and any other hash is as before.
put_all_lem :
    (m : JsMap RawObject) (objs : List NewObject) (k : Text)
    → (if set_has (put_all m objs).0 k then none else map_get (put_all m objs).1 k) ≡ map_get m k
unfolding put_all set_has
put_all_lem m [] k = refl
put_all_lem m (obj ∷ objs) k =
    let written = map_set m obj.hash (record { kind = obj.kind; content = obj.content }) in
    ground (
      arith,
      put_all_lem m objs k,
      put_all_lem written objs k,
      map_has_lem m obj.hash,
      map_get-map_set m obj.hash k (record { kind = obj.kind; content = obj.content }),
      text_eq_iff obj.hash k,
    )

delete_all_lem :
    (m : JsMap RawObject) (hashes : List Text) (k : Text)
    → map_get (delete_all m hashes).1 k ≡ (if set_has hashes k then none else map_get m k)
unfolding delete_all set_has
delete_all_lem m [] k = refl
delete_all_lem m (hash ∷ hashes) k =
    ground (arith, delete_all_lem (map_delete m hash) hashes k, map_get-map_delete m hash k)

delete_objects_lem :
    (s : MemoryStorage) (repo_id other k : Text) (hashes : List Text)
    → object_at (delete_objects s repo_id hashes).1 other k
      ≡ (if text_eq repo_id other && set_has hashes k then none else object_at s other k)
unfolding delete_objects
delete_objects_lem s repo_id other k hashes =
    object_at-set_obj_map s repo_id other k (delete_all (get_obj_map s repo_id).0 hashes).1
    ∙ ground (
      arith,
      delete_all_lem (get_obj_map s repo_id).0 hashes k,
      get_obj_map_lem s repo_id k,
      text_eq_iff repo_id other,
    )

-- The inserted hashes taken away, the objects are as before.
put_objects_lem :
    (s : MemoryStorage) (repo_id other k : Text) (objs : List NewObject)
    → (if text_eq repo_id other && set_has (put_objects s repo_id objs).0 k
        then none
        else object_at (put_objects s repo_id objs).1 other k)
      ≡ object_at s other k
unfolding put_objects
put_objects_lem s repo_id other k objs = ground (
  arith,
  object_at-set_obj_map s repo_id other k (put_all (get_obj_map s repo_id).0 objs).1,
  put_all_lem (get_obj_map s repo_id).0 objs k,
  get_obj_map_lem s repo_id k,
  text_eq_iff repo_id other,
)

pub put_objects-refs :
    (s : MemoryStorage) (repo_id : Text) (objs : List NewObject)
    → (put_objects s repo_id objs).1.refs ≡ s.refs
unfolding put_objects set_obj_map
put_objects-refs s repo_id objs = refs-get_obj_map s repo_id

delete_objects-refs :
    (s : MemoryStorage) (repo_id : Text) (hashes : List Text)
    → (delete_objects s repo_id hashes).1.refs ≡ s.refs
unfolding delete_objects set_obj_map
delete_objects-refs s repo_id hashes = refs-get_obj_map s repo_id

pub rollback_lem :
    (s : MemoryStorage) (repo : GitRepo) (hashes : List Text) (other k : Text)
    → object_at (rollback_ingested_objects s repo hashes) other k
      ≡ (if text_eq repo.repo_id other && set_has hashes k then none else object_at s other k)
unfolding rollback_ingested_objects remove_objects
rollback_lem s repo [] other k = unfold set_has in ground arith
rollback_lem s repo (h ∷ hs) other k = delete_objects_lem s repo.repo_id other k (h ∷ hs)

pub rollback-refs :
    (s : MemoryStorage) (repo : GitRepo) (hashes : List Text)
    → SameRefs (rollback_ingested_objects s repo hashes) s
unfolding rollback_ingested_objects remove_objects
rollback-refs s repo [] other n = refl
rollback-refs s repo (h ∷ hs) other n =
    ap (λ o. value_at o other n) (delete_objects-refs s repo.repo_id (h ∷ hs))

pub commit_pack_lem :
    (s : MemoryStorage) (repo : GitRepo) (objs : List NewObject) (other k : Text)
    → (if text_eq repo.repo_id other && set_has (commit_pack s repo objs).0 k
        then none
        else object_at (commit_pack s repo objs).1 other k)
      ≡ object_at s other k
unfolding commit_pack
commit_pack_lem s repo [] other k = unfold set_has in ground arith
commit_pack_lem s repo (o ∷ objs) other k = put_objects_lem s repo.repo_id other k (o ∷ objs)

pub commit_pack-refs :
    (s : MemoryStorage) (repo : GitRepo) (objs : List NewObject)
    → SameRefs (commit_pack s repo objs).1 s
unfolding commit_pack
commit_pack-refs s repo [] other n = refl
commit_pack-refs s repo (o ∷ objs) other n =
    ap (λ m. value_at m other n) (put_objects-refs s repo.repo_id (o ∷ objs))
