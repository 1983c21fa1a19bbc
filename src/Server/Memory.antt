-- ===== src/Server/Memory.antt =====
-- src/server/memory-storage.ts: the storage backend in memory. A method takes the state and returns
-- its result with the state after it; a read also creates the empty map of a repository.
use just_git.Base.{
  ℕ, suc, Bool, true, not, Option, none, some, List, [], ◌∷◌, map, filter, Text, text_eq,
  starts_with, JsMap, map_get, map_set, map_has, map_delete, set_has, set_add, if◌then◌else◌,
}

abbrev pub Bytes : Type 0
Bytes = List ℕ

pub record RawObject : Type 0 where
  pub kind : Text
  pub content : Bytes

pub data Ref : Type 0 where
  direct : Text → Ref
  symbolic : Text → Ref

pub record NewObject : Type 0 where
  pub hash : Text
  pub kind : Text
  pub content : Bytes

pub record RawRefEntry : Type 0 where
  pub name : Text
  pub target : Ref

pub record MemoryStorage : Type 0 where
  pub repos : List Text
  pub objects : JsMap (JsMap RawObject)
  pub refs : JsMap (JsMap Ref)
  pub forks : JsMap Text

unfoldable pub has_repo : MemoryStorage → Text → Bool
has_repo s repo_id = set_has s.repos repo_id

unfoldable pub insert_repo : MemoryStorage → Text → MemoryStorage
insert_repo s repo_id = record s { repos = set_add s.repos repo_id }

unfoldable pub delete_repo : MemoryStorage → Text → MemoryStorage
delete_repo s repo_id = record {
  repos = filter (λ id. not (text_eq id repo_id)) s.repos;
  objects = map_delete s.objects repo_id;
  refs = map_delete s.refs repo_id;
  forks = map_delete s.forks repo_id;
}

unfoldable pub get_obj_map : MemoryStorage → Text → JsMap RawObject × MemoryStorage
get_obj_map s repo_id = elim (map_get s.objects repo_id) [
  | some m ↦ (m, s)
  | none ↦ ([], record s { objects = map_set s.objects repo_id [] })
]

unfoldable pub get_ref_map : MemoryStorage → Text → JsMap Ref × MemoryStorage
get_ref_map s repo_id = elim (map_get s.refs repo_id) [
  | some m ↦ (m, s)
  | none ↦ ([], record s { refs = map_set s.refs repo_id [] })
]

-- What a write to a repository's map leaves in the state.
unfoldable pub set_obj_map : MemoryStorage → Text → JsMap RawObject → MemoryStorage
set_obj_map s repo_id m = record s { objects = map_set s.objects repo_id m }

unfoldable pub set_ref_map : MemoryStorage → Text → JsMap Ref → MemoryStorage
set_ref_map s repo_id m = record s { refs = map_set s.refs repo_id m }

unfoldable pub get_object : MemoryStorage → Text → Text → Option RawObject × MemoryStorage
get_object s repo_id hash = let found = get_obj_map s repo_id in (map_get found.0 hash, found.1)

unfoldable pub collect : JsMap RawObject → List Text → JsMap RawObject → JsMap RawObject
collect m [] result = result
collect m (hash ∷ hashes) result = elim (map_get m hash) [
  | none ↦ collect m hashes result
  | some obj ↦ collect m hashes (map_set result hash obj)
]

-- `new Set(hashes)`
unfoldable pub to_set : List Text → List Text → List Text
to_set seen [] = seen
to_set seen (k ∷ ks) = to_set (set_add seen k) ks

unfoldable pub get_objects : MemoryStorage → Text → List Text → JsMap RawObject × MemoryStorage
get_objects s repo_id hashes =
    let found = get_obj_map s repo_id in (collect found.0 (to_set [] hashes) [], found.1)

unfoldable pub put_object : MemoryStorage → Text → Text → Text → Bytes → MemoryStorage
put_object s repo_id hash kind content =
    let found = get_obj_map s repo_id in
    if map_has found.0 hash
    then found.1
    else set_obj_map found.1 repo_id
        (map_set found.0 hash (record { kind = kind; content = content }))

-- The loop of `putObjects`: the hashes inserted, and the map.
unfoldable pub put_all : JsMap RawObject → List NewObject → List Text × JsMap RawObject
put_all m [] = ([], m)
put_all m (obj ∷ objs) =
    let known = map_has m obj.hash in
    let rest =
      put_all
        (if known
          then m
          else map_set m obj.hash (record { kind = obj.kind; content = obj.content }))
        objs in
    if known then rest else (obj.hash ∷ rest.0, rest.1)

unfoldable pub put_objects : MemoryStorage → Text → List NewObject → List Text × MemoryStorage
put_objects s repo_id objects =
    let found = get_obj_map s repo_id in
    let put = put_all found.0 objects in (put.0, set_obj_map found.1 repo_id put.1)

unfoldable pub has_object : MemoryStorage → Text → Text → Bool × MemoryStorage
has_object s repo_id hash = let found = get_obj_map s repo_id in (map_has found.0 hash, found.1)

unfoldable pub has_objects : MemoryStorage → Text → List Text → List Text × MemoryStorage
has_objects s repo_id hashes =
    let found = get_obj_map s repo_id in
    (filter (λ hash. map_has found.0 hash) (to_set [] hashes), found.1)

unfoldable pub keys : {V : Type 0} → JsMap V → List Text
keys m = map (λ e. e.0) m

unfoldable pub find_objects_by_prefix : MemoryStorage → Text → Text → List Text × MemoryStorage
find_objects_by_prefix s repo_id prefix =
    let found = get_obj_map s repo_id in
    (filter (λ hash. starts_with hash prefix) (keys found.0), found.1)

unfoldable pub list_object_hashes : MemoryStorage → Text → List Text × MemoryStorage
list_object_hashes s repo_id = let found = get_obj_map s repo_id in (keys found.0, found.1)

unfoldable pub delete_all : JsMap RawObject → List Text → ℕ × JsMap RawObject
delete_all m [] = (0, m)
delete_all m (hash ∷ hashes) =
    let rest = delete_all (map_delete m hash) hashes in
    (if map_has m hash then suc rest.0 else rest.0, rest.1)

unfoldable pub delete_objects : MemoryStorage → Text → List Text → ℕ × MemoryStorage
delete_objects s repo_id hashes =
    let found = get_obj_map s repo_id in
    let deleted = delete_all found.0 hashes in (deleted.0, set_obj_map found.1 repo_id deleted.1)

unfoldable pub get_ref : MemoryStorage → Text → Text → Option Ref × MemoryStorage
get_ref s repo_id name = let found = get_ref_map s repo_id in (map_get found.0 name, found.1)

unfoldable pub put_ref : MemoryStorage → Text → Text → Ref → MemoryStorage
put_ref s repo_id name ref =
    let found = get_ref_map s repo_id in set_ref_map found.1 repo_id (map_set found.0 name ref)

unfoldable pub remove_ref : MemoryStorage → Text → Text → MemoryStorage
remove_ref s repo_id name =
    let found = get_ref_map s repo_id in set_ref_map found.1 repo_id (map_delete found.0 name)

unfoldable pub is_wanted : Option Text → Text → Bool
is_wanted none name = true
is_wanted (some prefix) name = starts_with name prefix

unfoldable pub list_refs : MemoryStorage → Text → Option Text → List RawRefEntry × MemoryStorage
list_refs s repo_id prefix =
    let found = get_ref_map s repo_id in
    (
      map (λ e. record { name = e.0; target = e.1 }) (filter (λ e. is_wanted prefix e.0) found.0),
      found.1,
    )

-- The callback reads and writes the repository's map: it takes the map and returns it.
unfoldable pub atomic_ref_update :
    {T : Type 0} → MemoryStorage → Text → (JsMap Ref → T × JsMap Ref) → T × MemoryStorage
atomic_ref_update s repo_id fn =
    let found = get_ref_map s repo_id in
    let ran = fn found.0 in (ran.0, set_ref_map found.1 repo_id ran.1)

unfoldable pub fork_repo : MemoryStorage → Text → Text → MemoryStorage
fork_repo s source_id target_id = record s { forks = map_set s.forks target_id source_id }

unfoldable pub get_fork_parent : MemoryStorage → Text → Option Text
get_fork_parent s repo_id = map_get s.forks repo_id

unfoldable pub list_forks : MemoryStorage → Text → List Text
list_forks s repo_id = map (λ e. e.0) (filter (λ e. text_eq e.1 repo_id) s.forks)

pub repo_ids : MemoryStorage → List Text
repo_ids s = s.repos
