-- ===== src/Server/Observe.antt =====
-- What a client of src/server/memory-storage.ts sees: the object at a hash, the ref at a name.
use just_git.Base.{
  ◌≡◌, refl, ap, ◌∙◌, Option, none, some, [], arith, Text, text_eq, text_eq_iff, JsMap, map_get,
  map_set, map_get-map_set, if◌then◌else◌,
}
use just_git.Server.Memory.{
  RawObject, Ref, MemoryStorage, get_obj_map, get_ref_map, set_obj_map, set_ref_map, get_object,
  get_ref,
}

module _ {V : Type 0} where
  -- The value at a key in the map of a repository.
  abbrev pub value_at : JsMap (JsMap V) → Text → Text → Option V
  value_at maps repo_id key = elim (map_get maps repo_id) [ none ↦ none | some m ↦ map_get m key ]

  pub value_at-map_set :
      (maps : JsMap (JsMap V)) (repo_id other key : Text) (m : JsMap V)
      → value_at (map_set maps repo_id m) other key
        ≡ (if text_eq repo_id other then map_get m key else value_at maps other key)
  value_at-map_set maps repo_id other key m = ground (arith, map_get-map_set maps repo_id other m)

abbrev pub object_at : MemoryStorage → Text → Text → Option RawObject
object_at s repo_id hash = value_at s.objects repo_id hash

abbrev pub ref_at : MemoryStorage → Text → Text → Option Ref
ref_at s repo_id name = value_at s.refs repo_id name

-- Two states that no read of an object, or of a ref, tells apart.
abbrev pub SameObjects : MemoryStorage → MemoryStorage → Type 0
SameObjects s t = (repo_id hash : Text) → object_at s repo_id hash ≡ object_at t repo_id hash

abbrev pub SameRefs : MemoryStorage → MemoryStorage → Type 0
SameRefs s t = (repo_id name : Text) → ref_at s repo_id name ≡ ref_at t repo_id name

map_get-nil : {V : Type 0} (k : Text) → map_get {V = V} [] k ≡ none
map_get-nil k = unfold map_get in refl

pub get_object_lem :
    (s : MemoryStorage) (repo_id hash : Text)
    → (get_object s repo_id hash).0 ≡ object_at s repo_id hash
unfolding get_object get_obj_map
get_object_lem s repo_id hash = ground (arith, map_get-nil {V = RawObject} hash)

pub get_ref_lem :
    (s : MemoryStorage) (repo_id name : Text) → (get_ref s repo_id name).0 ≡ ref_at s repo_id name
unfolding get_ref get_ref_map
get_ref_lem s repo_id name = ground (arith, map_get-nil {V = Ref} name)

pub get_obj_map_lem :
    (s : MemoryStorage) (repo_id hash : Text)
    → map_get (get_obj_map s repo_id).0 hash ≡ object_at s repo_id hash
unfolding get_obj_map
get_obj_map_lem s repo_id hash = ground (arith, map_get-nil {V = RawObject} hash)

pub get_ref_map_lem :
    (s : MemoryStorage) (repo_id name : Text)
    → map_get (get_ref_map s repo_id).0 name ≡ ref_at s repo_id name
unfolding get_ref_map
get_ref_map_lem s repo_id name = ground (arith, map_get-nil {V = Ref} name)

pub object_at-get_obj_map :
    (s : MemoryStorage) (repo_id other hash : Text)
    → object_at (get_obj_map s repo_id).1 other hash ≡ object_at s other hash
unfolding get_obj_map
object_at-get_obj_map s repo_id other hash = ground (
  arith,
  value_at-map_set s.objects repo_id other hash [],
  text_eq_iff repo_id other,
  map_get-nil {V = RawObject} hash,
)

pub ref_at-get_ref_map :
    (s : MemoryStorage) (repo_id other name : Text)
    → ref_at (get_ref_map s repo_id).1 other name ≡ ref_at s other name
unfolding get_ref_map
ref_at-get_ref_map s repo_id other name = ground (
  arith,
  value_at-map_set s.refs repo_id other name [],
  text_eq_iff repo_id other,
  map_get-nil {V = Ref} name,
)

pub refs-get_obj_map :
    (s : MemoryStorage) (repo_id : Text) → (get_obj_map s repo_id).1.refs ≡ s.refs
unfolding get_obj_map
refs-get_obj_map s repo_id = ground arith

pub objects-get_ref_map :
    (s : MemoryStorage) (repo_id : Text) → (get_ref_map s repo_id).1.objects ≡ s.objects
unfolding get_ref_map
objects-get_ref_map s repo_id = ground arith

-- A write of a repository's objects is seen in that repository only.
pub object_at-set_obj_map :
    (s : MemoryStorage) (repo_id other hash : Text) (m : JsMap RawObject)
    → object_at (set_obj_map (get_obj_map s repo_id).1 repo_id m) other hash
      ≡ (if text_eq repo_id other then map_get m hash else object_at s other hash)
unfolding set_obj_map
object_at-set_obj_map s repo_id other hash m =
    value_at-map_set (get_obj_map s repo_id).1.objects repo_id other hash m
    ∙ ap (λ o. if text_eq repo_id other then map_get m hash else o)
        (object_at-get_obj_map s repo_id other hash)

pub ref_at-set_ref_map :
    (s : MemoryStorage) (repo_id other name : Text) (m : JsMap Ref)
    → ref_at (set_ref_map (get_ref_map s repo_id).1 repo_id m) other name
      ≡ (if text_eq repo_id other then map_get m name else ref_at s other name)
unfolding set_ref_map
ref_at-set_ref_map s repo_id other name m =
    value_at-map_set (get_ref_map s repo_id).1.refs repo_id other name m
    ∙ ap (λ o. if text_eq repo_id other then map_get m name else o)
        (ref_at-get_ref_map s repo_id other name)
