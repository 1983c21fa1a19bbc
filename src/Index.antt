-- ===== src/Index.antt =====
-- The staging area of src/lib/index.ts and its types in src/lib/types.ts: the operations on the
-- entries in memory. The binary format and the racy-stat bookkeeping are not modelled.
pub mod Entries
pub mod Order
mod Examples
use just_git.Base.{
  ℕ, suc, ◌-◌, ◌≡◌, refl, Bool, true, false, ◌&&◌, ◌||◌, not, Option, none, some, List, [], ◌∷◌,
  ◌++◌, map, Text, text_eq, codes, ltb, ◌==◌, if◌then◌else◌, filter, find, some_of, sort_by,
  text_lt, set_add,
}
use just_git.Base.ParseInt.{ParsedInt, int}
use just_git.PathSafety.{verify_path}

abbrev pub ObjectId : Type 0
ObjectId = Text

pub record IndexStat : Type 0 where
  pub ctime_seconds : ℕ
  pub ctime_nanoseconds : ℕ
  pub mtime_seconds : ℕ
  pub mtime_nanoseconds : ℕ
  pub dev : ℕ
  pub ino : ℕ
  pub uid : ℕ
  pub gid : ℕ
  pub size : ℕ

-- A mode is a JavaScript number, which `parseInt` may have made.
pub record IndexEntry : Type 0 where
  pub path : Text
  pub mode : ParsedInt
  pub hash : ObjectId
  pub stage : ℕ
  pub stat : IndexStat

pub record Index : Type 0 where
  pub version : ℕ
  pub entries : List IndexEntry

-- `compareEntries(a, b) < 0`
unfoldable pub entry_before : IndexEntry → IndexEntry → Bool
entry_before a b =
    if text_lt a.path b.path
    then true
    else if text_lt b.path a.path
    then false
    else ltb a.stage b.stage

-- Every stage of the path goes when stage 0 is added, and only the same stage otherwise.
unfoldable pub is_kept : IndexEntry → IndexEntry → Bool
is_kept entry e =
    if entry.stage == 0
    then not (text_eq e.path entry.path)
    else not (text_eq e.path entry.path && e.stage == entry.stage)

-- `none` is the error "refusing to add unsafe path to index".
unfoldable pub add_entry : Index → IndexEntry → Option Index
unfolding is_kept
add_entry index entry =
    if not (verify_path entry.path)
    then none
    else some (record index {
      entries = sort_by entry_before (filter (is_kept entry) index.entries ++ (entry ∷ []));
    })

unfoldable pub remove_entry : Index → Text → Index
remove_entry index path = record index {
  entries = filter (λ e. not (text_eq e.path path)) index.entries;
}

abbrev pub is_at : Text → ℕ → IndexEntry → Bool
is_at path stage e = text_eq e.path path && e.stage == stage

unfoldable pub find_entry : Index → Text → ℕ → Option IndexEntry
find_entry index path stage = find (is_at path stage) index.entries

unfoldable pub has_conflicts : Index → Bool
has_conflicts index = some_of (λ e. ltb 0 e.stage) index.entries

-- `[...new Set(paths)]`
unfoldable pub distinct : List Text → List Text → List Text
distinct seen [] = seen
distinct seen (p ∷ ps) = distinct (set_add seen p) ps

unfoldable pub get_conflicted_paths : Index → List Text
get_conflicted_paths index =
    distinct [] (map (λ e. e.path) (filter (λ e. ltb 0 e.stage) index.entries))

unfoldable pub get_stage0_entries : Index → List IndexEntry
get_stage0_entries index = filter (λ e. e.stage == 0) index.entries

abbrev index_version : ℕ
index_version = 2

unfoldable pub clear_index : Index
clear_index = record { version = index_version; entries = [] }

unfoldable pub build_index : List IndexEntry → Index
build_index entries = record { version = index_version; entries = sort_by entry_before entries }

unfoldable pub default_stat : IndexStat
default_stat = record {
  ctime_seconds = 0;
  ctime_nanoseconds = 0;
  mtime_seconds = 0;
  mtime_nanoseconds = 0;
  dev = 0;
  ino = 0;
  uid = 0;
  gid = 0;
  size = 0;
}
