-- ===== src/Index/Examples.antt =====
-- The theorems on the index at concrete inputs.
use just_git.Base.{ℕ, ◌≡◌, refl, some, [], ◌∷◌, Text, arith, codes, base_functions}
use just_git.Base.ParseInt.{int}
use just_git.PathSafety.{verify_path}
use just_git.Index.{Index, IndexEntry, entry_before, add_entry, find_entry, default_stat}
use just_git.Index.Entries.{found_after, find_entry-add_entry}
use just_git.Index.Order.{IsSorted, IsDistinct, add_entry-IsSorted}

abbrev entry : Text → ℕ → IndexEntry
entry path stage = record {
  path = path;
  mode = int 0o100644;
  hash = codes "aa";
  stage = stage;
  stat = default_stat;
}

abbrev conflicted : Index
conflicted = record {
  version = 2;
  entries = entry (codes "b") 1 ∷ entry (codes "b") 2 ∷ entry (codes "c") 0 ∷ [];
}

abbrev resolved : Index
resolved = record { version = 2; entries = entry (codes "b") 0 ∷ entry (codes "c") 0 ∷ [] }

resolve_runs : add_entry conflicted (entry (codes "b") 0) ≡ some resolved
unfolding add_entry verify_path entry_before default_stat base_functions
resolve_runs = refl

-- The stages 1 and 2 of b differ, and the path c.
conflicted-IsDistinct : IsDistinct conflicted
conflicted-IsDistinct = (
  (λ e. omega (arith, e.1), (λ e. omega (arith, e.1), tt)),
  ((λ e. omega (arith, e.1), tt), (tt, tt)),
)

add_entry-IsSorted_example : IsSorted resolved × IsDistinct resolved
add_entry-IsSorted_example =
    add_entry-IsSorted conflicted resolved (entry (codes "b") 0) conflicted-IsDistinct resolve_runs

find_entry-add_entry_example :
    find_entry resolved (codes "b") 2 ≡ found_after conflicted (entry (codes "b") 0) (codes "b") 2
find_entry-add_entry_example =
    find_entry-add_entry conflicted resolved (entry (codes "b") 0) (codes "b") 2 resolve_runs
