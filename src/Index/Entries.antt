-- ===== src/Index/Entries.antt =====
-- Proofs about `addEntry` and `findEntry` of src/lib/index.ts.
use just_git.Base.{
  ℕ, ◌≡◌, ◌∙◌, inl, inr, Bool, true, false, ◌&&◌, ◌||◌, Option, none, some, List, [], ◌∷◌, ◌++◌,
  arith, Text, text_eq, text_eq_iff, ◌==◌, if◌then◌else◌, Bool-cases, filter, find, find-append,
  find-filter, find-filter-none, find-sort_by, sort_by, text_lt_irrefl, is_some,
}
use just_git.PathSafety.{verify_path}
use just_git.Index.{Index, IndexEntry, entry_before, is_kept, add_entry, is_at, find_entry}

unfoldable pub added_entries : Index → IndexEntry → List IndexEntry
added_entries index entry =
    sort_by entry_before (filter (is_kept entry) index.entries ++ (entry ∷ []))

pub add_entry-entries :
    (index next : Index) (entry : IndexEntry)
    → add_entry index entry ≡ some next
    → next.entries ≡ added_entries index entry
unfolding add_entry added_entries
add_entry-entries index next entry h = elim (Bool-cases (verify_path entry.path)) [
  | inr e ↦ cc (rw e at h)
  | inl e ↦ cc (rw e at h)
]

is_at-alike :
    (path : Text) (stage : ℕ) (x y : IndexEntry)
    → is_at path stage x ≡ true
    → is_at path stage y ≡ true
    → entry_before y x ≡ false
unfolding entry_before
is_at-alike path stage x y p q =
    ground (arith, text_eq_iff x.path path, text_eq_iff y.path path, text_lt_irrefl path)

-- The entry that a lookup finds once `entry` is added: at its own path and stage the new one; at the
-- other stages of its path none, if it has stage 0; anywhere else what was found before.
pub found_after : Index → IndexEntry → Text → ℕ → Option IndexEntry
found_after index entry path stage =
    if is_at path stage entry
    then some entry
    else if text_eq entry.path path && entry.stage == 0
    then none
    else find_entry index path stage

-- The new entry replaces what stands at this path and stage.
abbrev replaces : IndexEntry → Text → ℕ → Bool
replaces entry path stage = text_eq entry.path path && (entry.stage == 0 || entry.stage == stage)

dropped_at :
    (entry e : IndexEntry) (path : Text) (stage : ℕ)
    → replaces entry path stage ≡ true
    → is_at path stage e ≡ true
    → is_kept entry e ≡ false
unfolding is_kept
dropped_at entry e path stage r a =
    ground
      (arith, text_eq_iff e.path path, text_eq_iff entry.path path, text_eq_iff e.path entry.path)

kept_at :
    (entry e : IndexEntry) (path : Text) (stage : ℕ)
    → replaces entry path stage ≡ false
    → is_at path stage e ≡ true
    → is_kept entry e ≡ true
unfolding is_kept
kept_at entry e path stage r a =
    ground
      (arith, text_eq_iff e.path path, text_eq_iff entry.path path, text_eq_iff e.path entry.path)

find-kept :
    (index : Index) (entry : IndexEntry) (path : Text) (stage : ℕ)
    → find (is_at path stage) (filter (is_kept entry) index.entries)
      ≡ (if replaces entry path stage then none else find (is_at path stage) index.entries)
find-kept index entry path stage = elim (Bool-cases (replaces entry path stage)) [
  | inl r ↦ rw r (find-filter-none _ _ _ (λ e. dropped_at entry e path stage r))
  | inr r ↦ rw r (find-filter _ _ _ (λ e. kept_at entry e path stage r))
]

found_lem :
    (index : Index) (entry : IndexEntry) (path : Text) (stage : ℕ)
    → (if is_some (find (is_at path stage) (filter (is_kept entry) index.entries))
        then find (is_at path stage) (filter (is_kept entry) index.entries)
        else find (is_at path stage) (entry ∷ []))
      ≡ found_after index entry path stage
unfolding found_after find_entry
found_lem index entry path stage =
    rw (find-kept index entry path stage) (unfold find in ground arith)

-- After an entry was added, a lookup finds at its path and stage the new entry, at the other
-- stages of its path none if it has stage 0, and anywhere else what it found before.
pub find_entry-add_entry :
    (index next : Index) (entry : IndexEntry) (path : Text) (stage : ℕ)
    → add_entry index entry ≡ some next
    → find_entry next path stage ≡ found_after index entry path stage
unfolding find_entry
find_entry-add_entry index next entry path stage h = rw (add_entry-entries index next entry h) (
    unfold added_entries in
    find-sort_by entry_before (is_at path stage) (is_at-alike path stage) _
    ∙ find-append (is_at path stage) (filter (is_kept entry) index.entries) (entry ∷ [])
    ∙ found_lem index entry path stage)
