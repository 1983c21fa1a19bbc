-- ===== src/Index/Order.antt =====
-- Proofs about `addEntry` and `compareEntries` of src/lib/index.ts: the order of the entries.
use just_git.Base.{
  ℕ, ◌<◌, ◌≡◌, ◌≢◌, ◌⊎◌, refl, sym, inl, inr, Bool, true, false, some, List, [], ◌∷◌, ◌++◌, arith,
  Text, text_eq_iff, Bool-cases, filter, sort_by, insert, text_lt, All, All-append, All-insert,
  All-sort_by, ◌∙◌, subst,
}
use just_git.Index.{Index, IndexEntry, entry_before, is_kept, add_entry}
use just_git.Index.Entries.{added_entries, add_entry-entries}

-- Texts as in a dictionary: by the first code unit that differs, a text before those it is the start of.
abbrev pub Precedes : Text → Text → Type 0
Precedes a [] = ⊥
Precedes [] (y ∷ b) = Unit
Precedes (x ∷ a) (y ∷ b) = (x < y) ⊎ ((x ≡ y) × Precedes a b)

-- Entries by path, and on one path by stage.
abbrev pub EntryPrecedes : IndexEntry → IndexEntry → Type 0
EntryPrecedes a b = Precedes a.path b.path ⊎ ((a.path ≡ b.path) × (a.stage < b.stage))

-- Two places: paths or stages that differ.
abbrev pub Differ : IndexEntry → IndexEntry → Type 0
Differ a b = ¬ ((a.path ≡ b.path) × (a.stage ≡ b.stage))

-- A relation of every element to each that follows it.
abbrev pub Pairs {ℓ κ} : {A : Type ℓ} → (A → A → Type κ) → List A → Type κ
Pairs R [] = Unit
Pairs R (x ∷ xs) = All (R x) xs × Pairs R xs

-- Every entry precedes all that follow it, so that no two have one path and stage.
abbrev pub IsSorted : Index → Type 0
IsSorted index = Pairs EntryPrecedes index.entries

abbrev pub IsDistinct : Index → Type 0
IsDistinct index = Pairs Differ index.entries

Precedes-trans : (a b c : Text) → Precedes a b → Precedes b c → Precedes a c
Precedes-trans a [] c p q = absurd p
Precedes-trans a (y ∷ b) [] p q = absurd q
Precedes-trans [] (y ∷ b) (z ∷ c) p q = tt
Precedes-trans (x ∷ a) (y ∷ b) (z ∷ c) (inl p) (inl q) = inl (omega arith)
Precedes-trans (x ∷ a) (y ∷ b) (z ∷ c) (inl p) (inr q) = inl (omega (arith, q.0))
Precedes-trans (x ∷ a) (y ∷ b) (z ∷ c) (inr p) (inl q) = inl (omega (arith, p.0))
Precedes-trans (x ∷ a) (y ∷ b) (z ∷ c) (inr p) (inr q) =
    inr (omega (arith, p.0, q.0), Precedes-trans a b c p.1 q.1)

trichotomy : (x y : ℕ) → (x < y) ⊎ ((x ≡ y) ⊎ (y < x))
trichotomy x y = omega arith

text_lt-Precedes : (a b : Text) → text_lt a b ≡ true → Precedes a b
unfolding text_lt
text_lt-Precedes [] [] h = cc
text_lt-Precedes [] (y ∷ b) h = tt
text_lt-Precedes (x ∷ a) [] h = cc
text_lt-Precedes (x ∷ a) (y ∷ b) h = elim (trichotomy x y) [
  | inl l ↦ inl l
  | inr (inl e) ↦ inr (e, text_lt-Precedes a b (ground (arith, e, h)))
  | inr (inr g) ↦ absurd (ground (arith, g, h))
]

-- Of two texts that differ one precedes the other.
text_lt-neither : (a b : Text) → text_lt a b ≡ false → text_lt b a ≡ false → a ≡ b
unfolding text_lt
text_lt-neither [] [] h g = refl
text_lt-neither [] (y ∷ b) h g = cc
text_lt-neither (x ∷ a) [] h g = cc
text_lt-neither (x ∷ a) (y ∷ b) h g = elim (trichotomy x y) [
  | inl l ↦ absurd (ground (arith, l, h))
  | inr (inl e) ↦
      let same = text_lt-neither a b (ground (arith, e, h)) (ground (arith, e, g)) in cc (e, same)
  | inr (inr k) ↦ absurd (ground (arith, k, g))
]

EntryPrecedes-trans :
    (a b c : IndexEntry) → EntryPrecedes a b → EntryPrecedes b c → EntryPrecedes a c
EntryPrecedes-trans a b c (inl p) (inl q) = inl (Precedes-trans a.path b.path c.path p q)
EntryPrecedes-trans a b c (inl p) (inr q) = inl (subst (Precedes a.path) q.0 p)
EntryPrecedes-trans a b c (inr p) (inl q) = inl (subst (λ s. Precedes s c.path) (sym p.0) q)
EntryPrecedes-trans a b c (inr p) (inr q) = inr (p.0 ∙ q.0, omega (arith, p.1, q.1))

entry_before-EntryPrecedes : (a b : IndexEntry) → entry_before a b ≡ true → EntryPrecedes a b
unfolding entry_before
entry_before-EntryPrecedes a b h = elim (Bool-cases (text_lt a.path b.path)) [
  | inl e ↦ inl (text_lt-Precedes a.path b.path e)
  | inr e ↦ elim (Bool-cases (text_lt b.path a.path)) [
    | inl f ↦ absurd (ground (arith, e, f, h))
    | inr f ↦ inr (text_lt-neither a.path b.path e f, ground (arith, e, f, h))
  ]
]

not_before-EntryPrecedes :
    (a b : IndexEntry) → entry_before b a ≡ false → Differ a b → EntryPrecedes a b
unfolding entry_before
not_before-EntryPrecedes a b h d = elim (Bool-cases (text_lt a.path b.path)) [
  | inl e ↦ inl (text_lt-Precedes a.path b.path e)
  | inr e ↦ elim (Bool-cases (text_lt b.path a.path)) [
    | inl f ↦ absurd (ground (arith, f, h))
    | inr f ↦
        let same = text_lt-neither a.path b.path e f in
        let other : a.stage ≢ b.stage = λ z. d (same, z) in
        inr (same, ground (arith, e, f, h, other))
  ]
]

Differ-sym : (a b : IndexEntry) → Differ a b → Differ b a
Differ-sym a b d e = d (sym e.0, sym e.1)

All-weaken :
    (a b : IndexEntry) (es : List IndexEntry)
    → EntryPrecedes a b
    → All (EntryPrecedes b) es
    → All (EntryPrecedes a) es
All-weaken a b [] h p = tt
All-weaken a b (e ∷ es) h p = (EntryPrecedes-trans a b e h p.0, All-weaken a b es h p.1)

Pairs-insert :
    (x : IndexEntry) (es : List IndexEntry)
    → All (Differ x) es
    → Pairs EntryPrecedes es
    → Pairs EntryPrecedes (insert entry_before x es)
unfolding insert
Pairs-insert x [] d p = (tt, tt)
Pairs-insert x (y ∷ es) d p = elim (Bool-cases (entry_before y x)) [
  | inl e ↦ rw e (
    All-insert entry_before (EntryPrecedes y) x es (entry_before-EntryPrecedes y x e) p.0,
    Pairs-insert x es d.1 p.1,
  )
  | inr e ↦
      let first = not_before-EntryPrecedes x y e d.0 in
      rw e ((first, All-weaken x y es first p.0), p)
]

Pairs-sort_by :
    (es : List IndexEntry) → Pairs Differ es → Pairs EntryPrecedes (sort_by entry_before es)
unfolding sort_by
Pairs-sort_by [] d = tt
Pairs-sort_by (x ∷ es) d =
    Pairs-insert x (sort_by entry_before es) (All-sort_by entry_before (Differ x) es d.0)
      (Pairs-sort_by es d.1)

All-filter :
    (P : IndexEntry → Type 0) (test : IndexEntry → Bool) (es : List IndexEntry)
    → All P es
    → All P (filter test es)
unfolding filter
All-filter P test [] a = tt
All-filter P test (e ∷ es) a = elim (Bool-cases (test e)) [
  | inl k ↦ rw k (a.0, All-filter P test es a.1)
  | inr k ↦ rw k (All-filter P test es a.1)
]

kept-Differ : (entry e : IndexEntry) → is_kept entry e ≡ true → Differ e entry
unfolding is_kept
kept-Differ entry e k same =
    let path = text_eq_iff e.path entry.path in ground (arith, k, same.0, same.1, path)

Pairs-added :
    (entry : IndexEntry) (es : List IndexEntry)
    → Pairs Differ es
    → Pairs Differ (filter (is_kept entry) es ++ (entry ∷ []))
unfolding filter
Pairs-added entry [] d = (tt, tt)
Pairs-added entry (e ∷ es) d = elim (Bool-cases (is_kept entry e)) [
  | inl k ↦ rw k (
    All-append (Differ e) (filter (is_kept entry) es) (entry ∷ [])
        (All-filter (Differ e) (is_kept entry) es d.0) (kept-Differ entry e k, tt),
    Pairs-added entry es d.1,
  )
  | inr k ↦ rw k (Pairs-added entry es d.1)
]

Precedes-irrefl : (a : Text) → ¬ Precedes a a
Precedes-irrefl [] p = p
Precedes-irrefl (x ∷ a) (inl p) = omega (arith, p)
Precedes-irrefl (x ∷ a) (inr p) = Precedes-irrefl a p.1

EntryPrecedes-Differ : (a b : IndexEntry) → EntryPrecedes a b → Differ a b
EntryPrecedes-Differ a b (inl p) e = Precedes-irrefl b.path (subst (λ s. Precedes s b.path) e.0 p)
EntryPrecedes-Differ a b (inr p) e = omega (arith, p.1, e.1)

Pairs-Differ : (es : List IndexEntry) → Pairs EntryPrecedes es → Pairs Differ es
Pairs-Differ [] p = tt
Pairs-Differ (x ∷ es) p = (all es p.0, Pairs-Differ es p.1)
  where
    all : (es : List IndexEntry) → All (EntryPrecedes x) es → All (Differ x) es
    all [] a = tt
    all (e ∷ es) a = (EntryPrecedes-Differ x e a.0, all es a.1)

-- Where no two entries have one path and stage, whatever their order, after an entry was added
-- each entry precedes all that follow it, by path as in a dictionary and on one path by stage,
-- so that again no two have one path and stage.
pub add_entry-IsSorted :
    (index next : Index) (entry : IndexEntry)
    → IsDistinct index
    → add_entry index entry ≡ some next
    → IsSorted next × IsDistinct next
add_entry-IsSorted index next entry d h =
    let sorted : IsSorted next =
      subst (Pairs EntryPrecedes) (sym (add_entry-entries index next entry h)) (
        unfold added_entries in
        Pairs-sort_by (filter (is_kept entry) index.entries ++ (entry ∷ []))
          (Pairs-added entry index.entries d)) in
    (sorted, Pairs-Differ next.entries sorted)
