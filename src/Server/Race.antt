-- ===== src/Server/Race.antt =====
-- Proofs about `compareAndSwapRef` of src/server/storage.ts: one client, and two on one ref.
use just_git.Base.{
  ℕ, zero, suc, ◌≡◌, refl, sym, ap, ◌∙◌, true, false, Option, none, some, arith, Text, text_eq→eq,
  text_eq_refl, JsMap, map_get, map_has,
}
use just_git.Server.Memory.{Ref, direct, symbolic, MemoryStorage, get_ref_map, atomic_ref_update}
use just_git.Server.Adapter.{
  GitRepo, swap_in, is_expected, compare_and_swap_ref, resolve_ref_chain, current_hash, same_hash,
}
use just_git.Server.Observe.{ref_at, get_ref_map_lem}
use just_git.Server.Swap.{compare_and_swap_ref_lem}

-- The hash at the end of a ref.
abbrev pub hash_at : MemoryStorage → GitRepo → Text → Option Text
hash_at s repo name = elim (ref_at s repo.repo_id name) [
  | none ↦ none
  | some ref ↦ elim ref [
    | direct hash ↦ some hash
    | symbolic target ↦ resolve_ref_chain 11 (ref_at s repo.repo_id) target
  ]
]

-- What a client expects of a ref: that it does not exist, or its hash.
abbrev pub IsAsExpected : MemoryStorage → GitRepo → Text → Option Text → Type 0
IsAsExpected s repo name none = ref_at s repo.repo_id name ≡ none
IsAsExpected s repo name (some expected) = hash_at s repo name ≡ some expected

resolve_ref_chain-ext :
    (rounds : ℕ) (f g : Text → Option Ref) (target : Text)
    → ((n : Text) → f n ≡ g n)
    → resolve_ref_chain rounds f target ≡ resolve_ref_chain rounds g target
unfolding resolve_ref_chain
resolve_ref_chain-ext zero f g target h = refl
resolve_ref_chain-ext (suc rounds) f g target h =
    by_ref (f target) (g target) (h target) (λ n. resolve_ref_chain-ext rounds f g n h)
  where
    read : (Text → Option Ref) → Option Ref → Option Text
    read k r = elim r [
      | none ↦ none
      | some ref ↦ elim ref [
        | direct hash ↦ some hash
        | symbolic next ↦ resolve_ref_chain rounds k next
      ]
    ]

    by_ref :
        (a b : Option Ref)
        → a ≡ b
        → ((n : Text) → resolve_ref_chain rounds f n ≡ resolve_ref_chain rounds g n)
        → read f a ≡ read g b
    by_ref a none e ih = rw e
    by_ref a (some (direct hash)) e ih = rw e
    by_ref a (some (symbolic next)) e ih = rw e (ih next)

current_hash-hash_at :
    (s : MemoryStorage) (repo : GitRepo) (name : Text)
    → current_hash (get_ref_map s repo.repo_id).0 (map_get (get_ref_map s repo.repo_id).0 name)
      ≡ hash_at s repo name
unfolding current_hash
current_hash-hash_at s repo name =
    rw (get_ref_map_lem s repo.repo_id name) (by_ref (ref_at s repo.repo_id name) refl)
  where
    by_ref :
        (r : Option Ref)
        → ref_at s repo.repo_id name ≡ r
        → current_hash (get_ref_map s repo.repo_id).0 (ref_at s repo.repo_id name)
          ≡ hash_at s repo name
    by_ref none e = ground (arith, e)
    by_ref (some (direct hash)) e = ground (arith, e)
    by_ref (some (symbolic target)) e = ground (
      arith,
      e,
      resolve_ref_chain-ext 11 (map_get (get_ref_map s repo.repo_id).0) (ref_at s repo.repo_id)
          target (get_ref_map_lem s repo.repo_id),
    )

compare_and_swap_ref-ok :
    (s : MemoryStorage) (repo : GitRepo) (name : Text) (old : Option Text) (new : Option Ref)
    → (compare_and_swap_ref s repo name old new).0
      ≡ is_expected (get_ref_map s repo.repo_id).0 name old
unfolding compare_and_swap_ref atomic_ref_update swap_in
compare_and_swap_ref-ok s repo name old new = ground arith

is_expected-none :
    (refs : JsMap Ref) (name : Text) → is_expected refs name none ≡ true → map_get refs name ≡ none
unfolding is_expected map_has
is_expected-none refs name h = ground arith

same_hash-eq :
    (o : Option Text) (expected : Text) → same_hash o (some expected) ≡ true → o ≡ some expected
unfolding same_hash
same_hash-eq none expected e = ground arith
same_hash-eq (some a) expected e = ap some (text_eq→eq a expected e)

is_expected-some :
    (refs : JsMap Ref) (name expected : Text)
    → is_expected refs name (some expected) ≡ true
    → current_hash refs (map_get refs name) ≡ some expected
unfolding is_expected
is_expected-some refs name expected h =
    same_hash-eq (current_hash refs (map_get refs name)) expected h

-- A compare-and-swap succeeds only if the ref was as the client expected.
pub compare_and_swap_ref-IsAsExpected :
    (s : MemoryStorage) (repo : GitRepo) (name : Text) (old : Option Text) (new : Option Ref)
    → (compare_and_swap_ref s repo name old new).0 ≡ true
    → IsAsExpected s repo name old
compare_and_swap_ref-IsAsExpected s repo name none new h =
    sym (get_ref_map_lem s repo.repo_id name)
    ∙ is_expected-none (get_ref_map s repo.repo_id).0 name
        (sym (compare_and_swap_ref-ok s repo name none new) ∙ h)
compare_and_swap_ref-IsAsExpected s repo name (some expected) new h =
    sym (current_hash-hash_at s repo name)
    ∙ is_expected-some (get_ref_map s repo.repo_id).0 name expected
        (sym (compare_and_swap_ref-ok s repo name (some expected) new) ∙ h)

is_expected-direct :
    (refs : JsMap Ref) (name hash : Text) (old : Option Text)
    → map_get refs name ≡ some (direct hash)
    → same_hash (some hash) old ≡ false
    → is_expected refs name old ≡ false
unfolding is_expected same_hash current_hash map_has
is_expected-direct refs name hash none e h = ground arith
is_expected-direct refs name hash (some o) e h = ground arith

-- Of two clients that expect the same of a ref, the second fails once the first has written a
-- hash that the second does not expect.
pub compare_and_swap_ref-race :
    (s : MemoryStorage) (repo : GitRepo) (name hash : Text) (old : Option Text) (new : Option Ref)
    → same_hash (some hash) old ≡ false
    → (compare_and_swap_ref s repo name old (some (direct hash))).0 ≡ true
    → (compare_and_swap_ref
        (compare_and_swap_ref s repo name old (some (direct hash))).1
        repo
        name
        old
        new).0
      ≡ false
compare_and_swap_ref-race s repo name hash old new d h =
    compare_and_swap_ref-ok after repo name old new
    ∙ is_expected-direct (get_ref_map after repo.repo_id).0 name hash old
        (get_ref_map_lem after repo.repo_id name
          ∙ ground (
            arith,
            compare_and_swap_ref_lem s repo name repo.repo_id name old (some (direct hash)),
            h,
            text_eq_refl repo.repo_id,
            text_eq_refl name,
          ))
        d
  where
    after : MemoryStorage
    after = (compare_and_swap_ref s repo name old (some (direct hash))).1
