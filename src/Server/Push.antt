-- ===== src/Server/Push.antt =====
-- Proofs about `applyReceivePack` of src/server/operations.ts: what a push changes.
use just_git.Base.{
  ◌≡◌, refl, ◌∙◌, Bool, true, false, ◌&&◌, ◌||◌, Option, none, some, List, [], ◌∷◌, arith, Text,
  text_eq, some_of, All, set_has, if◌then◌else◌,
}
use just_git.RefFormat.{check_ref_format}
use just_git.Server.Memory.{NewObject, MemoryStorage}
use just_git.Server.Adapter.{GitRepo, head, commit_pack}
use just_git.Server.Receive.{
  RefUpdate, RefUpdateResult, name_error, run_update, add_result, run_updates, ServerHooks,
  update_verdict, pre_receive_verdict, rollback_ingested_objects, declined, settle,
  apply_receive_pack,
}
use just_git.Server.Observe.{object_at, ref_at, SameObjects, SameRefs}
use just_git.Server.Swap.{run_update-refs, run_update-objects}
use just_git.Server.Rollback.{rollback_lem, rollback-refs, commit_pack_lem, commit_pack-refs}

-- An update of the list names the ref.
abbrev pub names : Text → List RefUpdate → Bool
names n updates = some_of (λ u. text_eq u.ref n) updates

pub run_updates-refs :
    (verdict : RefUpdate → Option Text) (s : MemoryStorage) (repo : GitRepo)
    (updates : List RefUpdate) (other n : Text)
    → (text_eq repo.repo_id other && names n (run_updates verdict s repo updates).0.applied) ≡ false
    → ref_at (run_updates verdict s repo updates).1 other n ≡ ref_at s other n
unfolding run_updates add_result some_of
run_updates-refs verdict s repo [] other n h = refl
run_updates-refs verdict s repo (u ∷ updates) other n h = ground (
  arith,
  run_updates-refs verdict (run_update verdict s repo u).1 repo updates other n,
  run_update-refs verdict s repo u other n,
)

run_updates-objects :
    (verdict : RefUpdate → Option Text) (s : MemoryStorage) (repo : GitRepo)
    (updates : List RefUpdate)
    → SameObjects (run_updates verdict s repo updates).1 s
unfolding run_updates
run_updates-objects verdict s repo [] other k = refl
run_updates-objects verdict s repo (u ∷ updates) other k =
    run_updates-objects verdict (run_update verdict s repo u).1 repo updates other k
    ∙ run_update-objects verdict s repo u other k

-- A ref that the push does not report as applied, or of another repository, reads as before.
pub apply_receive_pack-untouched :
    (hooks : ServerHooks) (s : MemoryStorage) (repo : GitRepo) (updates : List RefUpdate)
    (ingested : List Text) (other n : Text)
    → (text_eq repo.repo_id other
        && names n (apply_receive_pack hooks s repo updates ingested).0.applied)
      ≡ false
    → ref_at (apply_receive_pack hooks s repo updates ingested).1 other n ≡ ref_at s other n
unfolding apply_receive_pack settle
apply_receive_pack-untouched hooks s repo updates ingested other n h = ground (
  arith,
  run_updates-refs (update_verdict hooks) s repo updates other n,
  rollback-refs s repo ingested other n,
  rollback-refs (run_updates (update_verdict hooks) s repo updates).1 repo ingested other n,
)

apply_receive_pack-objects :
    (hooks : ServerHooks) (s : MemoryStorage) (repo : GitRepo) (updates : List RefUpdate)
    (ingested : List Text) (other k : Text)
    → (apply_receive_pack hooks s repo updates ingested).0.applied ≡ []
    → object_at (apply_receive_pack hooks s repo updates ingested).1 other k
      ≡ (if text_eq repo.repo_id other && set_has ingested k then none else object_at s other k)
unfolding apply_receive_pack settle
apply_receive_pack-objects hooks s repo updates ingested other k h = ground (
  arith,
  run_updates-objects (update_verdict hooks) s repo updates other k,
  rollback_lem s repo ingested other k,
  rollback_lem (run_updates (update_verdict hooks) s repo updates).1 repo ingested other k,
)

-- A push whose pack was ingested and of which no update is applied leaves every object and every
-- ref of every repository as they were before the pack.
pub apply_receive_pack-rollback :
    (hooks : ServerHooks) (s : MemoryStorage) (repo : GitRepo) (batch : List NewObject)
    (updates : List RefUpdate)
    → (apply_receive_pack hooks
        (commit_pack s repo batch).1
        repo
        updates
        (commit_pack s repo batch).0).0.applied
      ≡ []
    → SameObjects
        (apply_receive_pack hooks
          (commit_pack s repo batch).1
          repo
          updates
          (commit_pack s repo batch).0).1
        s
      × SameRefs
          (apply_receive_pack hooks
            (commit_pack s repo batch).1
            repo
            updates
            (commit_pack s repo batch).0).1
          s
apply_receive_pack-rollback hooks s repo batch updates h = (
  (λ other k.
      apply_receive_pack-objects hooks (commit_pack s repo batch).1 repo updates
        (commit_pack s repo batch).0 other k h
      ∙ commit_pack_lem s repo batch other k),
  (λ other n.
      apply_receive_pack-untouched hooks (commit_pack s repo batch).1 repo updates
        (commit_pack s repo batch).0 other n (none_named other n)
      ∙ commit_pack-refs s repo batch other n),
)
  where
    none_named :
        (other n : Text)
        → (text_eq repo.repo_id other
            && names n
                (apply_receive_pack hooks
                  (commit_pack s repo batch).1
                  repo
                  updates
                  (commit_pack s repo batch).0).0.applied)
          ≡ false
    none_named other n = unfold some_of in rw h (ground arith)

-- What the tests of a round promise of an update that it applied.
abbrev pub IsAllowed : RefUpdate → Type 0
IsAllowed u =
    (text_eq u.ref head ≡ false) × ((u.is_delete || check_ref_format u.ref false false) ≡ true)

run_update-IsAllowed :
    (verdict : RefUpdate → Option Text) (s : MemoryStorage) (repo : GitRepo) (u : RefUpdate)
    → (run_update verdict s repo u).0 ≡ none
    → IsAllowed u × (verdict u ≡ none)
unfolding run_update name_error
run_update-IsAllowed verdict s repo u h = ground arith

run_updates-IsAllowed :
    (verdict : RefUpdate → Option Text) (s : MemoryStorage) (repo : GitRepo)
    (updates : List RefUpdate)
    → All (λ u. IsAllowed u × (verdict u ≡ none)) (run_updates verdict s repo updates).0.applied
unfolding run_updates
run_updates-IsAllowed verdict s repo [] = tt
run_updates-IsAllowed verdict s repo (u ∷ updates) =
    by_error (run_update verdict s repo u).0 (run_update-IsAllowed verdict s repo u)
      (run_updates verdict (run_update verdict s repo u).1 repo updates).0
      (run_updates-IsAllowed verdict (run_update verdict s repo u).1 repo updates)
  where
    by_error :
        (e : Option Text)
        → (e ≡ none → IsAllowed u × (verdict u ≡ none))
        → (r : RefUpdateResult) → All (λ u. IsAllowed u × (verdict u ≡ none)) r.applied
        → All (λ u. IsAllowed u × (verdict u ≡ none)) (add_result u e r).applied
    by_error none h r a = unfold add_result in (h refl, a)
    by_error (some m) h r a = unfold add_result in a

settle_lem :
    (repo : GitRepo) (ingested : List Text) (r : RefUpdateResult × MemoryStorage)
    → (settle repo ingested r).0 ≡ r.0
unfolding settle
settle_lem repo ingested r = ground arith

-- Every update that a push applies names a ref other than HEAD, of a valid name unless it
-- deletes the ref, and was not rejected by the update hook.
pub apply_receive_pack-IsAllowed :
    (hooks : ServerHooks) (s : MemoryStorage) (repo : GitRepo) (updates : List RefUpdate)
    (ingested : List Text)
    → All
        (λ u. IsAllowed u × (update_verdict hooks u ≡ none))
        (apply_receive_pack hooks s repo updates ingested).0.applied
unfolding apply_receive_pack
apply_receive_pack-IsAllowed hooks s repo updates ingested =
    by_verdict (pre_receive_verdict hooks updates)
      (run_updates (update_verdict hooks) s repo updates)
      (run_updates-IsAllowed (update_verdict hooks) s repo updates)
  where
    by_verdict :
        (v : Option Text) (r : RefUpdateResult × MemoryStorage)
        → All (λ u. IsAllowed u × (update_verdict hooks u ≡ none)) r.0.applied
        → All
            (λ u. IsAllowed u × (update_verdict hooks u ≡ none))
            (elim v as (λ _. RefUpdateResult × MemoryStorage) [
              | some message ↦ (declined message updates, rollback_ingested_objects s repo ingested)
              | none ↦ settle repo ingested r
            ]).0.applied
    by_verdict (some m) r a = unfold declined in tt
    by_verdict none r a = rw (settle_lem repo ingested r) a
