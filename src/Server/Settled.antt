-- ===== src/Server/Settled.antt =====
-- Proofs about `applyReceivePack` of src/server/operations.ts: the refs at its end.
use just_git.Base.{
  ◌≡◌, refl, ◌∙◌, false, Option, none, some, List, [], ◌∷◌, arith, Text, text_eq_refl, some_of, All,
}
use just_git.Server.Memory.{MemoryStorage}
use just_git.Server.Adapter.{GitRepo}
use just_git.Server.Receive.{
  RefUpdate, RefUpdateResult, run_update, add_result, run_updates, ServerHooks, update_verdict,
  pre_receive_verdict, rollback_ingested_objects, declined, settle, apply_receive_pack,
}
use just_git.Server.Observe.{ref_at}
use just_git.Server.Swap.{new_ref, run_update-refs}
use just_git.Server.Push.{names, run_updates-refs}

-- No ref is named by two updates.
abbrev pub NamesDistinct : List RefUpdate → Type 0
NamesDistinct [] = Unit
NamesDistinct (u ∷ updates) = (names u.ref updates ≡ false) × NamesDistinct updates

-- Every update of the list can be read in the state.
abbrev pub AreSet : MemoryStorage → GitRepo → List RefUpdate → Type 0
AreSet s repo updates = All (λ u. ref_at s repo.repo_id u.ref ≡ new_ref u) updates

names-applied :
    (verdict : RefUpdate → Option Text) (s : MemoryStorage) (repo : GitRepo) (n : Text)
    (updates : List RefUpdate)
    → names n updates ≡ false
    → names n (run_updates verdict s repo updates).0.applied ≡ false
unfolding run_updates add_result some_of
names-applied verdict s repo n [] h = refl
names-applied verdict s repo n (u ∷ updates) h =
    ground (arith, names-applied verdict (run_update verdict s repo u).1 repo n updates)

run_updates-AreSet :
    (verdict : RefUpdate → Option Text) (s : MemoryStorage) (repo : GitRepo)
    (updates : List RefUpdate)
    → NamesDistinct updates
    → AreSet
        (run_updates verdict s repo updates).1
        repo
        (run_updates verdict s repo updates).0.applied
unfolding run_updates
run_updates-AreSet verdict s repo [] d = tt
run_updates-AreSet verdict s repo (u ∷ updates) d =
    by_error (run_update verdict s repo u).0 head_set
      (run_updates-AreSet verdict (run_update verdict s repo u).1 repo updates d.1)
  where
    after : MemoryStorage
    after = (run_updates verdict (run_update verdict s repo u).1 repo updates).1

    head_set : (run_update verdict s repo u).0 ≡ none → ref_at after repo.repo_id u.ref ≡ new_ref u
    head_set e =
        run_updates-refs verdict (run_update verdict s repo u).1 repo updates repo.repo_id u.ref (
          ground
            (arith, names-applied verdict (run_update verdict s repo u).1 repo u.ref updates d.0))
        ∙ ground (
          arith,
          run_update-refs verdict s repo u repo.repo_id u.ref,
          e,
          text_eq_refl repo.repo_id,
          text_eq_refl u.ref,
        )

    by_error :
        (e : Option Text)
        → (e ≡ none → ref_at after repo.repo_id u.ref ≡ new_ref u)
        → AreSet after repo
            (run_updates verdict (run_update verdict s repo u).1 repo updates).0.applied
        → AreSet after repo
            (add_result u e
              (run_updates verdict (run_update verdict s repo u).1 repo updates).0).applied
    by_error none h a = unfold add_result in (h refl, a)
    by_error (some m) h a = unfold add_result in a

-- Where no two updates of a push name one ref, every update that it applies can be read in the
-- end: its ref has the new hash, or is gone if the update deletes it.
pub apply_receive_pack-AreSet :
    (hooks : ServerHooks) (s : MemoryStorage) (repo : GitRepo) (updates : List RefUpdate)
    (ingested : List Text)
    → NamesDistinct updates
    → AreSet
        (apply_receive_pack hooks s repo updates ingested).1
        repo
        (apply_receive_pack hooks s repo updates ingested).0.applied
unfolding apply_receive_pack
apply_receive_pack-AreSet hooks s repo updates ingested d =
    by_verdict (pre_receive_verdict hooks updates)
  where
    by_applied :
        (applied : List RefUpdate) (r : RefUpdateResult × MemoryStorage)
        → r.0.applied ≡ applied
        → AreSet r.1 repo r.0.applied
        → AreSet (settle repo ingested r).1 repo (settle repo ingested r).0.applied
    by_applied [] r e a = unfold settle in rw (e, settle) (rw e tt)
    by_applied (u ∷ us) r e a = unfold settle in rw (e, settle) a

    by_verdict :
        (v : Option Text)
        → AreSet
            (elim v as (λ _. RefUpdateResult × MemoryStorage) [
              | some message ↦ (declined message updates, rollback_ingested_objects s repo ingested)
              | none ↦ settle repo ingested (run_updates (update_verdict hooks) s repo updates)
            ]).1
            repo
            (elim v as (λ _. RefUpdateResult × MemoryStorage) [
              | some message ↦ (declined message updates, rollback_ingested_objects s repo ingested)
              | none ↦ settle repo ingested (run_updates (update_verdict hooks) s repo updates)
            ]).0.applied
    by_verdict (some m) = unfold declined in tt
    by_verdict none =
        by_applied (run_updates (update_verdict hooks) s repo updates).0.applied
          (run_updates (update_verdict hooks) s repo updates) refl
          (run_updates-AreSet (update_verdict hooks) s repo updates d)
