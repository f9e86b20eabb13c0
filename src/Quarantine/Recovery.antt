-- ===== src/Quarantine/Recovery.antt =====
-- core/app/src/quarantine.rs: `QuarantineRecovery`.
pub mod Pass
pub mod Rounds
pub mod Fates
pub mod Reconcile
use file_reaper.Prelude.{ℕ, List, [], ◌∷◌, ◌++◌, keep_if}
use file_reaper.Prelude.Text.{Text}
use file_reaper.Outcome.{internal, Result, Exec, pure, raise, lift, ◌>>=◌, ◌>>◌}
use file_reaper.Quarantine.{
  reap, purge_manual, recovery, QuarantineStatus, is_in_flight, is_quarantined, QuarantineEntry,
}
use file_reaper.Quarantine.Ports.{
  QuarantineFs, QuarantineManifest, RecoveryLocation, source_only, quarantine_only, both,
  SurrogateState, present, root_unavailable, World, on_fs, on_manifest,
}
use file_reaper.Quarantine.Reap.{confirmation}
use file_reaper.Quarantine.Purge.{sort_by_id}

pub record RecoveryResult : Type 0 where
  pub completed : List ℕ
  pub rolled_back : List ℕ
  pub purge_completed : List ℕ

-- `for entry in entries { … }` over a body that updates the result and may fail.
unfoldable pub for_each :
    {S : Type 0}
    → (RecoveryResult → QuarantineEntry → Exec S RecoveryResult)
    → RecoveryResult
    → List QuarantineEntry
    → Exec S RecoveryResult
for_each body result [] = pure result
for_each body result (entry ∷ entries) = do next ← body result entry; for_each body next entries

module _ (F : QuarantineFs) (M : QuarantineManifest)
    (surrogate_path : QuarantineEntry → Result Text) where
  -- The `match` on what stands where.
  unfoldable pub settle_in_flight :
      RecoveryResult → QuarantineEntry → RecoveryLocation → Exec (World F M) RecoveryResult
  settle_in_flight result entry source_only = do
    on_manifest (M.remove_entry entry.id)
    pure (record result { rolled_back = result.rolled_back ++ entry.id ∷ [] })
  settle_in_flight result entry quarantine_only = do
    on_manifest
        (M.confirm_with_audit (confirmation entry QuarantineStatus.quarantined reap recovery))
    pure (record result { completed = result.completed ++ entry.id ∷ [] })
  settle_in_flight result entry both = raise internal
  settle_in_flight result entry RecoveryLocation.missing = raise internal

  unfoldable pub recover_in_flight :
      RecoveryResult → QuarantineEntry → Exec (World F M) RecoveryResult
  recover_in_flight result entry = do
    surrogate ← lift (surrogate_path entry)
    location ← on_fs (F.recovery_location entry.original_path surrogate)
    settle_in_flight result entry location

  unfoldable pub settle_quarantined :
      RecoveryResult → QuarantineEntry → SurrogateState → Exec (World F M) RecoveryResult
  settle_quarantined result entry present = pure result
  settle_quarantined result entry root_unavailable = pure result
  settle_quarantined result entry SurrogateState.missing = do
    on_manifest
        (M.confirm_with_audit (confirmation entry QuarantineStatus.purged purge_manual recovery))
    pure (record result { purge_completed = result.purge_completed ++ entry.id ∷ [] })

  unfoldable pub recover_quarantined :
      RecoveryResult → QuarantineEntry → Exec (World F M) RecoveryResult
  recover_quarantined result entry = do
    surrogate ← lift (surrogate_path entry)
    state ← on_fs (F.surrogate_state surrogate)
    settle_quarantined result entry state

  -- `QuarantineRecovery::reconcile_in_flight`
  unfoldable pub reconcile_in_flight :
      List QuarantineEntry → RecoveryResult → Exec (World F M) RecoveryResult
  unfolding keep_if is_in_flight sort_by_id
  reconcile_in_flight entries result =
      for_each recover_in_flight result (sort_by_id (keep_if (λ e. is_in_flight e.status) entries))

  -- `QuarantineRecovery::reconcile_interrupted_purge`
  unfoldable pub reconcile_interrupted_purge :
      List QuarantineEntry → RecoveryResult → Exec (World F M) RecoveryResult
  unfolding keep_if is_quarantined sort_by_id
  reconcile_interrupted_purge entries result =
      for_each recover_quarantined result
        (sort_by_id (keep_if (λ e. is_quarantined e.status) entries))

  -- What `QuarantineRecovery::reconcile` does with the entries of the manifest.
  unfoldable pub reconcile_entries : List QuarantineEntry → Exec (World F M) RecoveryResult
  reconcile_entries entries = do
    settled ←
        reconcile_in_flight entries
          (record { completed = []; rolled_back = []; purge_completed = [] })
    reconcile_interrupted_purge entries settled

  -- `QuarantineRecovery::reconcile`
  unfoldable pub reconcile : Exec (World F M) RecoveryResult
  reconcile = do entries ← on_manifest M.list_entries; reconcile_entries entries
