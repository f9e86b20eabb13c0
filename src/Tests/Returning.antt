-- ===== src/Tests/Returning.antt =====
-- Examples for the restorer and for the reconciliation.
use file_reaper.Prelude.{ℕ, ◌≡◌, ◌⊎◌, refl, true, false, none, some, [], ◌∷◌}
use file_reaper.Prelude.Text.{text_eq, codes}
use file_reaper.Quarantine.{
  QuarantineEntry, QuarantineStatus, quarantined, in_flight, is_quarantined,
}
use file_reaper.Quarantine.Ports.{World}
use file_reaper.Quarantine.Rows.{lookup_entry}
use file_reaper.Quarantine.Gateway.{Same, seen, is_at_or_below}
use file_reaper.Quarantine.Restore.{
  RestoreRequest, RestoreOutcome, restore_one, restorable, restore_entry, restore_attempts,
}
use file_reaper.Quarantine.Destination.{restore_destination}
use file_reaper.Quarantine.Restore.One.{IsRestored, restore_one-ok, restore_one-keeps}
use file_reaper.Quarantine.Recovery.{
  RecoveryResult, reconcile, reconcile_entries, reconcile_in_flight, for_each, recover_in_flight,
  settle_in_flight, reconcile_interrupted_purge, recover_quarantined, settle_quarantined,
}
use file_reaper.Quarantine.Recovery.Fates.{Fate}
use file_reaper.Quarantine.Recovery.Reconcile.{reconcile-ok, reconcile-is_safe}
use file_reaper.Tests.Disk.{disk}
use file_reaper.Tests.Table.{table}
use file_reaper.Tests.Laws.{disk-IsGateway, table-IsJournal}
use file_reaper.Tests.Data.{source_a, surrogate_a, entry_a, entry_b, world, surrogate_path}

-- The original path is taken.
abbrev occupied : World disk table
occupied = world (source_a ∷ surrogate_a ∷ []) [] (entry_a quarantined ∷ []) []

abbrev restore_a : RestoreRequest
restore_a = record { entry_id = 1; surrogate_path = surrogate_a }

abbrev restored_a : RestoreOutcome
restored_a = record {
  entry = entry_a QuarantineStatus.restored;
  restored_path = codes "C:\\a (відновлено).txt";
  used_suffix = true;
}

restore_one-ok_example :
    (e : QuarantineEntry) × (lookup_entry occupied.manifest.entries 1 ≡ some e)
    × (is_quarantined e.status ≡ true)
    × ((k : ℕ) × IsRestored disk-IsGateway table-IsJournal surrogate_a e occupied
          (restore_one disk table restore_a occupied).1
          restored_a
          k)
unfolding disk-IsGateway table-IsJournal text_eq lookup_entry restore_one restorable restore_entry
    restore_attempts restore_destination
restore_one-ok_example =
    restore_one-ok disk-IsGateway table-IsJournal restore_a occupied restored_a refl

restore_one-keeps_example :
    Same
      (seen disk-IsGateway occupied.fs)
      (seen disk-IsGateway (restore_one disk table restore_a occupied).1.fs)
      source_a
unfolding disk-IsGateway table-IsJournal text_eq lookup_entry is_at_or_below
restore_one-keeps_example =
    restore_one-keeps disk-IsGateway table-IsJournal restore_a occupied source_a refl refl

-- A reap that was cut short behind its move, and a purge that was cut short.
abbrev interrupted : World disk table
interrupted = world (surrogate_a ∷ []) [] (entry_a in_flight ∷ entry_b quarantined ∷ []) []

abbrev reconciled : RecoveryResult
reconciled = record { completed = 1 ∷ []; rolled_back = []; purge_completed = 2 ∷ [] }

reconcile-ok_example :
    let w = (reconcile disk table surrogate_path interrupted).1 in
    let rows = lookup_entry interrupted.manifest.entries in
    let rows' = lookup_entry w.manifest.entries in
    (w.fs.files ≡ interrupted.fs.files)
    × ((i : ℕ) → rows i ≡ none → rows' i ≡ none)
    × ((i : ℕ) (e : QuarantineEntry)
        → rows i ≡ some e
        → Fate surrogate_path interrupted.fs.files e.status e (rows' i))
unfolding disk-IsGateway table-IsJournal text_eq lookup_entry reconcile reconcile_entries
    reconcile_in_flight for_each recover_in_flight settle_in_flight reconcile_interrupted_purge
    recover_quarantined settle_quarantined
reconcile-ok_example =
    reconcile-ok disk-IsGateway table-IsJournal surrogate_path interrupted reconciled refl

-- The second confirmation fails.
abbrev interrupted_again : World disk table
interrupted_again =
    world (surrogate_a ∷ []) [] (entry_a in_flight ∷ entry_b quarantined ∷ []) (false ∷ true ∷ [])

reconcile-is_safe_example :
    let w = (reconcile disk table surrogate_path interrupted_again).1 in
    let rows = lookup_entry interrupted_again.manifest.entries in
    let rows' = lookup_entry w.manifest.entries in
    (w.fs.files ≡ interrupted_again.fs.files)
    × ((i : ℕ)
        → (rows' i ≡ rows i)
          ⊎ ((e : QuarantineEntry) × (rows i ≡ some e)
              × Fate surrogate_path interrupted_again.fs.files e.status e (rows' i)))
unfolding disk-IsGateway table-IsJournal
reconcile-is_safe_example =
    reconcile-is_safe disk-IsGateway table-IsJournal surrogate_path interrupted_again
