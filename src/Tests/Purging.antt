-- ===== src/Tests/Purging.antt =====
-- Examples for the sweeper and for the manual purge.
use file_reaper.Prelude.{All, saturating_add, ℕ, ◌≡◌, refl, true, [], ◌∷◌, ◌++◌, map}
use file_reaper.Prelude.Int.{pos}
use file_reaper.Prelude.Text.{text_eq}
use file_reaper.Quarantine.{QuarantineStatus, quarantined, purge_ttl, purge_manual, sweeper, user}
use file_reaper.Quarantine.Ports.{World}
use file_reaper.Quarantine.Rows.{lookup_entry}
use file_reaper.Quarantine.Reap.{event_of}
use file_reaper.Quarantine.Purge.{
  SweepResult, ManualPurgeResult, entries, is_selected, sweep_once, sweep_targets, sweep_result,
  as_purged, purge, purge_one, purge_selected, check_selection, manual_targets, sort_by_id,
  purge_targets,
}
use file_reaper.Quarantine.Purge.Targets.{PurgedOrSame, IsGone, purge_targets-IsGone}
use file_reaper.Quarantine.Purge.Listing.{option_as_purged, keep_option}
use file_reaper.Quarantine.Purge.Sweep.{is_due, expire, sweep_once-PurgedOrSame, sweep_once-ok}
use file_reaper.Quarantine.Purge.Manual.{is_target, empty_out, purge-PurgedOrSame, purge-ok}
use file_reaper.Tests.Disk.{disk}
use file_reaper.Tests.Table.{table}
use file_reaper.Tests.Laws.{disk-IsGateway, table-IsJournal}
use file_reaper.Tests.Data.{surrogate_a, surrogate_b, entry_a, entry_b, world, surrogate_path}

-- Two files in the quarantine. The first expires at 200, the second at 900.
abbrev quarantine : World disk table
quarantine =
    world (surrogate_a ∷ surrogate_b ∷ []) [] (entry_a quarantined ∷ entry_b quarantined ∷ []) []

abbrev swept : SweepResult
swept = record {
  purged = entry_a QuarantineStatus.purged ∷ [];
  purged_bytes = 10;
  held_bytes = 20;
  threshold_exceeded = true;
}

sweep_once-ok_example :
    let w = (sweep_once disk table surrogate_path (pos 300) 15 quarantine).1 in
    let rows = lookup_entry quarantine.manifest.entries in
    ((i : ℕ) → lookup_entry w.manifest.entries i ≡ expire (pos 300) (rows i))
    × ((i : ℕ)
        → lookup_entry swept.purged i ≡ option_as_purged (keep_option (is_due (pos 300)) (rows i)))
    × (w.manifest.audit ≡ [] ++ map (λ e. event_of e purge_ttl sweeper) swept.purged)
unfolding disk-IsGateway table-IsJournal text_eq lookup_entry sweep_once sweep_targets purge_one
    sweep_result
sweep_once-ok_example =
    sweep_once-ok disk-IsGateway table-IsJournal surrogate_path (pos 300) 15 quarantine swept refl

sweep_once-PurgedOrSame_example :
    PurgedOrSame
      (λ e. is_due (pos 300) e ≡ true)
      (lookup_entry quarantine.manifest.entries)
      (lookup_entry
        (sweep_once disk table surrogate_path (pos 300) 15 quarantine).1.manifest.entries)
      1
unfolding disk-IsGateway table-IsJournal
sweep_once-PurgedOrSame_example =
    sweep_once-PurgedOrSame disk-IsGateway table-IsJournal surrogate_path (pos 300) 15 quarantine 1

abbrev purged_b : ManualPurgeResult
purged_b = record { purged = entry_b QuarantineStatus.purged ∷ []; purged_bytes = 20 }

purge-ok_example :
    let w = (purge disk table surrogate_path (entries (2 ∷ [])) quarantine).1 in
    let rows = lookup_entry quarantine.manifest.entries in
    ((i : ℕ) → lookup_entry w.manifest.entries i ≡ empty_out (entries (2 ∷ [])) (rows i))
    × ((i : ℕ)
        → lookup_entry purged_b.purged i
          ≡ option_as_purged (keep_option (is_target (entries (2 ∷ []))) (rows i)))
    × (w.manifest.audit ≡ [] ++ map (λ e. event_of e purge_manual user) purged_b.purged)
unfolding disk-IsGateway table-IsJournal text_eq lookup_entry purge purge_selected check_selection
    manual_targets purge_targets sort_by_id purge_one
purge-ok_example =
    purge-ok disk-IsGateway table-IsJournal surrogate_path (entries (2 ∷ [])) quarantine purged_b
      refl

purge-PurgedOrSame_example :
    PurgedOrSame
      (λ e. is_selected (entries (2 ∷ [])) e ≡ true)
      (lookup_entry quarantine.manifest.entries)
      (lookup_entry
        (purge disk table surrogate_path (entries (2 ∷ [])) quarantine).1.manifest.entries)
      2
unfolding disk-IsGateway table-IsJournal
purge-PurgedOrSame_example =
    purge-PurgedOrSame disk-IsGateway table-IsJournal surrogate_path (entries (2 ∷ [])) quarantine 2

purge_targets-IsGone_example :
    let t =
      purge_targets disk table surrogate_path purge_manual user
        (entry_a quarantined ∷ entry_b quarantined ∷ [])
        []
        0
        quarantine in
    All
      (IsGone disk-IsGateway table-IsJournal surrogate_path purge_manual user t.1.fs)
      (entry_a quarantined ∷ entry_b quarantined ∷ [])
unfolding disk-IsGateway table-IsJournal text_eq purge_targets purge_one saturating_add
purge_targets-IsGone_example =
    purge_targets-IsGone disk-IsGateway table-IsJournal surrogate_path purge_manual user
      (entry_a quarantined ∷ entry_b quarantined ∷ []) [] 0 quarantine
      (as_purged (entry_a quarantined) ∷ as_purged (entry_b quarantined) ∷ [], 30) refl
