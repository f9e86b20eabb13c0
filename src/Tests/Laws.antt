-- ===== src/Tests/Laws.antt =====
-- The disk and the manifest in memory keep the laws that the use cases rely on.
use mathlib.Core.Path.{fun_ext}
use file_reaper.Prelude.{◌≡◌, refl, [], ◌∷◌, map, arith}
use file_reaper.Quarantine.Gateway.{IsGateway}
use file_reaper.Quarantine.Rows.{IsJournal, lookup_entry}
use file_reaper.Tests.Disk.{disk, move_into-Moves, restore_move-Restores, purge-Purges}
use file_reaper.Tests.Table.{
  table, put, put_all, mark, mark_all, without, listing, rows-commit, lookup_entry-put,
  audit-commit_of_none, lookup_entry-put_all, lookup_entry-without, lookup_entry-mark, audit-commit,
  lookup_entry-mark_all, lookup_entry-listing, listing-HasDistinctIds,
}

unfoldable pub disk-IsGateway : IsGateway disk
disk-IsGateway = record {
  files = λ s. s.files;
  bytes = λ s. s.bytes;
  files-move = λ source destination identity roots s. move_into-Moves source destination s;
  files-restore = restore_move-Restores;
  files-purge = purge-Purges;
  recovery_location-reads = λ source surrogate s. refl;
  recovery_location-files = λ source surrogate s l h. ground arith;
  surrogate_state-reads = λ surrogate s. refl;
  surrogate_state-files = λ surrogate s v h. ground arith;
}

unfoldable pub table-IsJournal : IsJournal table
table-IsJournal = record {
  rows = λ s. lookup_entry s.entries;
  audit = λ s. s.audit;
  rows-insert_entry = λ e s. rows-commit (put e) [] s _ (lookup_entry-put e s.entries);
  audit-insert_entry = λ e s. audit-commit_of_none (put e) s;
  rows-insert_entries = λ es s. rows-commit (put_all es) [] s _ (lookup_entry-put_all es s.entries);
  audit-insert_entries = λ es s. audit-commit_of_none (put_all es) s;
  rows-remove_entry =
      λ id s. rows-commit (without id) [] s _ (fun_ext (lookup_entry-without id s.entries));
  audit-remove_entry = λ id s. audit-commit_of_none (without id) s;
  rows-confirm_with_audit = λ c s.
      rows-commit (mark c.entry_id c.status) (c.event ∷ []) s _
        (fun_ext (lookup_entry-mark c.entry_id c.status s.entries));
  audit-confirm_with_audit = λ c s. audit-commit (mark c.entry_id c.status) (c.event ∷ []) s;
  rows-confirm_batch = λ cs s.
      rows-commit (mark_all cs) (map (λ c. c.event) cs) s _ (lookup_entry-mark_all cs s.entries);
  audit-confirm_batch = λ cs s. audit-commit (mark_all cs) (map (λ c. c.event) cs) s;
  get_entry-reads = λ id s. (refl, refl);
  get_entry-rows = λ id s o h. ground (arith, h);
  list_entries-reads = λ s. (refl, refl);
  list_entries-rows = λ s es h.
      let same : listing s.entries ≡ es = ground (arith, h) in
      rw (← same) (fun_ext (lookup_entry-listing s.entries), listing-HasDistinctIds s.entries);
}
