-- ===== src/Tests/Syncing.antt =====
-- Deltas of a journal on Windows: a file that is created and deleted, one that moves into the
-- quarantine, and a store in memory.
use file_reaper.Prelude.{ℕ, ◌≡◌, refl, false, Option, none, some, List, [], ◌∷◌, ◌++◌, length}
use file_reaper.Prelude.Int.{pos}
use file_reaper.Prelude.Text.{Text, codes}
use file_reaper.Platform.{windows}
use file_reaper.Outcome.{ok, err, io}
use file_reaper.Quarantine.Rows.{Commits}
use file_reaper.Index.Packing.{FileRecord}
use file_reaper.Usn.{UsnChange}
use file_reaper.Delta.{FileProbe, PathMap}
use file_reaper.Delta.Plan.{plan_usn_mutations}
use file_reaper.Delta.Counts.{IsPlan}
use file_reaper.Delta.Candidates.{plan_usn_mutations-IsPlan}
use file_reaper.Delta.Ports.{
  UsnCursor, changes, DeltaIndex, IndexStore, Cursors, set_cursor, KeepsCursors,
}
use file_reaper.Delta.Sync.{DeltaWorld, process_usn_sync}
use file_reaper.Delta.Cursor.{cursor_after, process_usn_sync-cursors}

abbrev no_parent : Text → Text
no_parent path = []

abbrev no_probe : ℕ → Text → Option FileProbe
no_probe id path = none

abbrev change : ℕ → ℕ → Text → UsnChange
change file_ref reason name = record {
  usn = pos 1;
  file_ref = file_ref;
  parent_ref = 5;
  reason = reason;
  name = name;
  is_directory = false;
  timestamp = none;
}

abbrev created_and_deleted : List UsnChange
created_and_deleted = change 9 0x100 (codes "a.tmp") ∷ change 9 0x200 (codes "a.tmp") ∷ []

abbrev volume_root : PathMap
volume_root = (5, codes "C:") ∷ []

plan_usn_mutations-IsPlan_example :
    IsPlan windows 7
      (plan_usn_mutations windows no_parent no_probe created_and_deleted volume_root 7)
plan_usn_mutations-IsPlan_example =
    plan_usn_mutations-IsPlan windows no_parent no_probe 7 created_and_deleted volume_root

abbrev memory_index : DeltaIndex
memory_index = record {
  State = List FileRecord;
  max_candidate_id = λ s. (ok (length s), s);
  remove_paths = λ paths s. (ok 0, s);
  upsert_batch = λ rs s. (ok tt, s ++ rs);
}

-- The store refuses to delete a path of its own.
abbrev memory_store : IndexStore
memory_store = record {
  State = Cursors;
  set_usn_cursor = λ volume cursor s. (ok tt, set_cursor volume (some cursor) s);
  clear_usn_cursor = λ volume s. (ok tt, set_cursor volume none s);
  delete_file_records_by_path = λ path s. (err io, s);
}

memory_store-KeepsCursors : KeepsCursors memory_store
memory_store-KeepsCursors = record {
  cursors = λ s. s;
  cursors-set = λ volume cursor s. refl;
  cursors-clear = λ volume s. refl;
  cursors-delete = λ path s. refl;
}

abbrev world : DeltaWorld memory_index memory_store
world = record { index = []; store = λ v. none; cache = volume_root }

abbrev next : UsnCursor
next = record { journal_id = 1; next_usn = pos 100 }

process_usn_sync-cursors_example :
    let outcome = changes created_and_deleted next in
    let r =
      process_usn_sync memory_index memory_store windows no_parent no_probe outcome b'C' world in
    Commits r.0 (λ v. none) (set_cursor b'C' (cursor_after outcome) (λ v. none)) r.1.store
unfolding process_usn_sync memory_store-KeepsCursors
process_usn_sync-cursors_example =
    process_usn_sync-cursors memory_index memory_store memory_store-KeepsCursors windows no_parent
      no_probe (changes created_and_deleted next) b'C' world

-- The deleted file is in the index, because all removals come before all records.
deleted_file_stays :
    length
      (process_usn_sync memory_index memory_store windows no_parent no_probe
        (changes created_and_deleted next)
        b'C'
        world).1.index
    ≡ 1
unfolding process_usn_sync
deleted_file_stays = refl
