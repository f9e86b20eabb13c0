-- ===== src/Delta/Ports.antt =====
-- core/app/src/ports.rs and core/domain/src/scan.rs: what the use case of a delta calls of the hot index and of the store, and
-- the outcome of reading a journal.
use file_reaper.Prelude.{ℕ, ◌≡◌, Option, none, some, List, ◌==◌, if◌then◌else◌}
use file_reaper.Prelude.Int.{ℤ}
use file_reaper.Prelude.Text.{Text}
use file_reaper.Gate.{upper}
use file_reaper.Outcome.{Exec}
use file_reaper.Quarantine.Rows.{Commits}
use file_reaper.Index.Packing.{FileRecord}
use file_reaper.Usn.{UsnChange}

pub record UsnCursor : Type 0 where
  pub journal_id : ℕ
  pub next_usn : ℤ

pub record UsnJournalInfo : Type 0 where
  pub journal_id : ℕ
  pub lowest_valid_usn : ℤ
  pub next_usn : ℤ
  pub first_usn : ℤ

pub data UsnReadOutcome : Type 0 where
  changes : List UsnChange → UsnCursor → UsnReadOutcome
  journal_stale : UsnJournalInfo → Text → UsnReadOutcome

pub record DeltaIndex : Type 1 where
  pub State : Type 0
  pub max_candidate_id : Exec State ℕ
  pub remove_paths : List Text → Exec State ℕ
  pub upsert_batch : List FileRecord → Exec State (Unit {0})

pub record IndexStore : Type 1 where
  pub State : Type 0
  pub set_usn_cursor : ℕ → UsnCursor → Exec State (Unit {0})
  pub clear_usn_cursor : ℕ → Exec State (Unit {0})
  pub delete_file_records_by_path : Text → Exec State ℕ

-- The cursor of each volume. The store finds a volume by its letter, in either case.
abbrev pub Cursors : Type 0
Cursors = ℕ → Option UsnCursor

unfoldable pub set_cursor : ℕ → Option UsnCursor → Cursors → Cursors
unfolding upper
set_cursor volume cursor cursors v = if upper volume == upper v then cursor else cursors v

-- What the use case relies on of a store: a cursor is written or not, and nothing else writes one.
pub record KeepsCursors (S : IndexStore) : Type 0 where
  pub cursors : S.State → Cursors
  pub cursors-set :
      (volume : ℕ) (cursor : UsnCursor) (s : S.State)
      → let r = S.set_usn_cursor volume cursor s in
        Commits r.0 (cursors s) (set_cursor volume (some cursor) (cursors s)) (cursors r.1)
  pub cursors-clear :
      (volume : ℕ) (s : S.State)
      → let r = S.clear_usn_cursor volume s in
        Commits r.0 (cursors s) (set_cursor volume none (cursors s)) (cursors r.1)
  pub cursors-delete :
      (path : Text) (s : S.State) → cursors (S.delete_file_records_by_path path s).1 ≡ cursors s
