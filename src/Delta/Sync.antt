-- ===== src/Delta/Sync.antt =====
-- core/app/src/usn_apply.rs and core/app/src/usn_fallback.rs: a delta is planned and applied to the
-- hot index and to the store, and then the cursor is moved; a stale journal asks for a full scan.
use file_reaper.Prelude.{ℕ, Option, List, [], ◌∷◌, if◌then◌else◌, saturating_add}
use file_reaper.Prelude.Text.{Text, codes, text_eq}
use file_reaper.Platform.{Platform}
use file_reaper.Outcome.{ok, internal, raise, Exec, pure, ◌>>=◌, ◌>>◌}
use file_reaper.Index.Packing.{FileRecord}
use file_reaper.Usn.{UsnChange}
use file_reaper.Gate.{upper}
use file_reaper.Delta.{
  FileProbe, PathMap, IndexMutation, upsert, remove, UsnApplyStats, seed_volume_root,
}
use file_reaper.Delta.Planning.{Planning}
use file_reaper.Delta.Plan.{plan_usn_mutations}
use file_reaper.Delta.Ports.{
  UsnCursor, UsnJournalInfo, UsnReadOutcome, changes, journal_stale, DeltaIndex, IndexStore,
}

pub data FullRescanReason : Type 0 where
  journal_id_changed usn_below_lowest_valid journal_entry_deleted : FullRescanReason
  journal_id_changed_during_read other : FullRescanReason

-- `FullRescanReason::from_stale_reason`
unfoldable pub from_stale_reason : Text → FullRescanReason
unfolding text_eq
from_stale_reason reason =
    if text_eq reason (codes "journal_id_changed")
    then journal_id_changed
    else if text_eq reason (codes "usn_below_lowest_valid")
    then usn_below_lowest_valid
    else if text_eq reason (codes "journal_entry_deleted")
    then journal_entry_deleted
    else if text_eq reason (codes "journal_id_changed_during_read")
    then journal_id_changed_during_read
    else other

-- Without the texts, which the reason tells.
pub record FullRescanRequest : Type 0 where
  pub volume : ℕ
  pub reason : FullRescanReason
  pub journal : UsnJournalInfo

pub data UsnSyncResult : Type 0 where
  applied : UsnApplyStats → UsnSyncResult
  full_rescan_required : FullRescanRequest → UsnSyncResult

-- The index, the store, and the cache that the caller lends.
pub record DeltaWorld (I : DeltaIndex) (S : IndexStore) : Type 0 where
  pub index : I.State
  pub store : S.State
  pub cache : PathMap

-- The two lists that `apply_mutations_to_hot_index` makes.
unfoldable pub removed_paths : List IndexMutation → List Text
removed_paths [] = []
removed_paths (upsert r ∷ ms) = removed_paths ms
removed_paths (remove path ∷ ms) = path ∷ removed_paths ms

unfoldable pub upserted_records : List IndexMutation → List FileRecord
upserted_records [] = []
upserted_records (upsert r ∷ ms) = r ∷ upserted_records ms
upserted_records (remove path ∷ ms) = upserted_records ms

module _ (I : DeltaIndex) where
  unfoldable pub remove_some : List Text → Exec I.State (Unit {0})
  remove_some [] = pure tt
  remove_some (path ∷ paths) = do I.remove_paths (path ∷ paths); pure tt

  unfoldable pub upsert_some : List FileRecord → Exec I.State (Unit {0})
  upsert_some [] = pure tt
  upsert_some (r ∷ rs) = I.upsert_batch (r ∷ rs)

  -- `apply_mutations_to_hot_index`: all that is removed, and then all that is written.
  unfoldable pub apply_mutations_to_hot_index : List IndexMutation → Exec I.State (Unit {0})
  unfolding removed_paths upserted_records remove_some upsert_some
  apply_mutations_to_hot_index mutations = do
    remove_some (removed_paths mutations)
    upsert_some (upserted_records mutations)

  -- `next_candidate_id_from_index`
  unfoldable pub next_candidate_id_from_index : Exec I.State ℕ
  unfolding saturating_add
  next_candidate_id_from_index = do max ← I.max_candidate_id; pure (saturating_add max 1)

module _ (S : IndexStore) where
  -- The loop over the mutations that are removals.
  unfoldable pub delete_removed : List Text → Exec S.State (Unit {0})
  delete_removed [] = pure tt
  delete_removed (path ∷ paths) = do S.delete_file_records_by_path path; delete_removed paths

module _ (I : DeltaIndex) (S : IndexStore) {A : Type 0} where
  abbrev pub on_index : Exec I.State A → Exec (DeltaWorld I S) A
  on_index m w = let r = m w.index in (r.0, record w { index = r.1 })

  abbrev pub on_store : Exec S.State A → Exec (DeltaWorld I S) A
  on_store m w = let r = m w.store in (r.0, record w { store = r.1 })

module _ (I : DeltaIndex) (S : IndexStore) where
  abbrev pub with_cache : PathMap → Exec (DeltaWorld I S) (Unit {0})
  with_cache cache w = (ok tt, record w { cache = cache })

  -- `prepare_full_rescan_after_stale`
  unfoldable pub prepare_full_rescan_after_stale :
      ℕ → Text → UsnJournalInfo → Exec (DeltaWorld I S) FullRescanRequest
  unfolding seed_volume_root from_stale_reason upper
  prepare_full_rescan_after_stale volume reason journal = do
    on_store I S (S.clear_usn_cursor volume)
    with_cache (seed_volume_root (upper volume) [])
    pure (record { volume = volume; reason = from_stale_reason reason; journal = journal })

-- `Path::parent`, and what `probe` answers.
module _ (I : DeltaIndex) (S : IndexStore) (p : Platform) (parent : Text → Text)
    (probe : ℕ → Text → Option FileProbe) where
  -- What follows the plan.
  unfoldable pub carry_out : ℕ → UsnCursor → Planning → Exec (DeltaWorld I S) UsnApplyStats
  unfolding apply_mutations_to_hot_index delete_removed removed_paths
  carry_out volume next_cursor s = do
    with_cache I S s.cache
    on_index I S (apply_mutations_to_hot_index I s.mutations)
    on_store I S (delete_removed S (removed_paths s.mutations))
    on_store I S (S.set_usn_cursor volume next_cursor)
    pure s.stats

  unfoldable pub plan_and_carry_out :
      ℕ → List UsnChange → UsnCursor → ℕ → Exec (DeltaWorld I S) UsnApplyStats
  unfolding carry_out plan_usn_mutations
  plan_and_carry_out volume delta next_cursor next_id w =
      carry_out volume next_cursor (plan_usn_mutations p parent probe delta w.cache next_id) w

  -- The changes of `apply_usn_read_outcome` and of `process_usn_sync`.
  unfoldable pub apply_changes :
      ℕ → List UsnChange → UsnCursor → Exec (DeltaWorld I S) UsnApplyStats
  unfolding next_candidate_id_from_index plan_and_carry_out
  apply_changes volume delta next_cursor = do
    next_id ← on_index I S (next_candidate_id_from_index I)
    plan_and_carry_out volume delta next_cursor next_id

  -- `apply_usn_read_outcome`
  unfoldable pub apply_usn_read_outcome : UsnReadOutcome → ℕ → Exec (DeltaWorld I S) UsnApplyStats
  unfolding apply_changes
  apply_usn_read_outcome (journal_stale info reason) volume = raise internal
  apply_usn_read_outcome (changes delta next_cursor) volume = apply_changes volume delta next_cursor

  -- `process_usn_sync`
  unfoldable pub process_usn_sync : UsnReadOutcome → ℕ → Exec (DeltaWorld I S) UsnSyncResult
  unfolding prepare_full_rescan_after_stale apply_changes
  process_usn_sync (journal_stale info reason) volume = do
    request ← prepare_full_rescan_after_stale I S volume reason info
    pure (full_rescan_required request)
  process_usn_sync (changes delta next_cursor) volume = do
    stats ← apply_changes volume delta next_cursor
    pure (applied stats)
