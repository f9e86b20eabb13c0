-- ===== src/Quarantine/Purge.antt =====
-- core/app/src/quarantine.rs: `ManualPurger` and `QuarantineSweeper`.
pub mod Targets
pub mod Listing
pub mod Effect
pub mod Sweep
pub mod Manual
use file_reaper.Prelude.{
  ℕ, suc, ◌+◌, ◌≡◌, Bool, true, false, ◌||◌, ◌&&◌, not, Option, none, some, List, [], ◌∷◌, ◌++◌,
  map, length, contains, keep_if, saturating_add, ltb, leb, ◌==◌, if◌then◌else◌,
}
use file_reaper.Prelude.Int.{ℤ, leb_ℤ}
use file_reaper.Prelude.Text.{Text}
use file_reaper.Outcome.{
  CoreError, invalid_argument, Result, ok, err, Exec, pure, raise, lift, ◌>>=◌, ◌>>◌,
}
use file_reaper.Quarantine.{
  AuditOperation, purge_ttl, purge_manual, AuditActor, user, sweeper, QuarantineStatus,
  is_quarantined, QuarantineEntry,
}
use file_reaper.Quarantine.Ports.{QuarantineFs, QuarantineManifest, World, on_fs, on_manifest}
use file_reaper.Quarantine.Reap.{confirmation}

pub record ManualPurgeResult : Type 0 where
  pub purged : List QuarantineEntry
  pub purged_bytes : ℕ

pub record SweepResult : Type 0 where
  pub purged : List QuarantineEntry
  pub purged_bytes : ℕ
  pub held_bytes : ℕ
  pub threshold_exceeded : Bool

pub data ManualPurgeSelection : Type 0 where
  entries : List ℕ → ManualPurgeSelection
  all : ManualPurgeSelection

abbrev pub as_purged : QuarantineEntry → QuarantineEntry
as_purged e = record e { status = QuarantineStatus.purged }

-- A slot for each identifier: `ids.into_iter().collect::<HashSet<_>>()`.
unfoldable pub distinct_ids : List ℕ → List ℕ
unfolding contains
distinct_ids [] = []
distinct_ids (i ∷ ids) = let rest = distinct_ids ids in if contains ids i then rest else i ∷ rest

-- `sort_by_key(|entry| entry.id.0)`, which is stable.
unfoldable pub insert_by_id : QuarantineEntry → List QuarantineEntry → List QuarantineEntry
insert_by_id e [] = e ∷ []
insert_by_id e (f ∷ fs) =
    let rest = insert_by_id e fs in if leb e.id f.id then e ∷ f ∷ fs else f ∷ rest

unfoldable pub sort_by_id : List QuarantineEntry → List QuarantineEntry
unfolding insert_by_id
sort_by_id [] = []
sort_by_id (e ∷ es) = insert_by_id e (sort_by_id es)

unfoldable pub is_selected : ManualPurgeSelection → QuarantineEntry → Bool
unfolding contains
is_selected (entries ids) e = contains ids e.id
is_selected all e = true

unfoldable pub manual_targets : ManualPurgeSelection → List QuarantineEntry → List QuarantineEntry
unfolding is_quarantined is_selected keep_if
manual_targets selection = keep_if (λ e. is_quarantined e.status && is_selected selection e)

unfoldable pub is_expired : ℤ → QuarantineEntry → Bool
unfolding is_quarantined leb_ℤ
is_expired now e = is_quarantined e.status && leb_ℤ e.expires_at_unix now

-- `entry.expires_at_unix > now_unix`
unfoldable pub is_held : ℤ → QuarantineEntry → Bool
unfolding is_quarantined leb_ℤ
is_held now e = is_quarantined e.status && not (leb_ℤ e.expires_at_unix now)

-- `fold(0u64, |total, entry| total.saturating_add(entry.size.0))`
unfoldable pub total_size : ℕ → List QuarantineEntry → ℕ
unfolding saturating_add
total_size total [] = total
total_size total (e ∷ es) = total_size (saturating_add total e.size) es

module _ (F : QuarantineFs) (M : QuarantineManifest)
    (surrogate_path : QuarantineEntry → Result Text) where
  -- One round of the loop that both purges share.
  unfoldable pub purge_one :
      AuditOperation → AuditActor → QuarantineEntry → Exec (World F M) (Unit {0})
  purge_one operation actor e = do
    path ← lift (surrogate_path e)
    on_fs (F.purge_from_quarantine path)
    on_manifest (M.confirm_with_audit (confirmation e QuarantineStatus.purged operation actor))

  -- The loop that both purges share: the entries that it purged, and their bytes.
  unfoldable pub purge_targets :
      AuditOperation
      → AuditActor
      → List QuarantineEntry
      → List QuarantineEntry
      → ℕ
      → Exec (World F M) (List QuarantineEntry × ℕ)
  unfolding saturating_add
  purge_targets operation actor [] done bytes = pure (done, bytes)
  purge_targets operation actor (e ∷ es) done bytes = do
    purge_one operation actor e
    purge_targets operation actor es (done ++ as_purged e ∷ []) (saturating_add bytes e.size)

  -- The two checks of `ManualPurger::purge` on an explicit selection.
  unfoldable pub check_selection : ManualPurgeSelection → List QuarantineEntry → Result (Unit {0})
  unfolding distinct_ids
  check_selection all targets = ok tt
  check_selection (entries []) targets = err invalid_argument
  check_selection (entries (i ∷ ids)) targets =
      if length targets == length (distinct_ids (i ∷ ids)) then ok tt else err invalid_argument

  -- The checks and the loop of `ManualPurger::purge`.
  unfoldable pub purge_selected :
      ManualPurgeSelection → List QuarantineEntry → Exec (World F M) (List QuarantineEntry × ℕ)
  purge_selected selection listed = do
    let targets = manual_targets selection listed
    lift (check_selection selection targets)
    purge_targets purge_manual user (sort_by_id targets) [] 0

  -- `ManualPurger::purge`
  unfoldable pub purge : ManualPurgeSelection → Exec (World F M) ManualPurgeResult
  purge selection = do
    listed ← on_manifest M.list_entries
    r ← purge_selected selection listed
    pure (record { purged = r.0; purged_bytes = r.1 })

  -- The loop of `QuarantineSweeper::sweep_once`.
  unfoldable pub sweep_targets :
      ℤ → List QuarantineEntry → Exec (World F M) (List QuarantineEntry × ℕ)
  unfolding is_expired keep_if purge_targets
  sweep_targets now listed = purge_targets purge_ttl sweeper (keep_if (is_expired now) listed) [] 0

  -- The result of a sweep that purged `done` entries of `bytes` bytes.
  unfoldable pub sweep_result :
      ℤ → ℕ → List QuarantineEntry → List QuarantineEntry × ℕ → SweepResult
  unfolding is_held total_size keep_if
  sweep_result now warning_threshold listed (done, bytes) =
      let held = total_size 0 (keep_if (is_held now) listed) in
      record {
        purged = done;
        purged_bytes = bytes;
        held_bytes = held;
        threshold_exceeded = ltb warning_threshold held;
      }

  -- `QuarantineSweeper::sweep_once`
  unfoldable pub sweep_once : ℤ → ℕ → Exec (World F M) SweepResult
  sweep_once now warning_threshold = do
    listed ← on_manifest M.list_entries
    r ← sweep_targets now listed
    pure (sweep_result now warning_threshold listed r)
