-- ===== src/Quarantine/Restore.antt =====
-- core/app/src/quarantine.rs: `QuarantineRestorer`.
pub mod Attempts
pub mod One
use file_reaper.Prelude.{
  ℕ, zero, suc, ◌+◌, Bool, true, false, not, Option, none, some, List, [], ◌∷◌, ◌++◌, leb, ltb,
  ◌==◌, keep_if, if◌then◌else◌,
}
use file_reaper.Prelude.Text.{Text}
use file_reaper.Outcome.{
  invalid_argument, io, Result, ok, err, Exec, pure, raise, lift, ◌>>=◌, ◌>>◌,
}
use file_reaper.Quarantine.{restore, user, QuarantineStatus, is_quarantined, QuarantineEntry}
use file_reaper.Quarantine.Ports.{
  QuarantineFs, QuarantineManifest, RestoreMove, restored, destination_occupied, World, on_fs,
  on_manifest,
}
use file_reaper.Quarantine.Reap.{confirmation}
use file_reaper.Quarantine.Destination.{restore_destination, restore_suffix_max_attempts}

pub record RestoreRequest : Type 0 where
  pub entry_id : ℕ
  pub surrogate_path : Text

pub record RestoreOutcome : Type 0 where
  pub entry : QuarantineEntry
  pub restored_path : Text
  pub used_suffix : Bool

-- The `loop` of `restore_one`, with the attempts that are left as fuel: the path of the file, and
-- whether it has a suffix.
unfoldable pub restore_attempts :
    (F : QuarantineFs) → Text → Text → ℕ → ℕ → Exec F.State (Text × Bool)
restore_attempts F original surrogate zero attempt s = (err io, s)
restore_attempts F original surrogate (suc left) attempt s =
    let candidate = restore_destination original attempt in
    let r = F.restore_from_quarantine surrogate candidate s in
    let next = restore_attempts F original surrogate left (suc attempt) r.1 in
    elim r.0 [
      | err e ↦ (err e, r.1)
      | ok move ↦ elim move [
        | restored ↦ (ok (candidate, ltb 0 attempt), r.1)
        | destination_occupied ↦
            if leb restore_suffix_max_attempts (suc attempt) then (err io, r.1) else next
      ]
    ]

-- The two checks of `restore_one` on what the manifest has under the identifier.
unfoldable pub restorable : Option QuarantineEntry → Result QuarantineEntry
unfolding is_quarantined
restorable none = err invalid_argument
restorable (some entry) = if is_quarantined entry.status then ok entry else err invalid_argument

-- `list_entries_by_batch`, and the filter and the closure of `undo_batch`.
unfoldable pub in_batch : ℕ → QuarantineEntry → Bool
in_batch batch_id entry = elim entry.batch_id [ none ↦ false | some b ↦ b == batch_id ]

unfoldable pub undo_requests :
    (QuarantineEntry → Result Text) → List QuarantineEntry → Result (List RestoreRequest)
undo_requests surrogate_path [] = ok []
undo_requests surrogate_path (entry ∷ entries) = elim (surrogate_path entry) [
  | err e ↦ err e
  | ok path ↦ elim (undo_requests surrogate_path entries) [
    | err e ↦ err e
    | ok requests ↦ ok (record { entry_id = entry.id; surrogate_path = path } ∷ requests)
  ]
]

module _ (F : QuarantineFs) (M : QuarantineManifest) where
  -- What follows the checks.
  unfoldable pub restore_entry : Text → QuarantineEntry → Exec (World F M) RestoreOutcome
  restore_entry surrogate entry = do
    found ← on_fs (restore_attempts F entry.original_path surrogate restore_suffix_max_attempts 0)
    on_manifest (M.confirm_with_audit (confirmation entry QuarantineStatus.restored restore user))
    pure (record {
      entry = record entry { status = QuarantineStatus.restored };
      restored_path = found.0;
      used_suffix = found.1;
    })

  -- `QuarantineRestorer::restore_one`
  unfoldable pub restore_one : RestoreRequest → Exec (World F M) RestoreOutcome
  restore_one request = do
    row ← on_manifest (M.get_entry request.entry_id)
    entry ← lift (restorable row)
    restore_entry request.surrogate_path entry

  -- `QuarantineRestorer::restore_batch`
  unfoldable pub restore_batch : List RestoreRequest → Exec (World F M) (List RestoreOutcome)
  unfolding restore_one
  restore_batch [] = pure []
  restore_batch (request ∷ requests) = do
    outcome ← restore_one request
    outcomes ← restore_batch requests
    pure (outcome ∷ outcomes)

  -- `QuarantineRestorer::undo_batch`
  unfoldable pub undo_batch :
      ℕ → (QuarantineEntry → Result Text) → Exec (World F M) (List RestoreOutcome)
  unfolding in_batch undo_requests restore_batch is_quarantined keep_if
  undo_batch batch_id surrogate_path = do
    listed ← on_manifest M.list_entries
    requests ← lift (
        undo_requests surrogate_path
          (keep_if (λ e. is_quarantined e.status) (keep_if (in_batch batch_id) listed)))
    restore_batch requests
