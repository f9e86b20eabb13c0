-- ===== src/Quarantine/Ports.antt =====
-- core/app/src/ports.rs: the file-system gateway and the manifest, which the use cases of
-- core/app/src/quarantine.rs take as parameters. Each operation returns the state that it leaves.
use file_reaper.Prelude.{ℕ, Option, List}
use file_reaper.Prelude.Text.{Text}
use file_reaper.Outcome.{Exec}
use file_reaper.Quarantine.{QuarantineEntry, QuarantineStatus, DestructiveAuditEvent, FileIdentity}

pub data RestoreMove : Type 0 where
  restored destination_occupied : RestoreMove

pub data RecoveryLocation : Type 0 where
  source_only quarantine_only both missing : RecoveryLocation

pub data SurrogateState : Type 0 where
  present missing root_unavailable : SurrogateState

pub record QuarantineFs : Type 1 where
  pub State : Type 0
  -- source, destination, expected identity, own roots
  pub move_into_quarantine : Text → Text → FileIdentity → List Text → Exec State (Unit {0})
  -- surrogate, destination
  pub restore_from_quarantine : Text → Text → Exec State RestoreMove
  pub purge_from_quarantine : Text → Exec State (Unit {0})
  -- source, surrogate
  pub recovery_location : Text → Text → Exec State RecoveryLocation
  pub surrogate_state : Text → Exec State SurrogateState

pub record Confirmation : Type 0 where
  pub entry_id : ℕ
  pub status : QuarantineStatus
  pub event : DestructiveAuditEvent

pub record QuarantineManifest : Type 1 where
  pub State : Type 0
  pub insert_entry : QuarantineEntry → Exec State (Unit {0})
  pub insert_entries : List QuarantineEntry → Exec State (Unit {0})
  pub get_entry : ℕ → Exec State (Option QuarantineEntry)
  pub list_entries : Exec State (List QuarantineEntry)
  pub remove_entry : ℕ → Exec State (Unit {0})
  pub confirm_with_audit : Confirmation → Exec State (Unit {0})
  pub confirm_batch_with_audit : List Confirmation → Exec State (Unit {0})

-- The gateway and the manifest beside one another, as each use case holds them.
pub record World (F : QuarantineFs) (M : QuarantineManifest) : Type 0 where
  pub fs : F.State
  pub manifest : M.State

module _ {F : QuarantineFs} {M : QuarantineManifest} {A : Type 0} where
  abbrev pub on_fs : Exec F.State A → Exec (World F M) A
  on_fs m w = let r = m w.fs in (r.0, record w { fs = r.1 })

  abbrev pub on_manifest : Exec M.State A → Exec (World F M) A
  on_manifest m w = let r = m w.manifest in (r.0, record w { manifest = r.1 })
