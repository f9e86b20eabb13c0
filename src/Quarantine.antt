-- ===== src/Quarantine.antt =====
-- core/domain/src/quarantine.rs: the manifest's entries, their life cycle and the audit events.
pub mod Ports
pub mod Gateway
pub mod Rows
pub mod Reap
pub mod Purge
pub mod Destination
pub mod Restore
pub mod Recovery
pub mod Guard
use file_reaper.Prelude.{ℕ, Bool, true, false, Option, none, some, ◌&&◌, ◌==◌}
use file_reaper.Prelude.Int.{ℤ, eq_ℤ}
use file_reaper.Prelude.Text.{Text}
use file_reaper.Outcome.{Result, ok, err, file_changed}

pub data AuditOperation : Type 0 where
  reap restore purge_ttl purge_manual : AuditOperation

pub data AuditActor : Type 0 where
  user sweeper recovery : AuditActor

pub data QuarantineStatus : Type 0 where
  in_flight quarantined restored purged : QuarantineStatus

-- `entry.status == QuarantineStatus::Quarantined`
unfoldable pub is_quarantined : QuarantineStatus → Bool
is_quarantined quarantined = true
is_quarantined _ = false

-- `entry.status == QuarantineStatus::InFlight`
unfoldable pub is_in_flight : QuarantineStatus → Bool
is_in_flight in_flight = true
is_in_flight _ = false

-- The identifiers of entries and batches, the sizes and the times are the numbers that they wrap.
pub record QuarantineEntry : Type 0 where
  pub id : ℕ
  pub batch_id : Option ℕ
  pub original_path : Text
  pub surrogate_name : Text
  pub size : ℕ
  pub quarantined_at_unix : ℤ
  pub expires_at_unix : ℤ
  pub status : QuarantineStatus

pub record DestructiveAuditEvent : Type 0 where
  pub entry_id : ℕ
  pub batch_id : Option ℕ
  pub operation : AuditOperation
  pub actor : AuditActor
  pub original_path : Text
  pub size : ℕ

pub record FileIdentity : Type 0 where
  pub size : ℕ
  pub modified_at : Option ℤ

-- `==` of `Option<FsTimestamp>`
unfoldable pub eq_modified_at : Option ℤ → Option ℤ → Bool
unfolding eq_ℤ
eq_modified_at none none = true
eq_modified_at (some a) (some b) = eq_ℤ a b
eq_modified_at _ _ = false

-- `FileIdentity::validate_unchanged`
unfoldable pub validate_unchanged : FileIdentity → FileIdentity → Result (Unit {0})
unfolding eq_modified_at
validate_unchanged self live =
    elim (self.size == live.size && eq_modified_at self.modified_at live.modified_at) [
      | true ↦ ok tt
      | false ↦ err file_changed
    ]
