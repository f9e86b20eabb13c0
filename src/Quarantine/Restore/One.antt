-- ===== src/Quarantine/Restore/One.antt =====
-- `QuarantineRestorer::restore_one`: what a success has done, and what every outcome leaves alone.
use file_reaper.Prelude.{
  ℕ, ◌≡◌, inl, inr, refl, false, Option, some, true, [], ◌∷◌, ◌++◌, ltb, arith,
}
use file_reaper.Prelude.Text.{Text}
use file_reaper.Outcome.{ok, Result-cases}
use file_reaper.Quarantine.{QuarantineEntry, QuarantineStatus, is_quarantined, restore, user}
use file_reaper.Quarantine.Ports.{QuarantineFs, QuarantineManifest, World}
use file_reaper.Quarantine.Gateway.{IsGateway, IsMoved, Same, seen, is_at_or_below, text_eq_of_free}
use file_reaper.Quarantine.Rows.{IsJournal, set_status}
use file_reaper.Quarantine.Destination.{restore_destination, restore_suffix_max_attempts}
use file_reaper.Quarantine.Reap.{event_of, confirmation}
use file_reaper.Quarantine.Restore.{
  RestoreRequest, RestoreOutcome, restore_attempts, restorable, restore_entry, restore_one,
}
use file_reaper.Quarantine.Restore.Attempts.{IsFirstFree, restore_attempts-ok, restore_attempts-err}

restorable-ok :
    (row : Option QuarantineEntry) (e : QuarantineEntry)
    → restorable row ≡ ok e
    → (row ≡ some e) × (is_quarantined e.status ≡ true)
unfolding restorable
restorable-ok row e h = (ground (arith, h), ground (arith, h))

module _ {F : QuarantineFs} {M : QuarantineManifest} (G : IsGateway F) (J : IsJournal M) where
  -- A file that was restored: it is at the first free path of its entry.
  pub record IsRestored (surrogate : Text) (e : QuarantineEntry) (before after : World F M)
      (out : RestoreOutcome) (k : ℕ) : Type 0 where
    pub result : out ≡ record {
      entry = record e { status = QuarantineStatus.restored };
      restored_path = restore_destination e.original_path k;
      used_suffix = ltb 0 k;
    }
    pub first_free : IsFirstFree G e.original_path surrogate (G.files before.fs) 0 k
    pub moved :
        IsMoved surrogate
          (restore_destination e.original_path k)
          (seen G before.fs)
          (seen G after.fs)
    pub row :
        J.rows after.manifest ≡ set_status e.id QuarantineStatus.restored (J.rows before.manifest)
    pub audited : J.audit after.manifest ≡ J.audit before.manifest ++ event_of e restore user ∷ []

  -- Only the attempts touch the disk.
  restore_entry-fs :
      (surrogate : Text) (e : QuarantineEntry) (w : World F M)
      → (restore_entry F M surrogate e w).1.fs
        ≡ (restore_attempts F e.original_path surrogate restore_suffix_max_attempts 0 w.fs).1
  unfolding restore_entry
  restore_entry-fs surrogate e w = ground arith

  restore_entry-ok :
      (surrogate : Text) (e : QuarantineEntry) (w : World F M) (out : RestoreOutcome)
      → let t = restore_entry F M surrogate e w in
        t.0 ≡ ok out → (k : ℕ) × IsRestored surrogate e w t.1 out k
  unfolding restore_entry
  restore_entry-ok surrogate e w out h =
      let t = restore_attempts F e.original_path surrogate restore_suffix_max_attempts 0 w.fs in
      let c = confirmation e QuarantineStatus.restored restore user in
      elim (Result-cases t.0) [
        | inr (_, failed) ↦ absurd (ground (arith, failed, h))
        | inl (found, fine) ↦
            let (k, is, free, moved) =
              restore_attempts-ok G e.original_path surrogate restore_suffix_max_attempts 0 w.fs
                found (omega arith) fine in
            (
              k,
              record {
                result = ground (arith, fine, h, is);
                first_free = free;
                moved = rw (restore_entry-fs surrogate e w) moved;
                row = ground (arith, fine, h, J.rows-confirm_with_audit c w.manifest);
                audited = ground (arith, fine, h, J.audit-confirm_with_audit c w.manifest);
              },
            )
      ]

  restore_entry-keeps :
      (surrogate : Text) (e : QuarantineEntry) (w : World F M) (path : Text)
      → is_at_or_below surrogate path ≡ false
      → G.files w.fs path ≡ true
      → Same (seen G w.fs) (seen G (restore_entry F M surrogate e w).1.fs) path
  unfolding restore_entry
  restore_entry-keeps surrogate e w path outside h =
      let t = restore_attempts F e.original_path surrogate restore_suffix_max_attempts 0 w.fs in
      elim (Result-cases t.0) [
        | inr (x, failed) ↦ rw (restore_entry-fs surrogate e w) (
            restore_attempts-err G e.original_path surrogate restore_suffix_max_attempts 0 w.fs x
              failed path h)
        | inl (found, fine) ↦
            let (k, _, (_, _, free, _), moved) =
              restore_attempts-ok G e.original_path surrogate restore_suffix_max_attempts 0 w.fs
                found (omega arith) fine in
            let destination = restore_destination e.original_path k in
            rw (restore_entry-fs surrogate e w)
              (moved.kept path h outside (text_eq_of_free (G.files w.fs) destination path free h))
      ]

  -- When `restore_one` succeeds, the entry was `Quarantined` in the manifest and the file has moved,
  -- with its bytes, from its surrogate to the first free path among the original one and its numbered
  -- variants (fewer than 100), which held nothing. The row is `Restored`, the audit has one more
  -- event, and the outcome names the path and says whether a number was added.
  pub restore_one-ok :
      (request : RestoreRequest) (w : World F M) (out : RestoreOutcome)
      → let t = restore_one F M request w in
        t.0 ≡ ok out
        → (e : QuarantineEntry) × (J.rows w.manifest request.entry_id ≡ some e)
          × (is_quarantined e.status ≡ true)
          × ((k : ℕ) × IsRestored request.surrogate_path e w t.1 out k)
  unfolding restore_one
  restore_one-ok request w out h =
      let m = M.get_entry request.entry_id w.manifest in
      let same = J.get_entry-reads request.entry_id w.manifest in
      elim (Result-cases m.0) [
        | inr (_, failed) ↦ absurd (ground (arith, failed, h))
        | inl (row, read) ↦ elim (Result-cases (restorable row)) [
          | inr (_, refused) ↦ absurd (ground (arith, read, refused, h))
          | inl (e, fit) ↦
              let (is, live) = restorable-ok row e fit in
              let w1 : World F M = record w { manifest = m.1 } in
              let (k, done) =
                restore_entry-ok request.surrogate_path e w1 out (ground (arith, read, fit, h)) in
              (
                e,
                ground (arith, J.get_entry-rows request.entry_id w.manifest row read, is),
                live,
                (
                  k,
                  record {
                    result = done.result;
                    first_free = done.first_free;
                    moved = rw (read, fit, restore_one) done.moved;
                    row = ground (arith, read, fit, done.row, same);
                    audited = ground (arith, read, fit, done.audited, same);
                  },
                ),
              )
        ]
      ]

  -- Whatever its outcome, `restore_one` overwrites and destroys nothing: every path but the surrogate
  -- and what stands below it, that named something before, names it still, with the same bytes.
  pub restore_one-keeps :
      (request : RestoreRequest) (w : World F M) (path : Text)
      → is_at_or_below request.surrogate_path path ≡ false
      → G.files w.fs path ≡ true
      → Same (seen G w.fs) (seen G (restore_one F M request w).1.fs) path
  unfolding restore_one
  restore_one-keeps request w path outside h =
      let m = M.get_entry request.entry_id w.manifest in
      elim (Result-cases m.0) [
        | inr (_, failed) ↦ rw (failed, restore_one) (refl, refl)
        | inl (row, read) ↦ elim (Result-cases (restorable row)) [
          | inr (_, refused) ↦ rw (read, refused, restore_one) (refl, refl)
          | inl (e, fit) ↦
              let w1 : World F M = record w { manifest = m.1 } in
              rw (read, fit, restore_one)
                (restore_entry-keeps request.surrogate_path e w1 path outside h)
        ]
      ]
