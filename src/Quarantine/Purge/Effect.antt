-- ===== src/Quarantine/Purge/Effect.antt =====
-- The rows after a loop of purges that ends.
use file_reaper.Prelude.{
  ℕ, ◌≡◌, refl, inl, inr, Option, none, some, List, [], ◌∷◌, ◌++◌, arith, saturating_add, ◌∙◌,
}
use file_reaper.Prelude.Text.{Text}
use file_reaper.Outcome.{Result, ok, Result-cases}
use file_reaper.Quarantine.{AuditOperation, AuditActor, QuarantineStatus, QuarantineEntry}
use file_reaper.Quarantine.Ports.{QuarantineFs, QuarantineManifest, World}
use file_reaper.Quarantine.Gateway.{IsGateway}
use file_reaper.Quarantine.Rows.{Rows, IsJournal, set_status, lookup_entry}
use file_reaper.Quarantine.Purge.{as_purged, purge_one, purge_targets}
use file_reaper.Quarantine.Purge.Targets.{purge_one-ok}
use file_reaper.Quarantine.Purge.Listing.{option_as_purged}

-- The row of an identifier, purged if the list has an entry for it.
abbrev pub purged_if_listed :
    Option QuarantineEntry → Option QuarantineEntry → Option QuarantineEntry
purged_if_listed none row = row
purged_if_listed (some e) row = option_as_purged row

purged_if_listed-step :
    (e : QuarantineEntry) (es : List QuarantineEntry) (rows : Rows) (i : ℕ)
    → purged_if_listed (lookup_entry es i) (set_status e.id QuarantineStatus.purged rows i)
      ≡ purged_if_listed (lookup_entry (e ∷ es) i) (rows i)
unfolding lookup_entry set_status
purged_if_listed-step e es rows i = ground arith

module _ {F : QuarantineFs} {M : QuarantineManifest} (G : IsGateway F) (J : IsJournal M)
    (surrogate_path : QuarantineEntry → Result Text) (operation : AuditOperation)
    (actor : AuditActor) where
  pub rows-purge_targets :
      (es done : List QuarantineEntry) (bytes : ℕ) (w : World F M) (out : List QuarantineEntry × ℕ)
      → let t = purge_targets F M surrogate_path operation actor es done bytes w in
        t.0 ≡ ok out
        → (i : ℕ)
        → J.rows t.1.manifest i ≡ purged_if_listed (lookup_entry es i) (J.rows w.manifest i)
  unfolding purge_targets lookup_entry
  rows-purge_targets [] done bytes w out h i = refl
  rows-purge_targets (e ∷ es) done bytes w out h i =
      let r = purge_one F M surrogate_path operation actor e w in
      elim (Result-cases r.0) [
        | inr (_, failed) ↦ absurd (ground (arith, failed))
        | inl (_, fine) ↦
            let (_, _, _, set, _) = purge_one-ok G J surrogate_path operation actor e w fine in
            let later =
              rows-purge_targets es (done ++ as_purged e ∷ []) (saturating_add bytes e.size) r.1 out
                (rw (fine, purge_targets) at h) i in
            rw (fine, purge_targets)
              ((rw set at later) ∙ purged_if_listed-step e es (J.rows w.manifest) i)
      ]
