-- ===== src/Quarantine/Recovery/Rounds.antt =====
-- One round of each loop of the reconciliation.
use file_reaper.Prelude.{
  ℕ, ◌≡◌, ◌==◌, ◌∙◌, ap, refl, ◌⊎◌, inl, inr, Option, none, some, true, false, arith, ==_refl,
}
use file_reaper.Prelude.Text.{Text}
use file_reaper.Outcome.{Result, ok, Result-cases, is_ok}
use file_reaper.Quarantine.{QuarantineEntry, QuarantineStatus, reap, purge_manual, recovery}
use file_reaper.Quarantine.Ports.{
  QuarantineFs, QuarantineManifest, World, RecoveryLocation, source_only, quarantine_only, both,
  SurrogateState, present, root_unavailable,
}
use file_reaper.Quarantine.Gateway.{Files, IsGateway, located}
use file_reaper.Quarantine.Rows.{IsJournal, set_status, drop_row}
use file_reaper.Quarantine.Reap.{confirmation}
use file_reaper.Quarantine.Purge.Targets.{IsRow}
use file_reaper.Quarantine.Recovery.{
  RecoveryResult, recover_in_flight, settle_in_flight, recover_quarantined, settle_quarantined,
}
use file_reaper.Quarantine.Recovery.Pass.{IsRound}

module _ (surrogate_path : QuarantineEntry → Result Text) (files : Files) where
  -- A reap that was cut short is undone while its file stands at the source only, and completed
  -- while it stands in the quarantine only.
  abbrev pub Finished : QuarantineEntry → Option QuarantineEntry → Type 0
  Finished e after =
      (path : Text) × (surrogate_path e ≡ ok path)
      × (((files e.original_path ≡ true) × (files path ≡ false) × (after ≡ none))
          ⊎ ((files e.original_path ≡ false)
              × (files path ≡ true)
              × (after ≡ some (record e { status = QuarantineStatus.quarantined }))))

  -- A quarantined entry stays, or its surrogate is gone and it is purged.
  abbrev pub Checked : QuarantineEntry → Option QuarantineEntry → Type 0
  Checked e after =
      (path : Text) × (surrogate_path e ≡ ok path)
      × ((after ≡ some e)
          ⊎ ((files path ≡ false) × (after ≡ some (record e { status = QuarantineStatus.purged }))))

module _ {F : QuarantineFs} {M : QuarantineManifest} (G : IsGateway F) (J : IsJournal M)
    (surrogate_path : QuarantineEntry → Result Text) (files : Files) where
  settle_in_flight-IsRound :
      (e : QuarantineEntry) (location : RecoveryLocation) (result : RecoveryResult) (path : Text)
      (w : World F M)
      → surrogate_path e ≡ ok path
      → location ≡ located (files e.original_path) (files path)
      → IsRow (J.rows w.manifest) e
      → let t = settle_in_flight F M surrogate_path result e location w in
        (t.1.fs ≡ w.fs)
        × ((i : ℕ) → (e.id == i) ≡ false → J.rows t.1.manifest i ≡ J.rows w.manifest i)
        × (is_ok t.0 ≡ true → Finished surrogate_path files e (J.rows t.1.manifest e.id))
        × (is_ok t.0 ≡ false → J.rows t.1.manifest ≡ J.rows w.manifest)
  unfolding settle_in_flight drop_row set_status
  settle_in_flight-IsRound e source_only result path w resolved place row =
      let law = J.rows-remove_entry e.id w.manifest in
      let at_e = ap (λ rows. rows e.id) law in
      (
        ground arith,
        λ i other. ground (arith, ap (λ rows. rows i) law),
        λ fine. (
          path,
          resolved,
          inl (ground (arith, place), ground (arith, place), ground (arith, at_e, ==_refl e.id)),
        ),
        λ failed. ground (arith, law),
      )
  settle_in_flight-IsRound e quarantine_only result path w resolved place row =
      let c = confirmation e QuarantineStatus.quarantined reap recovery in
      let law = J.rows-confirm_with_audit c w.manifest in
      let at_e = ap (λ rows. rows e.id) law in
      (
        ground arith,
        λ i other. ground (arith, ap (λ rows. rows i) law),
        λ fine. (
          path,
          resolved,
          inr (
            ground (arith, place),
            ground (arith, place),
            ground (arith, at_e, row, ==_refl e.id),
          ),
        ),
        λ failed. ground (arith, law),
      )
  settle_in_flight-IsRound e both result path w resolved place row =
      (refl, λ i _. refl, λ h. absurd (ground arith), λ h. refl)
  settle_in_flight-IsRound e RecoveryLocation.missing result path w resolved place row =
      (refl, λ i _. refl, λ h. absurd (ground arith), λ h. refl)

  settle_quarantined-IsRound :
      (e : QuarantineEntry) (state : SurrogateState) (result : RecoveryResult) (path : Text)
      (w : World F M)
      → surrogate_path e ≡ ok path
      → (state ≡ SurrogateState.missing → files path ≡ false)
      → IsRow (J.rows w.manifest) e
      → let t = settle_quarantined F M surrogate_path result e state w in
        (t.1.fs ≡ w.fs)
        × ((i : ℕ) → (e.id == i) ≡ false → J.rows t.1.manifest i ≡ J.rows w.manifest i)
        × (is_ok t.0 ≡ true → Checked surrogate_path files e (J.rows t.1.manifest e.id))
        × (is_ok t.0 ≡ false → J.rows t.1.manifest ≡ J.rows w.manifest)
  unfolding settle_quarantined set_status
  settle_quarantined-IsRound e present result path w resolved place row =
      (refl, λ i _. refl, λ h. (path, resolved, inl row), λ h. refl)
  settle_quarantined-IsRound e root_unavailable result path w resolved place row =
      (refl, λ i _. refl, λ h. (path, resolved, inl row), λ h. refl)
  settle_quarantined-IsRound e SurrogateState.missing result path w resolved place row =
      let c = confirmation e QuarantineStatus.purged purge_manual recovery in
      let law = J.rows-confirm_with_audit c w.manifest in
      let at_e = ap (λ rows. rows e.id) law in
      (
        ground arith,
        λ i other. ground (arith, ap (λ rows. rows i) law),
        λ fine. (path, resolved, inr (place refl, ground (arith, at_e, row, ==_refl e.id))),
        λ failed. ground (arith, law),
      )

  pub recover_in_flight-IsRound :
      (e : QuarantineEntry)
      → IsRound G J files (Finished surrogate_path files) (recover_in_flight F M surrogate_path) e
  unfolding recover_in_flight
  recover_in_flight-IsRound e result w same row = elim (Result-cases (surrogate_path e)) [
    | inr (_, unresolved) ↦ rw unresolved (same, λ i _. refl, λ h. absurd (ground arith), λ h. refl)
    | inl (path, resolved) ↦
        let l = F.recovery_location e.original_path path w.fs in
        let kept : G.files l.1 ≡ files =
          G.recovery_location-reads e.original_path path w.fs ∙ same in
        elim (Result-cases l.0) [
          | inr (_, failed) ↦
              rw (resolved, failed) (kept, λ i _. refl, λ h. absurd (ground arith), λ h. refl)
          | inl (location, found) ↦
              let w1 : World F M = record w { fs = l.1 } in
              let place =
                rw same at (G.recovery_location-files e.original_path path w.fs location found) in
              let (still, others, reached, unchanged) =
                settle_in_flight-IsRound e location result path w1 resolved place row in
              rw (resolved, found)
                (ap G.files still ∙ kept, others, rw resolved at reached, unchanged)
        ]
  ]

  pub recover_quarantined-IsRound :
      (e : QuarantineEntry)
      → IsRound G J files (Checked surrogate_path files) (recover_quarantined F M surrogate_path) e
  unfolding recover_quarantined
  recover_quarantined-IsRound e result w same row = elim (Result-cases (surrogate_path e)) [
    | inr (_, unresolved) ↦ rw unresolved (same, λ i _. refl, λ h. absurd (ground arith), λ h. refl)
    | inl (path, resolved) ↦
        let l = F.surrogate_state path w.fs in
        let kept : G.files l.1 ≡ files = G.surrogate_state-reads path w.fs ∙ same in
        elim (Result-cases l.0) [
          | inr (_, failed) ↦
              rw (resolved, failed) (kept, λ i _. refl, λ h. absurd (ground arith), λ h. refl)
          | inl (state, found) ↦
              let w1 : World F M = record w { fs = l.1 } in
              let place = rw same at (G.surrogate_state-files path w.fs state found) in
              let (still, others, reached, unchanged) =
                settle_quarantined-IsRound e state result path w1 resolved place.1 row in
              rw (resolved, found)
                (ap G.files still ∙ kept, others, rw resolved at reached, unchanged)
        ]
  ]
