-- ===== src/Quarantine/Recovery/Pass.antt =====
-- A loop of the reconciliation: what it leaves of the files and of each row.
use mathlib.Core.Path.{subst}
use file_reaper.Prelude.{
  ℕ, ◌≡◌, ◌==◌, ◌∙◌, ap, refl, ◌⊎◌, inl, inr, Option, none, some, Bool, true, false, List, [], ◌∷◌,
  All, All-imp₂, arith, ==_iff, Bool-cases,
}
use file_reaper.Outcome.{Exec, Result-cases, is_ok}
use file_reaper.Quarantine.{QuarantineEntry}
use file_reaper.Quarantine.Ports.{QuarantineFs, QuarantineManifest, World}
use file_reaper.Quarantine.Gateway.{Files, IsGateway}
use file_reaper.Quarantine.Rows.{IsJournal, lookup_entry, OtherEntry, HasDistinctIds}
use file_reaper.Quarantine.Purge.Targets.{IsRow}
use file_reaper.Quarantine.Purge.Listing.{lookup_entry_of_OtherEntry}
use file_reaper.Quarantine.Recovery.{RecoveryResult, for_each}

-- What a loop leaves of a row, by the entry that it has for it: nothing has changed, or the entry's
-- effect has been reached.
abbrev pub Leaves :
    (QuarantineEntry → Option QuarantineEntry → Type 0)
    → Bool
    → Option QuarantineEntry
    → Option QuarantineEntry
    → Option QuarantineEntry
    → Type 0
Leaves Effect done none before after = after ≡ before
Leaves Effect true (some e) before after = Effect e after
Leaves Effect false (some e) before after = (after ≡ before) ⊎ Effect e after

pub Leaves-unchanged :
    (Effect : QuarantineEntry → Option QuarantineEntry → Type 0) (o row : Option QuarantineEntry)
    → Leaves Effect false o row row
Leaves-unchanged Effect none row = refl
Leaves-unchanged Effect (some e) row = inl refl

Leaves-reached :
    (Effect : QuarantineEntry → Option QuarantineEntry → Type 0) (done : Bool) (e : QuarantineEntry)
    (before after : Option QuarantineEntry)
    → Effect e after
    → Leaves Effect done (some e) before after
Leaves-reached Effect true e before after h = h
Leaves-reached Effect false e before after h = inr h

module _ {F : QuarantineFs} {M : QuarantineManifest} (G : IsGateway F) (J : IsJournal M)
    (files : Files) (Effect : QuarantineEntry → Option QuarantineEntry → Type 0)
    (body : RecoveryResult → QuarantineEntry → Exec (World F M) RecoveryResult) where
  -- One round changes no file, and no row but that of its entry, and this one only when it ends well.
  abbrev pub IsRound : QuarantineEntry → Type 0
  IsRound e =
      (result : RecoveryResult) (w : World F M)
      → G.files w.fs ≡ files
      → IsRow (J.rows w.manifest) e
      → let t = body result e w in
        (G.files t.1.fs ≡ files)
        × ((i : ℕ) → (e.id == i) ≡ false → J.rows t.1.manifest i ≡ J.rows w.manifest i)
        × (is_ok t.0 ≡ true → Effect e (J.rows t.1.manifest e.id))
        × (is_ok t.0 ≡ false → J.rows t.1.manifest ≡ J.rows w.manifest)

  pub for_each-Leaves :
      (es : List QuarantineEntry) (result : RecoveryResult) (w : World F M)
      → All IsRound es
      → HasDistinctIds es
      → All (IsRow (J.rows w.manifest)) es
      → G.files w.fs ≡ files
      → let t = for_each body result es w in
        (G.files t.1.fs ≡ files)
        × ((i : ℕ)
            → Leaves Effect
                (is_ok t.0)
                (lookup_entry es i)
                (J.rows w.manifest i)
                (J.rows t.1.manifest i))
  unfolding for_each lookup_entry
  for_each-Leaves [] result w rounds distinct rows same = (same, λ i. refl)
  for_each-Leaves (e ∷ es) result w rounds distinct rows same =
      let t = body result e w in
      let (kept, others, reached, unchanged) = rounds.0 result w same rows.0 in
      elim (Result-cases t.0) [
        | inr (_, failed) ↦
            rw (failed, for_each)
              (
                kept,
                λ i.
                    rw (unchanged (ap is_ok failed))
                      (Leaves-unchanged Effect (lookup_entry (e ∷ es) i) (J.rows w.manifest i)),
              )
        | inl (next, fine) ↦
            let later =
              All-imp₂ (OtherEntry e) (IsRow (J.rows w.manifest)) (IsRow (J.rows t.1.manifest))
                (λ f other row. others f.id other ∙ row) es distinct.0 rows.1 in
            let (kept', rest) = for_each-Leaves es next t.1 rounds.1 distinct.1 later kept in
            let u = for_each body next es t.1 in
            rw (fine, for_each)
              (
                kept',
                λ i. elim (Bool-cases (e.id == i)) [
                  | inr other ↦ rw (other, lookup_entry) (rw (others i other) at (rest i))
                  | inl this ↦
                      let here : e.id ≡ i = ground (arith, ==_iff e.id i, this) in
                      let last : J.rows u.1.manifest i ≡ J.rows t.1.manifest i =
                        rw (← here)
                          (rw (lookup_entry_of_OtherEntry e es distinct.0) at (rest e.id)) in
                      rw (this, lookup_entry)
                        (Leaves-reached Effect (is_ok u.0) e (J.rows w.manifest i)
                          (J.rows u.1.manifest i)
                          (rw last (
                            subst (λ j. Effect e (J.rows t.1.manifest j)) here
                              (reached (ap is_ok fine)))))
                ],
              )
      ]
