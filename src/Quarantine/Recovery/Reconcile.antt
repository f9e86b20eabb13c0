-- ===== src/Quarantine/Recovery/Reconcile.antt =====
-- `QuarantineRecovery::reconcile`: what it leaves of every row, when it ends and when it fails.
use file_reaper.Prelude.{
  ℕ, ◌≡◌, ◌∙◌, refl, ◌⊎◌, inl, inr, none, some, Bool, true, List, [], All, All-imp₂, All-every,
  keep_if,
}
use file_reaper.Prelude.Text.{Text}
use file_reaper.Outcome.{Result, ok, Result-cases, is_ok}
use file_reaper.Quarantine.{QuarantineEntry}
use file_reaper.Quarantine.Ports.{QuarantineFs, QuarantineManifest, World}
use file_reaper.Quarantine.Gateway.{IsGateway}
use file_reaper.Quarantine.Rows.{IsJournal, lookup_entry, HasDistinctIds}
use file_reaper.Quarantine.Purge.{sort_by_id}
use file_reaper.Quarantine.Purge.Targets.{IsRow}
use file_reaper.Quarantine.Purge.Listing.{
  IsRow-listed, All-keep_if, keep_if-kept, keep_if-HasDistinctIds, keep_option,
  lookup_entry-keep_if, All-sort_by_id, sort_by_id-HasDistinctIds, lookup_entry-sort_by_id,
}
use file_reaper.Quarantine.Recovery.{
  RecoveryResult, for_each, recover_in_flight, recover_quarantined, reconcile_in_flight,
  reconcile_interrupted_purge, reconcile_entries, reconcile,
}
use file_reaper.Quarantine.Recovery.Pass.{Leaves, Leaves-unchanged, for_each-Leaves}
use file_reaper.Quarantine.Recovery.Rounds.{
  Finished, Checked, recover_in_flight-IsRound, recover_quarantined-IsRound,
}
use file_reaper.Quarantine.Recovery.Fates.{
  fits_in_flight, fits_quarantined, Fate, EntryFate, SameOrFate_of_Leaves, IsRow_of_quarantined,
  Leaves-of_both, Leaves-of_first,
}

lookup_entry-part :
    (p : QuarantineEntry → Bool) (es : List QuarantineEntry) (i : ℕ)
    → HasDistinctIds es
    → lookup_entry (sort_by_id (keep_if p es)) i ≡ keep_option p (lookup_entry es i)
lookup_entry-part p es i distinct =
    lookup_entry-sort_by_id (keep_if p es) i (keep_if-HasDistinctIds p es distinct)
    ∙ lookup_entry-keep_if p es i distinct

module _ {F : QuarantineFs} {M : QuarantineManifest} (G : IsGateway F) (J : IsJournal M)
    (surrogate_path : QuarantineEntry → Result Text) where
  reconcile_entries-Leaves :
      (listed : List QuarantineEntry) (w : World F M)
      → J.rows w.manifest ≡ lookup_entry listed
      → HasDistinctIds listed
      → let t = reconcile_entries F M surrogate_path listed w in
        (G.files t.1.fs ≡ G.files w.fs)
        × ((i : ℕ)
            → Leaves
                (EntryFate surrogate_path (G.files w.fs))
                (is_ok t.0)
                (J.rows w.manifest i)
                (J.rows w.manifest i)
                (J.rows t.1.manifest i))
  unfolding reconcile_entries reconcile_in_flight reconcile_interrupted_purge
  reconcile_entries-Leaves listed w rows distinct =
      let files = G.files w.fs in
      let first = sort_by_id (keep_if fits_in_flight listed) in
      let second = sort_by_id (keep_if fits_quarantined listed) in
      let empty : RecoveryResult = record {
        completed = [];
        rolled_back = [];
        purge_completed = [];
      } in
      let own : All (IsRow (J.rows w.manifest)) listed = rw rows (IsRow-listed listed distinct) in
      let t = for_each (recover_in_flight F M surrogate_path) empty first w in
      let (same, left) =
        for_each-Leaves G J files (Finished surrogate_path files)
          (recover_in_flight F M surrogate_path) first empty w
          (All-every (recover_in_flight-IsRound G J surrogate_path files) first)
          (sort_by_id-HasDistinctIds _ (keep_if-HasDistinctIds fits_in_flight listed distinct))
          (All-sort_by_id (IsRow (J.rows w.manifest)) _
            (All-keep_if fits_in_flight (IsRow (J.rows w.manifest)) listed own))
          refl in
      let at_first =
        λ (i : ℕ). rw (lookup_entry-part fits_in_flight listed i distinct, ← rows) at (left i) in
      elim (Result-cases t.0) [
        | inr (_, failed) ↦ rw failed (
          same,
          λ i.
              Leaves-of_first surrogate_path files (J.rows w.manifest i) (J.rows t.1.manifest i)
                (rw failed at (at_first i)),
        )
        | inl (result, fine) ↦
            let still : All (IsRow (J.rows t.1.manifest)) (keep_if fits_quarantined listed) =
              All-imp₂ (IsRow (J.rows w.manifest)) (λ e. fits_quarantined e ≡ true)
                (IsRow (J.rows t.1.manifest))
                (λ e row fits.
                  IsRow_of_quarantined surrogate_path files (J.rows w.manifest) e.status e
                    (J.rows t.1.manifest e.id) fits (rw (fine, row) at (at_first e.id)))
                (keep_if fits_quarantined listed)
                (All-keep_if fits_quarantined (IsRow (J.rows w.manifest)) listed own)
                (keep_if-kept fits_quarantined listed) in
            let (same', left') =
              for_each-Leaves G J files (Checked surrogate_path files)
                (recover_quarantined F M surrogate_path) second result t.1
                (All-every (recover_quarantined-IsRound G J surrogate_path files) second)
                (sort_by_id-HasDistinctIds _
                  (keep_if-HasDistinctIds fits_quarantined listed distinct))
                (All-sort_by_id (IsRow (J.rows t.1.manifest)) _ still) same in
            let u = for_each (recover_quarantined F M surrogate_path) result second t.1 in
            rw fine (
              same',
              λ i.
                  Leaves-of_both surrogate_path files (is_ok u.0) (J.rows w.manifest i)
                    (J.rows t.1.manifest i) (J.rows u.1.manifest i) (rw fine at (at_first i))
                    (rw (lookup_entry-part fits_quarantined listed i distinct, ← rows) at
                      (left' i)),
            )
      ]

  reconcile-Leaves :
      (w : World F M)
      → let t = reconcile F M surrogate_path w in
        (G.files t.1.fs ≡ G.files w.fs)
        × ((i : ℕ)
            → Leaves
                (EntryFate surrogate_path (G.files w.fs))
                (is_ok t.0)
                (J.rows w.manifest i)
                (J.rows w.manifest i)
                (J.rows t.1.manifest i))
  unfolding reconcile
  reconcile-Leaves w =
      let l = M.list_entries w.manifest in
      let same = (J.list_entries-reads w.manifest).0 in
      elim (Result-cases l.0) [
        | inr (_, failed) ↦ rw failed (
          refl,
          λ i. rw same (
              Leaves-unchanged (EntryFate surrogate_path (G.files w.fs)) (J.rows w.manifest i)
                (J.rows w.manifest i)),
        )
        | inl (listed, found) ↦
            let (rows, distinct) = J.list_entries-rows w.manifest listed found in
            let v : World F M = record w { manifest = l.1 } in
            rw found (rw same at (reconcile_entries-Leaves listed v (same ∙ rows) distinct))
      ]

  -- When the reconciliation ends well, no file has been touched, no row has been added, and every
  -- entry has met its fate. One in flight has lost its row if its file stands at the source only, and
  -- is `Quarantined` if it stands at the surrogate only (it is never in both places or in neither).
  -- A quarantined one is as before, or its surrogate is missing and it is `Purged`. Restored and
  -- purged ones are as before.
  pub reconcile-ok :
      (w : World F M) (out : RecoveryResult)
      → let t = reconcile F M surrogate_path w in
        t.0 ≡ ok out
        → (G.files t.1.fs ≡ G.files w.fs)
          × ((i : ℕ) → J.rows w.manifest i ≡ none → J.rows t.1.manifest i ≡ none)
          × ((i : ℕ) (e : QuarantineEntry)
              → J.rows w.manifest i ≡ some e
              → Fate surrogate_path (G.files w.fs) e.status e (J.rows t.1.manifest i))
  reconcile-ok w out done =
      let (same, left) = rw done at (reconcile-Leaves w) in
      (same, λ i nothing. rw nothing at (left i), λ i e row. rw row at (left i))

  -- Whatever fails on the way, the reconciliation touches no file, and each row is as before or its
  -- entry has met the fate that `reconcile-ok` gives it: no row is lost while its file is known only
  -- to the quarantine, and none is purged while its surrogate stands.
  pub reconcile-is_safe :
      (w : World F M)
      → let t = reconcile F M surrogate_path w in
        (G.files t.1.fs ≡ G.files w.fs)
        × ((i : ℕ)
            → (J.rows t.1.manifest i ≡ J.rows w.manifest i)
              ⊎ ((e : QuarantineEntry) × (J.rows w.manifest i ≡ some e)
                  × Fate surrogate_path (G.files w.fs) e.status e (J.rows t.1.manifest i)))
  reconcile-is_safe w =
      let t = reconcile F M surrogate_path w in
      let (same, left) = reconcile-Leaves w in
      (
        same,
        λ i.
            SameOrFate_of_Leaves surrogate_path (G.files w.fs) (is_ok t.0) (J.rows w.manifest i)
              (J.rows t.1.manifest i) (left i),
      )
