-- ===== src/Quarantine/Purge/Manual.antt =====
-- `ManualPurger::purge`: what a manual purge may touch, and what it does when it ends.
use mathlib.Core.List.{map-map}
use file_reaper.Prelude.{
  ℕ, ◌≡◌, refl, ap, sym, inl, inr, Option, none, some, Bool, true, List, [], ◌++◌, map, keep_if,
  All-imp, arith, ◌∙◌, ◌&&◌, if◌then◌else◌,
}
use file_reaper.Prelude.Text.{Text}
use file_reaper.Outcome.{Result, ok, Result-cases}
use file_reaper.Quarantine.{QuarantineEntry, is_quarantined, purge_manual, user}
use file_reaper.Quarantine.Ports.{QuarantineFs, QuarantineManifest, World}
use file_reaper.Quarantine.Gateway.{IsGateway}
use file_reaper.Quarantine.Rows.{IsJournal, lookup_entry, HasDistinctIds}
use file_reaper.Quarantine.Reap.{event_of}
use file_reaper.Quarantine.Purge.{
  ManualPurgeSelection, ManualPurgeResult, as_purged, purge_targets, purge, purge_selected,
  manual_targets, sort_by_id, check_selection, is_selected,
}
use file_reaper.Quarantine.Purge.Targets.{
  IsRow, PurgedOrSame, purge_targets-PurgedOrSame, purge_targets-ok,
}
use file_reaper.Quarantine.Purge.Listing.{
  option_as_purged, keep_option, IsRow-listed, All-keep_if, keep_if-kept, keep_if-HasDistinctIds,
  lookup_entry-keep_if, lookup_entry-map-as_purged, All-sort_by_id, sort_by_id-HasDistinctIds,
  lookup_entry-sort_by_id,
}
use file_reaper.Quarantine.Purge.Effect.{rows-purge_targets, purged_if_listed}

abbrev pub is_target : ManualPurgeSelection → QuarantineEntry → Bool
is_target selection e = is_quarantined e.status && is_selected selection e

manual_targets-keep_if :
    (selection : ManualPurgeSelection) (listed : List QuarantineEntry)
    → manual_targets selection listed ≡ keep_if (is_target selection) listed
unfolding manual_targets
manual_targets-keep_if selection listed = refl

-- What a complete purge does to a row.
abbrev pub empty_out : ManualPurgeSelection → Option QuarantineEntry → Option QuarantineEntry
empty_out selection none = none
empty_out selection (some e) =
    if is_quarantined e.status && is_selected selection e then some (as_purged e) else some e

empty_out-keep_option :
    (selection : ManualPurgeSelection) (o : Option QuarantineEntry)
    → purged_if_listed (keep_option (is_target selection) o) o ≡ empty_out selection o
empty_out-keep_option selection o = ground arith

module _ {F : QuarantineFs} {M : QuarantineManifest} (G : IsGateway F) (J : IsJournal M)
    (surrogate_path : QuarantineEntry → Result Text) (selection : ManualPurgeSelection) where
  purge_selected-PurgedOrSame :
      (listed : List QuarantineEntry) (w : World F M)
      → J.rows w.manifest ≡ lookup_entry listed
      → HasDistinctIds listed
      → (i : ℕ)
      → PurgedOrSame
          (λ e. is_selected selection e ≡ true)
          (J.rows w.manifest)
          (J.rows (purge_selected F M surrogate_path selection listed w).1.manifest)
          i
  unfolding purge_selected
  purge_selected-PurgedOrSame listed w same distinct i =
      let p = is_target selection in
      let ts = keep_if p listed in
      let kept = All-sort_by_id (λ e. p e ≡ true) ts (keep_if-kept p listed) in
      let es = sort_by_id ts in
      let rows =
        All-sort_by_id (IsRow (lookup_entry listed)) ts
          (All-keep_if p (IsRow (lookup_entry listed)) listed (IsRow-listed listed distinct)) in
      rw (manual_targets-keep_if selection listed)
        (elim (Result-cases (check_selection F M surrogate_path selection ts)) [
          | inr (_, refused) ↦ rw refused (inl refl)
          | inl (_, accepted) ↦ rw accepted (
              purge_targets-PurgedOrSame G J surrogate_path purge_manual user
                (λ e. is_selected selection e ≡ true) es [] 0 w
                (sort_by_id-HasDistinctIds ts (keep_if-HasDistinctIds p listed distinct))
                (rw same rows)
                (All-imp (λ e. p e ≡ true) (λ e. is_quarantined e.status ≡ true)
                  (λ e h. ground (arith, h)) es kept)
                (All-imp (λ e. p e ≡ true) (λ e. is_selected selection e ≡ true)
                  (λ e h. ground (arith, h)) es kept)
                i)
        ])

  purge-found :
      (w : World F M) (listed : List QuarantineEntry)
      → (M.list_entries w.manifest).0 ≡ ok listed
      → let t =
          purge_selected F M surrogate_path selection listed
            (record w { manifest = (M.list_entries w.manifest).1 }) in
        ((purge F M surrogate_path selection w).1 ≡ t.1)
        × ((out : ManualPurgeResult)
            → (purge F M surrogate_path selection w).0 ≡ ok out
            → (t.0 ≡ ok (out.purged, out.purged_bytes)))
  unfolding purge
  purge-found w listed found = (ground (arith, found), λ out h. ground (arith, found, h))

  -- Whatever fails, a manual purge changes no row but those of selected quarantined entries, and
  -- those only to `purged`.
  pub purge-PurgedOrSame :
      (w : World F M) (i : ℕ)
      → PurgedOrSame
          (λ e. is_selected selection e ≡ true)
          (J.rows w.manifest)
          (J.rows (purge F M surrogate_path selection w).1.manifest)
          i
  purge-PurgedOrSame w i =
      let l = M.list_entries w.manifest in
      let (same, _) = J.list_entries-reads w.manifest in
      elim (Result-cases l.0) [
        | inr (_, failed) ↦ inl (unfold purge in ground (arith, failed, ap (λ rows. rows i) same))
        | inl (listed, found) ↦
            let (rows, distinct) = J.list_entries-rows w.manifest listed found in
            let v : World F M = record w { manifest = l.1 } in
            let h = purge_selected-PurgedOrSame listed v (same ∙ rows) distinct i in
            rw ((purge-found w listed found).0) (rw same at h)
      ]

  purge_selected-ok :
      (listed : List QuarantineEntry) (w : World F M) (r : List QuarantineEntry × ℕ)
      → J.rows w.manifest ≡ lookup_entry listed
      → HasDistinctIds listed
      → let t = purge_selected F M surrogate_path selection listed w in
        t.0 ≡ ok r
        → ((i : ℕ) → J.rows t.1.manifest i ≡ empty_out selection (J.rows w.manifest i))
          × ((i : ℕ)
              → lookup_entry r.0 i
                ≡ option_as_purged (keep_option (is_target selection) (J.rows w.manifest i)))
          × (J.audit t.1.manifest
              ≡ J.audit w.manifest ++ map (λ e. event_of e purge_manual user) r.0)
  unfolding purge_selected
  purge_selected-ok listed w r same distinct h =
      let p = is_target selection in
      let ts = keep_if p listed in
      let es = sort_by_id ts in
      let keyed = keep_if-HasDistinctIds p listed distinct in
      let found =
        λ (i : ℕ). lookup_entry-sort_by_id ts i keyed ∙ lookup_entry-keep_if p listed i distinct in
      let run = purge_targets F M surrogate_path purge_manual user es [] 0 w in
      let given = rw (manual_targets-keep_if selection listed) at h in
      elim (Result-cases (check_selection F M surrogate_path selection ts)) [
        | inr (_, refused) ↦ absurd (ground (arith, refused, given))
        | inl (_, accepted) ↦
            let fine = rw accepted at given in
            let (done, audit) =
              purge_targets-ok G J surrogate_path purge_manual user es [] 0 w r fine in
            rw (manual_targets-keep_if selection listed) (
              rw accepted (
                λ i.
                    rows-purge_targets G J surrogate_path purge_manual user es [] 0 w r fine i
                    ∙ rw (found i, same) (empty_out-keep_option selection (lookup_entry listed i)),
                λ i. rw (done, lookup_entry-map-as_purged, found i, same),
                audit
                    ∙ rw done (
                        ap (◌++◌ (J.audit w.manifest))
                          (sym (map-map (λ e. event_of e purge_manual user) as_purged es))),
              ))
      ]

  -- When a manual purge succeeds, the rows of the quarantined entries that are selected are `Purged`
  -- and all other rows are as before. The result has exactly these entries, as purged, and the audit
  -- has one event for each of them, by the user.
  pub purge-ok :
      (w : World F M) (out : ManualPurgeResult)
      → let t = purge F M surrogate_path selection w in
        t.0 ≡ ok out
        → ((i : ℕ) → J.rows t.1.manifest i ≡ empty_out selection (J.rows w.manifest i))
          × ((i : ℕ)
              → lookup_entry out.purged i
                ≡ option_as_purged (keep_option (is_target selection) (J.rows w.manifest i)))
          × (J.audit t.1.manifest
              ≡ J.audit w.manifest ++ map (λ e. event_of e purge_manual user) out.purged)
  purge-ok w out h =
      let l = M.list_entries w.manifest in
      let (same, told) = J.list_entries-reads w.manifest in
      elim (Result-cases l.0) [
        | inr (_, failed) ↦ absurd (unfold purge in ground (arith, failed, h))
        | inl (listed, found) ↦
            let (rows, distinct) = J.list_entries-rows w.manifest listed found in
            let v : World F M = record w { manifest = l.1 } in
            let (state, result) = purge-found w listed found in
            let (a, b, c) =
              purge_selected-ok listed v (out.purged, out.purged_bytes) (same ∙ rows) distinct
                (result out h) in
            (λ i. rw (state, ← same) (a i), λ i. rw (← same) (b i), rw (state, ← told) c)
      ]
