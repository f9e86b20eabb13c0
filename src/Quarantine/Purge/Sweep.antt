-- ===== src/Quarantine/Purge/Sweep.antt =====
-- `QuarantineSweeper::sweep_once`: what a sweep may touch, and what it does when it ends.
use mathlib.Core.List.{map-map}
use file_reaper.Prelude.{
  ℕ, ◌≡◌, ap, refl, Bool, false, ◌&&◌, sym, inl, inr, Option, none, some, true, List, [], ◌++◌, map,
  keep_if, All-imp, arith, ◌∙◌, if◌then◌else◌,
}
use file_reaper.Prelude.Int.{ℤ, leb_ℤ}
use file_reaper.Prelude.Text.{Text}
use file_reaper.Outcome.{Result, ok, Result-cases}
use file_reaper.Quarantine.{
  QuarantineEntry, QuarantineStatus, in_flight, quarantined, restored, purged, is_quarantined,
  purge_ttl, sweeper,
}
use file_reaper.Quarantine.Ports.{QuarantineFs, QuarantineManifest, World}
use file_reaper.Quarantine.Gateway.{IsGateway}
use file_reaper.Quarantine.Rows.{IsJournal, lookup_entry, HasDistinctIds}
use file_reaper.Quarantine.Reap.{event_of}
use file_reaper.Quarantine.Purge.{
  SweepResult, as_purged, sweep_once, sweep_targets, sweep_result, is_expired,
}
use file_reaper.Quarantine.Purge.Targets.{
  IsRow, PurgedOrSame, purge_targets-PurgedOrSame, purge_targets-ok,
}
use file_reaper.Quarantine.Purge.Listing.{
  option_as_purged, keep_option, IsRow-listed, All-keep_if, keep_if-kept, keep_if-HasDistinctIds,
  lookup_entry-keep_if, lookup_entry-map-as_purged,
}
use file_reaper.Quarantine.Purge.Effect.{rows-purge_targets, purged_if_listed}

-- An entry whose time has come, by its status.
abbrev due_at : QuarantineStatus → Bool → Bool
due_at quarantined late = late
due_at in_flight late = false
due_at restored late = false
due_at purged late = false

abbrev pub is_due : ℤ → QuarantineEntry → Bool
is_due now e = due_at e.status (leb_ℤ e.expires_at_unix now)

due_at-and :
    (status : QuarantineStatus) (late : Bool) → (is_quarantined status && late) ≡ due_at status late
unfolding is_quarantined
due_at-and in_flight late = refl
due_at-and quarantined late = refl
due_at-and restored late = refl
due_at-and purged late = refl

is_expired-is_due : (now : ℤ) (e : QuarantineEntry) → is_expired now e ≡ is_due now e
unfolding is_expired
is_expired-is_due now e = due_at-and e.status (leb_ℤ e.expires_at_unix now)

-- What a complete sweep does to a row.
abbrev pub expire : ℤ → Option QuarantineEntry → Option QuarantineEntry
expire now none = none
expire now (some e) = if is_due now e then some (as_purged e) else some e

is_expired→is_quarantined :
    (now : ℤ) (e : QuarantineEntry) → is_expired now e ≡ true → is_quarantined e.status ≡ true
unfolding is_expired
is_expired→is_quarantined now e h = ground arith

expire-keep_option :
    (now : ℤ) (o : Option QuarantineEntry)
    → purged_if_listed (keep_option (is_expired now) o) o ≡ expire now o
expire-keep_option now none = refl
expire-keep_option now (some e) = ground (arith, is_expired-is_due now e)

keep_option-is_due :
    (now : ℤ) (o : Option QuarantineEntry)
    → keep_option (is_expired now) o ≡ keep_option (is_due now) o
keep_option-is_due now none = refl
keep_option-is_due now (some e) = ground (arith, is_expired-is_due now e)

module _ {F : QuarantineFs} {M : QuarantineManifest} (G : IsGateway F) (J : IsJournal M)
    (surrogate_path : QuarantineEntry → Result Text) where
  sweep_targets-PurgedOrSame :
      (now : ℤ) (listed : List QuarantineEntry) (w : World F M)
      → J.rows w.manifest ≡ lookup_entry listed
      → HasDistinctIds listed
      → (i : ℕ)
      → PurgedOrSame
          (λ e. is_due now e ≡ true)
          (J.rows w.manifest)
          (J.rows (sweep_targets F M surrogate_path now listed w).1.manifest)
          i
  unfolding sweep_targets
  sweep_targets-PurgedOrSame now listed w same distinct i =
      let es = keep_if (is_expired now) listed in
      let due = keep_if-kept (is_expired now) listed in
      purge_targets-PurgedOrSame G J surrogate_path purge_ttl sweeper (λ e. is_due now e ≡ true) es
        [] 0 w (keep_if-HasDistinctIds (is_expired now) listed distinct)
        (rw same (
          All-keep_if (is_expired now) (IsRow (lookup_entry listed)) listed
            (IsRow-listed listed distinct)))
        (All-imp (λ e. is_expired now e ≡ true) (λ e. is_quarantined e.status ≡ true)
          (is_expired→is_quarantined now) es due)
        (All-imp (λ e. is_expired now e ≡ true) (λ e. is_due now e ≡ true)
          (λ e h. sym (is_expired-is_due now e) ∙ h) es due)
        i

  sweep_once-found :
      (now : ℤ) (threshold : ℕ) (w : World F M) (listed : List QuarantineEntry)
      → (M.list_entries w.manifest).0 ≡ ok listed
      → let t =
          sweep_targets F M surrogate_path now listed
            (record w { manifest = (M.list_entries w.manifest).1 }) in
        ((sweep_once F M surrogate_path now threshold w).1 ≡ t.1)
        × ((out : SweepResult)
            → (sweep_once F M surrogate_path now threshold w).0 ≡ ok out
            → (r : List QuarantineEntry × ℕ) × (t.0 ≡ ok r)
              × (out ≡ sweep_result F M surrogate_path now threshold listed r))
  unfolding sweep_once
  sweep_once-found now threshold w listed found =
      let t =
        sweep_targets F M surrogate_path now listed
          (record w { manifest = (M.list_entries w.manifest).1 }) in
      (
        ground (arith, found),
        λ out h. elim (Result-cases t.0) [
          | inr (_, failed) ↦ absurd (ground (arith, found, failed, h))
          | inl (r, fine) ↦ (r, fine, ground (arith, found, fine, h))
        ],
      )

  -- Whatever fails on the way, a sweep leaves each row as it was, or it was the row of a quarantined
  -- entry that has expired and is `Purged` now.
  pub sweep_once-PurgedOrSame :
      (now : ℤ) (threshold : ℕ) (w : World F M) (i : ℕ)
      → PurgedOrSame
          (λ e. is_due now e ≡ true)
          (J.rows w.manifest)
          (J.rows (sweep_once F M surrogate_path now threshold w).1.manifest)
          i
  sweep_once-PurgedOrSame now threshold w i =
      let l = M.list_entries w.manifest in
      let (same, _) = J.list_entries-reads w.manifest in
      elim (Result-cases l.0) [
        | inr (_, failed) ↦
            inl (unfold sweep_once in ground (arith, failed, ap (λ rows. rows i) same))
        | inl (listed, found) ↦
            let (rows, distinct) = J.list_entries-rows w.manifest listed found in
            let v : World F M = record w { manifest = l.1 } in
            let h = sweep_targets-PurgedOrSame now listed v (same ∙ rows) distinct i in
            rw ((sweep_once-found now threshold w listed found).0) (rw same at h)
      ]

  sweep_targets-ok :
      (now : ℤ) (listed : List QuarantineEntry) (w : World F M) (r : List QuarantineEntry × ℕ)
      → J.rows w.manifest ≡ lookup_entry listed
      → HasDistinctIds listed
      → let t = sweep_targets F M surrogate_path now listed w in
        t.0 ≡ ok r
        → ((i : ℕ) → J.rows t.1.manifest i ≡ expire now (J.rows w.manifest i))
          × ((i : ℕ)
              → lookup_entry r.0 i
                ≡ option_as_purged (keep_option (is_due now) (J.rows w.manifest i)))
          × (J.audit t.1.manifest
              ≡ J.audit w.manifest ++ map (λ e. event_of e purge_ttl sweeper) r.0)
  unfolding sweep_targets
  sweep_targets-ok now listed w r same distinct h =
      let es = keep_if (is_expired now) listed in
      let found = λ (i : ℕ). lookup_entry-keep_if (is_expired now) listed i distinct in
      let (done, audit) = purge_targets-ok G J surrogate_path purge_ttl sweeper es [] 0 w r h in
      (
        λ i.
            rows-purge_targets G J surrogate_path purge_ttl sweeper es [] 0 w r h i
            ∙ rw (found i, same) (expire-keep_option now (lookup_entry listed i)),
        λ i.
            rw (done, lookup_entry-map-as_purged, found i, same)
              (ap option_as_purged (keep_option-is_due now (lookup_entry listed i))),
        audit
            ∙ rw done (
                ap (◌++◌ (J.audit w.manifest))
                  (sym (map-map (λ e. event_of e purge_ttl sweeper) as_purged es))),
      )

  -- When a sweep succeeds, the rows of the quarantined entries that have expired are `Purged` and all
  -- other rows are as before. The result has exactly these entries, as purged, and the audit has one
  -- event for each of them, by the sweeper.
  pub sweep_once-ok :
      (now : ℤ) (threshold : ℕ) (w : World F M) (out : SweepResult)
      → let t = sweep_once F M surrogate_path now threshold w in
        t.0 ≡ ok out
        → ((i : ℕ) → J.rows t.1.manifest i ≡ expire now (J.rows w.manifest i))
          × ((i : ℕ)
              → lookup_entry out.purged i
                ≡ option_as_purged (keep_option (is_due now) (J.rows w.manifest i)))
          × (J.audit t.1.manifest
              ≡ J.audit w.manifest ++ map (λ e. event_of e purge_ttl sweeper) out.purged)
  sweep_once-ok now threshold w out h =
      let l = M.list_entries w.manifest in
      let (same, told) = J.list_entries-reads w.manifest in
      elim (Result-cases l.0) [
        | inr (_, failed) ↦ absurd (unfold sweep_once in ground (arith, failed, h))
        | inl (listed, found) ↦
            let (rows, distinct) = J.list_entries-rows w.manifest listed found in
            let v : World F M = record w { manifest = l.1 } in
            let (state, result) = sweep_once-found now threshold w listed found in
            let (r, fine, is) = result out h in
            let (a, b, c) = sweep_targets-ok now listed v r (same ∙ rows) distinct fine in
            unfold sweep_result in
            (λ i. rw (state, ← same) (a i), λ i. rw (is, ← same) (b i), rw (state, is, ← told) c)
      ]
