-- ===== src/Quarantine/Recovery/Fates.antt =====
-- What the two loops of the reconciliation make of an entry, by its status.
use file_reaper.Prelude.{
  ◌≡◌, ◌∙◌, refl, ◌⊎◌, inl, inr, Option, none, some, Bool, true, false, arith, if◌then◌else◌,
}
use file_reaper.Prelude.Text.{Text}
use file_reaper.Outcome.{Result}
use file_reaper.Quarantine.{
  QuarantineEntry, QuarantineStatus, in_flight, quarantined, restored, purged, is_quarantined,
  is_in_flight,
}
use file_reaper.Quarantine.Gateway.{Files}
use file_reaper.Quarantine.Rows.{Rows}
use file_reaper.Quarantine.Purge.Listing.{keep_option}
use file_reaper.Quarantine.Recovery.Pass.{Leaves}
use file_reaper.Quarantine.Recovery.Rounds.{Finished, Checked}

abbrev pub fits_in_flight : QuarantineEntry → Bool
fits_in_flight e = is_in_flight e.status

abbrev pub fits_quarantined : QuarantineEntry → Bool
fits_quarantined e = is_quarantined e.status

module _ (surrogate_path : QuarantineEntry → Result Text) (files : Files) where
  -- What the reconciliation makes of an entry, by its status.
  abbrev pub Fate : QuarantineStatus → QuarantineEntry → Option QuarantineEntry → Type 0
  Fate in_flight e after = Finished surrogate_path files e after
  Fate quarantined e after = Checked surrogate_path files e after
  Fate restored e after = after ≡ some e
  Fate purged e after = after ≡ some e

  abbrev pub EntryFate : QuarantineEntry → Option QuarantineEntry → Type 0
  EntryFate e after = Fate e.status e after

  Fate-of_both :
      (st : QuarantineStatus) (e : QuarantineEntry) (mid after : Option QuarantineEntry)
      → Leaves
          (Finished surrogate_path files)
          true
          (if is_in_flight st then some e else none)
          (some e)
          mid
      → Leaves
          (Checked surrogate_path files)
          true
          (if is_quarantined st then some e else none)
          mid
          after
      → Fate st e after
  unfolding is_in_flight is_quarantined
  Fate-of_both in_flight e mid after h k = rw k h
  Fate-of_both quarantined e mid after h k = k
  Fate-of_both restored e mid after h k = k ∙ h
  Fate-of_both purged e mid after h k = k ∙ h

  Fate-of_failed :
      (st : QuarantineStatus) (e : QuarantineEntry) (mid after : Option QuarantineEntry)
      → Leaves
          (Finished surrogate_path files)
          true
          (if is_in_flight st then some e else none)
          (some e)
          mid
      → Leaves
          (Checked surrogate_path files)
          false
          (if is_quarantined st then some e else none)
          mid
          after
      → (after ≡ some e) ⊎ Fate st e after
  unfolding is_in_flight is_quarantined
  Fate-of_failed in_flight e mid after h k = inr (rw k h)
  Fate-of_failed quarantined e mid after h (inl k) = inl (k ∙ h)
  Fate-of_failed quarantined e mid after h (inr k) = inr k
  Fate-of_failed restored e mid after h k = inl (k ∙ h)
  Fate-of_failed purged e mid after h k = inl (k ∙ h)

  Fate-of_first :
      (st : QuarantineStatus) (e : QuarantineEntry) (after : Option QuarantineEntry)
      → Leaves
          (Finished surrogate_path files)
          false
          (if is_in_flight st then some e else none)
          (some e)
          after
      → (after ≡ some e) ⊎ Fate st e after
  unfolding is_in_flight is_quarantined
  Fate-of_first in_flight e after h = h
  Fate-of_first quarantined e after h = inl h
  Fate-of_first restored e after h = inl h
  Fate-of_first purged e after h = inl h

  pub Leaves-of_both :
      (done : Bool) (o mid after : Option QuarantineEntry)
      → Leaves (Finished surrogate_path files) true (keep_option fits_in_flight o) o mid
      → Leaves (Checked surrogate_path files) done (keep_option fits_quarantined o) mid after
      → Leaves EntryFate done o o after
  Leaves-of_both done none mid after h k = k ∙ h
  Leaves-of_both true (some e) mid after h k = Fate-of_both e.status e mid after h k
  Leaves-of_both false (some e) mid after h k = Fate-of_failed e.status e mid after h k

  pub Leaves-of_first :
      (o after : Option QuarantineEntry)
      → Leaves (Finished surrogate_path files) false (keep_option fits_in_flight o) o after
      → Leaves EntryFate false o o after
  Leaves-of_first none after h = h
  Leaves-of_first (some e) after h = Fate-of_first e.status e after h

  pub SameOrFate_of_Leaves :
      (done : Bool) (before after : Option QuarantineEntry)
      → Leaves EntryFate done before before after
      → (after ≡ before) ⊎ ((e : QuarantineEntry) × (before ≡ some e) × Fate e.status e after)
  SameOrFate_of_Leaves done none after h = inl h
  SameOrFate_of_Leaves true (some e) after h = inr (e, refl, h)
  SameOrFate_of_Leaves false (some e) after (inl h) = inl h
  SameOrFate_of_Leaves false (some e) after (inr h) = inr (e, refl, h)

  -- A quarantined entry is left alone by the first loop.
  pub IsRow_of_quarantined :
      (rows : Rows) (st : QuarantineStatus) (e : QuarantineEntry) (after : Option QuarantineEntry)
      → is_quarantined st ≡ true
      → Leaves
          (Finished surrogate_path files)
          true
          (if is_in_flight st then some e else none)
          (some e)
          after
      → after ≡ some e
  unfolding is_in_flight is_quarantined
  IsRow_of_quarantined rows in_flight e after fits h = absurd (ground arith)
  IsRow_of_quarantined rows quarantined e after fits h = h
  IsRow_of_quarantined rows restored e after fits h = h
  IsRow_of_quarantined rows purged e after fits h = h
