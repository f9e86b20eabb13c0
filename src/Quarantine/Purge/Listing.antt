-- ===== src/Quarantine/Purge/Listing.antt =====
-- The lists from which a purge takes its targets, as functions from an identifier to an entry.
use file_reaper.Prelude.{
  ℕ, ◌≡◌, refl, inl, inr, Option, none, some, Bool, true, List, [], ◌∷◌, map, keep_if, All,
  All-imp₂, arith, ==_refl, ==_iff, if◌then◌else◌, Bool-cases, leb,
}
use file_reaper.Quarantine.{QuarantineEntry}
use file_reaper.Quarantine.Rows.{lookup_entry, OtherEntry, HasDistinctIds}
use file_reaper.Quarantine.Purge.{as_purged, insert_by_id, sort_by_id}
use file_reaper.Quarantine.Purge.Targets.{IsRow}

pub lookup_entry_of_OtherEntry :
    (e : QuarantineEntry) (es : List QuarantineEntry)
    → All (OtherEntry e) es
    → lookup_entry es e.id ≡ none
unfolding lookup_entry
lookup_entry_of_OtherEntry e [] h = refl
lookup_entry_of_OtherEntry e (f ∷ es) h = ground (arith, lookup_entry_of_OtherEntry e es h.1)

IsRow-cons :
    (e f : QuarantineEntry) (es : List QuarantineEntry)
    → OtherEntry e f
    → IsRow (lookup_entry es) f
    → IsRow (lookup_entry (e ∷ es)) f
unfolding lookup_entry
IsRow-cons e f es other h = ground arith

-- Every entry of a listing is the manifest's own.
pub IsRow-listed :
    (es : List QuarantineEntry) → HasDistinctIds es → All (IsRow (lookup_entry es)) es
unfolding lookup_entry
IsRow-listed [] h = tt
IsRow-listed (e ∷ es) h = (
  ground (arith, ==_refl e.id),
  All-imp₂ (OtherEntry e) (IsRow (lookup_entry es)) (IsRow (lookup_entry (e ∷ es)))
      (λ f. IsRow-cons e f es) es h.0 (IsRow-listed es h.1),
)

module _ (p : QuarantineEntry → Bool) where
  pub All-keep_if {κ} :
      (P : QuarantineEntry → Type κ) (es : List QuarantineEntry) → All P es → All P (keep_if p es)
  unfolding keep_if
  All-keep_if P [] h = tt
  All-keep_if P (e ∷ es) h = elim (Bool-cases (p e)) [
    | inl kept ↦ rw (kept, keep_if) (h.0, All-keep_if P es h.1)
    | inr dropped ↦ rw (dropped, keep_if) (All-keep_if P es h.1)
  ]

  pub keep_if-kept : (es : List QuarantineEntry) → All (λ e. p e ≡ true) (keep_if p es)
  unfolding keep_if
  keep_if-kept [] = tt
  keep_if-kept (e ∷ es) = elim (Bool-cases (p e)) [
    | inl kept ↦ rw (kept, keep_if) (kept, keep_if-kept es)
    | inr dropped ↦ rw (dropped, keep_if) (keep_if-kept es)
  ]

  pub keep_if-HasDistinctIds :
      (es : List QuarantineEntry) → HasDistinctIds es → HasDistinctIds (keep_if p es)
  unfolding keep_if
  keep_if-HasDistinctIds [] h = tt
  keep_if-HasDistinctIds (e ∷ es) h = elim (Bool-cases (p e)) [
    | inl kept ↦
        rw (kept, keep_if) (All-keep_if (OtherEntry e) es h.0, keep_if-HasDistinctIds es h.1)
    | inr dropped ↦ rw (dropped, keep_if) (keep_if-HasDistinctIds es h.1)
  ]

  abbrev pub keep_option : Option QuarantineEntry → Option QuarantineEntry
  keep_option none = none
  keep_option (some e) = if p e then some e else none

  pub lookup_entry-keep_if :
      (es : List QuarantineEntry) (i : ℕ)
      → HasDistinctIds es
      → lookup_entry (keep_if p es) i ≡ keep_option (lookup_entry es i)
  unfolding keep_if lookup_entry
  lookup_entry-keep_if [] i h = refl
  lookup_entry-keep_if (e ∷ es) i h =
      ground
        (arith, lookup_entry-keep_if es i h.1, lookup_entry_of_OtherEntry e es h.0, ==_iff e.id i)

All-insert_by_id {κ} :
    (P : QuarantineEntry → Type κ) (e : QuarantineEntry) (es : List QuarantineEntry)
    → P e
    → All P es
    → All P (insert_by_id e es)
unfolding insert_by_id
All-insert_by_id P e [] p h = (p, tt)
All-insert_by_id P e (f ∷ fs) p h = elim (Bool-cases (leb e.id f.id)) [
  | inl before ↦ rw (before, insert_by_id) (p, (h.0, h.1))
  | inr after ↦ rw (after, insert_by_id) (h.0, All-insert_by_id P e fs p h.1)
]

pub All-sort_by_id {κ} :
    (P : QuarantineEntry → Type κ) (es : List QuarantineEntry) → All P es → All P (sort_by_id es)
unfolding sort_by_id
All-sort_by_id P [] h = tt
All-sort_by_id P (e ∷ es) h = All-insert_by_id P e (sort_by_id es) h.0 (All-sort_by_id P es h.1)

OtherEntry-symm : (e f : QuarantineEntry) → OtherEntry e f → OtherEntry f e
OtherEntry-symm e f h = ground arith

insert_by_id-HasDistinctIds :
    (e : QuarantineEntry) (es : List QuarantineEntry)
    → All (OtherEntry e) es
    → HasDistinctIds es
    → HasDistinctIds (insert_by_id e es)
unfolding insert_by_id
insert_by_id-HasDistinctIds e [] o h = (tt, tt)
insert_by_id-HasDistinctIds e (f ∷ fs) o h = elim (Bool-cases (leb e.id f.id)) [
  | inl before ↦ rw (before, insert_by_id) (o, h)
  | inr after ↦
      rw (after, insert_by_id)
        (
          All-insert_by_id (OtherEntry f) e fs (OtherEntry-symm e f o.0) h.0,
          insert_by_id-HasDistinctIds e fs o.1 h.1,
        )
]

pub sort_by_id-HasDistinctIds :
    (es : List QuarantineEntry) → HasDistinctIds es → HasDistinctIds (sort_by_id es)
unfolding sort_by_id
sort_by_id-HasDistinctIds [] h = tt
sort_by_id-HasDistinctIds (e ∷ es) h =
    insert_by_id-HasDistinctIds e (sort_by_id es) (All-sort_by_id (OtherEntry e) es h.0)
      (sort_by_id-HasDistinctIds es h.1)

lookup_entry-insert_by_id :
    (e : QuarantineEntry) (es : List QuarantineEntry) (i : ℕ)
    → All (OtherEntry e) es
    → lookup_entry (insert_by_id e es) i ≡ lookup_entry (e ∷ es) i
unfolding lookup_entry insert_by_id
lookup_entry-insert_by_id e [] i h = refl
lookup_entry-insert_by_id e (f ∷ fs) i h =
    ground (arith, lookup_entry-insert_by_id e fs i h.1, ==_iff e.id i, ==_iff f.id i)

pub lookup_entry-sort_by_id :
    (es : List QuarantineEntry) (i : ℕ)
    → HasDistinctIds es
    → lookup_entry (sort_by_id es) i ≡ lookup_entry es i
unfolding lookup_entry sort_by_id
lookup_entry-sort_by_id [] i h = refl
lookup_entry-sort_by_id (e ∷ es) i h = ground (
  arith,
  lookup_entry-insert_by_id e (sort_by_id es) i (All-sort_by_id (OtherEntry e) es h.0),
  lookup_entry-sort_by_id es i h.1,
)

abbrev pub option_as_purged : Option QuarantineEntry → Option QuarantineEntry
option_as_purged none = none
option_as_purged (some e) = some (as_purged e)

pub lookup_entry-map-as_purged :
    (es : List QuarantineEntry) (i : ℕ)
    → lookup_entry (map as_purged es) i ≡ option_as_purged (lookup_entry es i)
unfolding lookup_entry
lookup_entry-map-as_purged [] i = refl
lookup_entry-map-as_purged (e ∷ es) i = ground (arith, lookup_entry-map-as_purged es i)
