-- ===== src/Tests/Table.antt =====
-- A manifest in memory. The script says which of the next transactions fail.
use mathlib.Core.Path.{fun_ext}
use mathlib.Core.List.{append-nil}
use file_reaper.Prelude.{
  ℕ, ◌≡◌, ◌==◌, ap, refl, Bool, List, [], ◌∷◌, ◌++◌, map, All, arith, ==_iff, if◌then◌else◌,
  Bool-cases, inl, inr,
}
use file_reaper.Outcome.{io, ok, err, Exec}
use file_reaper.Quarantine.{QuarantineEntry, QuarantineStatus, DestructiveAuditEvent}
use file_reaper.Quarantine.Ports.{QuarantineManifest, Confirmation}
use file_reaper.Quarantine.Rows.{
  Rows, Commits, is_writable, put_row, put_rows, set_status, confirm_rows, drop_row, lookup_entry,
  OtherEntry, HasDistinctIds,
}
use file_reaper.Tests.Disk.{fails, later}

pub record Table : Type 0 where
  pub entries : List QuarantineEntry
  pub audit : List DestructiveAuditEvent
  pub script : List Bool

-- A transaction that fails by the script.
abbrev pub commit :
    (List QuarantineEntry → List QuarantineEntry)
    → List DestructiveAuditEvent
    → Exec Table (Unit {0})
commit f events s =
    if fails s.script
    then (err io, record { entries = s.entries; audit = s.audit; script = later s.script })
    else (
      ok tt,
      record { entries = f s.entries; audit = s.audit ++ events; script = later s.script },
    )

abbrev pub put : QuarantineEntry → List QuarantineEntry → List QuarantineEntry
unfolding is_writable lookup_entry
put e es = if is_writable (lookup_entry es e.id) then e ∷ es else es

abbrev pub put_all : List QuarantineEntry → List QuarantineEntry → List QuarantineEntry
put_all [] es = es
put_all (new ∷ news) es = put_all news (put new es)

abbrev pub mark : ℕ → QuarantineStatus → List QuarantineEntry → List QuarantineEntry
mark id st [] = []
mark id st (e ∷ es) = (if id == e.id then record e { status = st } else e) ∷ mark id st es

abbrev pub mark_all : List Confirmation → List QuarantineEntry → List QuarantineEntry
mark_all [] es = es
mark_all (c ∷ cs) es = mark_all cs (mark c.entry_id c.status es)

abbrev pub without : ℕ → List QuarantineEntry → List QuarantineEntry
without id [] = []
without id (e ∷ es) = let rest = without id es in if id == e.id then rest else e ∷ rest

-- The entries that count: the first of each identifier.
abbrev pub listing : List QuarantineEntry → List QuarantineEntry
listing [] = []
listing (e ∷ es) = e ∷ without e.id (listing es)

abbrev pub table : QuarantineManifest
table = record {
  State = Table;
  insert_entry = λ e. commit (put e) [];
  insert_entries = λ es. commit (put_all es) [];
  get_entry = λ id s. (ok (lookup_entry s.entries id), s);
  list_entries = λ s. (ok (listing s.entries), s);
  remove_entry = λ id. commit (without id) [];
  confirm_with_audit = λ c. commit (mark c.entry_id c.status) (c.event ∷ []);
  confirm_batch_with_audit = λ cs. commit (mark_all cs) (map (λ c. c.event) cs);
}

pub lookup_entry-put :
    (e : QuarantineEntry) (es : List QuarantineEntry)
    → lookup_entry (put e es) ≡ put_row e (lookup_entry es)
unfolding lookup_entry put_row is_writable
lookup_entry-put e es = fun_ext (λ i. elim (Bool-cases (e.id == i)) [
  | inl this ↦ ground (arith, this, ap (lookup_entry es) ((==_iff e.id i).0 this))
  | inr other ↦ ground (arith, other)
])

pub lookup_entry-mark :
    (id : ℕ) (st : QuarantineStatus) (es : List QuarantineEntry) (i : ℕ)
    → lookup_entry (mark id st es) i ≡ set_status id st (lookup_entry es) i
unfolding lookup_entry set_status
lookup_entry-mark id st [] i = ground arith
lookup_entry-mark id st (e ∷ es) i = ground (arith, lookup_entry-mark id st es i)

pub lookup_entry-without :
    (id : ℕ) (es : List QuarantineEntry) (i : ℕ)
    → lookup_entry (without id es) i ≡ drop_row id (lookup_entry es) i
unfolding lookup_entry drop_row
lookup_entry-without id [] i = ground arith
lookup_entry-without id (e ∷ es) i = ground (arith, lookup_entry-without id es i)

pub lookup_entry-listing :
    (es : List QuarantineEntry) (i : ℕ) → lookup_entry es i ≡ lookup_entry (listing es) i
unfolding lookup_entry drop_row
lookup_entry-listing [] i = refl
lookup_entry-listing (e ∷ es) i =
    ground (arith, lookup_entry-without e.id (listing es) i, lookup_entry-listing es i)

pub lookup_entry-put_all :
    (news es : List QuarantineEntry)
    → lookup_entry (put_all news es) ≡ put_rows news (lookup_entry es)
unfolding put_rows
lookup_entry-put_all [] es = refl
lookup_entry-put_all (new ∷ news) es =
    rw (lookup_entry-put_all news (put new es), lookup_entry-put new es) refl

pub lookup_entry-mark_all :
    (cs : List Confirmation) (es : List QuarantineEntry)
    → lookup_entry (mark_all cs es) ≡ confirm_rows cs (lookup_entry es)
unfolding confirm_rows
lookup_entry-mark_all [] es = refl
lookup_entry-mark_all (c ∷ cs) es =
    rw
      (
        lookup_entry-mark_all cs (mark c.entry_id c.status es),
        fun_ext (lookup_entry-mark c.entry_id c.status es),
      )
      refl

OtherEntry-without :
    (e : QuarantineEntry) (es : List QuarantineEntry) → All (OtherEntry e) (without e.id es)
OtherEntry-without e [] = tt
OtherEntry-without e (f ∷ es) = elim (Bool-cases (e.id == f.id)) [
  | inl same ↦ rw same (OtherEntry-without e es)
  | inr other ↦ rw other (other, OtherEntry-without e es)
]

All-without :
    (P : QuarantineEntry → Type 0) (id : ℕ) (es : List QuarantineEntry)
    → All P es
    → All P (without id es)
All-without P id [] h = tt
All-without P id (e ∷ es) h = elim (Bool-cases (id == e.id)) [
  | inl same ↦ rw same (All-without P id es h.1)
  | inr other ↦ rw other (h.0, All-without P id es h.1)
]

without-HasDistinctIds :
    (id : ℕ) (es : List QuarantineEntry) → HasDistinctIds es → HasDistinctIds (without id es)
without-HasDistinctIds id [] h = tt
without-HasDistinctIds id (e ∷ es) h = elim (Bool-cases (id == e.id)) [
  | inl same ↦ rw same (without-HasDistinctIds id es h.1)
  | inr other ↦ rw other (All-without (OtherEntry e) id es h.0, without-HasDistinctIds id es h.1)
]

pub listing-HasDistinctIds : (es : List QuarantineEntry) → HasDistinctIds (listing es)
listing-HasDistinctIds [] = tt
listing-HasDistinctIds (e ∷ es) = (
  OtherEntry-without e (listing es),
  without-HasDistinctIds e.id (listing es) (listing-HasDistinctIds es),
)

-- What a transaction leaves of the rows and of the audit.
pub rows-commit :
    (f : List QuarantineEntry → List QuarantineEntry) (events : List DestructiveAuditEvent)
    (s : Table) (target : Rows)
    → lookup_entry (f s.entries) ≡ target
    → let r = commit f events s in
      Commits r.0 (lookup_entry s.entries) target (lookup_entry r.1.entries)
rows-commit f events s target h = ground (arith, h)

pub audit-commit :
    (f : List QuarantineEntry → List QuarantineEntry) (events : List DestructiveAuditEvent)
    (s : Table)
    → let r = commit f events s in Commits r.0 s.audit (s.audit ++ events) r.1.audit
audit-commit f events s = ground arith

pub audit-commit_of_none :
    (f : List QuarantineEntry → List QuarantineEntry) (s : Table)
    → (commit f [] s).1.audit ≡ s.audit
audit-commit_of_none f s = ground (arith, append-nil s.audit)
