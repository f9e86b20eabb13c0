-- ===== src/Quarantine/Rows.antt =====
-- What can be seen of the manifest: the row of each entry, and the audit. The `QUARANTINE_ENTRY_UPSERT_SQL` of core/infra/index-sqlite/src/lib.rs leaves
-- a row alone that is no longer in flight.
use file_reaper.Prelude.{
  All, ℕ, ◌≡◌, Bool, true, false, Option, none, some, List, [], ◌∷◌, ◌++◌, ◌&&◌, ◌==◌, map,
  if◌then◌else◌,
}
use file_reaper.Outcome.{Result, ok, is_ok}
use file_reaper.Quarantine.{QuarantineEntry, QuarantineStatus, is_in_flight, DestructiveAuditEvent}
use file_reaper.Quarantine.Ports.{QuarantineManifest, Confirmation}

abbrev pub Rows : Type 0
Rows = ℕ → Option QuarantineEntry

-- The row of an identifier may be written while there is none, or while it is in flight.
unfoldable pub is_writable : Option QuarantineEntry → Bool
unfolding is_in_flight
is_writable none = true
is_writable (some e) = is_in_flight e.status

unfoldable pub put_row : QuarantineEntry → Rows → Rows
unfolding is_writable
put_row e rows i = if e.id == i && is_writable (rows i) then some e else rows i

unfoldable pub put_rows : List QuarantineEntry → Rows → Rows
unfolding put_row
put_rows [] rows = rows
put_rows (e ∷ es) rows = put_rows es (put_row e rows)

abbrev with_status : QuarantineStatus → Option QuarantineEntry → Option QuarantineEntry
with_status st none = none
with_status st (some e) = some (record e { status = st })

unfoldable pub set_status : ℕ → QuarantineStatus → Rows → Rows
set_status id st rows i = if id == i then with_status st (rows i) else rows i

unfoldable pub confirm_rows : List Confirmation → Rows → Rows
unfolding set_status
confirm_rows [] rows = rows
confirm_rows (c ∷ cs) rows = confirm_rows cs (set_status c.entry_id c.status rows)

unfoldable pub drop_row : ℕ → Rows → Rows
drop_row id rows i = if id == i then none else rows i

unfoldable pub lookup_entry : List QuarantineEntry → Rows
lookup_entry [] i = none
lookup_entry (e ∷ es) i = if e.id == i then some e else lookup_entry es i

abbrev pub OtherEntry : QuarantineEntry → QuarantineEntry → Type 0
OtherEntry e f = (e.id == f.id) ≡ false

abbrev pub HasDistinctIds : List QuarantineEntry → Type 0
HasDistinctIds [] = Unit
HasDistinctIds (e ∷ es) = All (OtherEntry e) es × HasDistinctIds es

-- A list of all rows, each once.
abbrev pub Lists : List QuarantineEntry → Rows → Type 0
Lists es rows = (rows ≡ lookup_entry es) × HasDistinctIds es

-- An operation that commits wholly or not at all.
abbrev pub Commits {ℓ} : {V : Type ℓ} {A : Type 0} → Result A → V → V → V → Type ℓ
Commits r before target after = after ≡ (if is_ok r then target else before)

-- What the use cases rely on of a manifest. `insert_entries`, `confirm_with_audit` and
-- `confirm_batch_with_audit` are one transaction each.
pub record IsJournal (M : QuarantineManifest) : Type 0 where
  pub rows : M.State → Rows
  pub audit : M.State → List DestructiveAuditEvent
  pub rows-insert_entry :
      (e : QuarantineEntry) (s : M.State)
      → let r = M.insert_entry e s in Commits r.0 (rows s) (put_row e (rows s)) (rows r.1)
  pub audit-insert_entry :
      (e : QuarantineEntry) (s : M.State) → audit (M.insert_entry e s).1 ≡ audit s
  pub rows-insert_entries :
      (es : List QuarantineEntry) (s : M.State)
      → let r = M.insert_entries es s in Commits r.0 (rows s) (put_rows es (rows s)) (rows r.1)
  pub audit-insert_entries :
      (es : List QuarantineEntry) (s : M.State) → audit (M.insert_entries es s).1 ≡ audit s
  pub rows-remove_entry :
      (id : ℕ) (s : M.State)
      → let r = M.remove_entry id s in Commits r.0 (rows s) (drop_row id (rows s)) (rows r.1)
  pub audit-remove_entry : (id : ℕ) (s : M.State) → audit (M.remove_entry id s).1 ≡ audit s
  pub rows-confirm_with_audit :
      (c : Confirmation) (s : M.State)
      → let r = M.confirm_with_audit c s in
        Commits r.0 (rows s) (set_status c.entry_id c.status (rows s)) (rows r.1)
  pub audit-confirm_with_audit :
      (c : Confirmation) (s : M.State)
      → let r = M.confirm_with_audit c s in
        Commits r.0 (audit s) (audit s ++ c.event ∷ []) (audit r.1)
  pub rows-confirm_batch :
      (cs : List Confirmation) (s : M.State)
      → let r = M.confirm_batch_with_audit cs s in
        Commits r.0 (rows s) (confirm_rows cs (rows s)) (rows r.1)
  pub audit-confirm_batch :
      (cs : List Confirmation) (s : M.State)
      → let r = M.confirm_batch_with_audit cs s in
        Commits r.0 (audit s) (audit s ++ map (λ c. c.event) cs) (audit r.1)
  -- The reading operations change nothing.
  pub get_entry-reads :
      (id : ℕ) (s : M.State)
      → (rows (M.get_entry id s).1 ≡ rows s) × (audit (M.get_entry id s).1 ≡ audit s)
  pub get_entry-rows :
      (id : ℕ) (s : M.State) (o : Option QuarantineEntry)
      → (M.get_entry id s).0 ≡ ok o
      → o ≡ rows s id
  pub list_entries-reads :
      (s : M.State) → (rows (M.list_entries s).1 ≡ rows s) × (audit (M.list_entries s).1 ≡ audit s)
  pub list_entries-rows :
      (s : M.State) (es : List QuarantineEntry) → (M.list_entries s).0 ≡ ok es → Lists es (rows s)
