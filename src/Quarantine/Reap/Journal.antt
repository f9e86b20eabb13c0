-- ===== src/Quarantine/Reap/Journal.antt =====
-- What `reap_batch` writes to the manifest: the rows of a batch before and after the moves.
use file_reaper.Prelude.{
  ℕ, suc, ◌≡◌, ◌==◌, ap, refl, inl, inr, Option, none, some, false, List, [], ◌∷◌, map, All,
  All-imp₂, take, drop, arith, ==_refl,
}
use file_reaper.Platform.{Platform}
use file_reaper.Outcome.{CoreError, ok, Result-cases}
use file_reaper.Quarantine.{in_flight, quarantined, reap, user}
use file_reaper.Quarantine.Ports.{QuarantineManifest}
use file_reaper.Quarantine.Rows.{
  Rows, IsJournal, put_row, put_rows, is_writable, set_status, confirm_rows, drop_row,
}
use file_reaper.Quarantine.Reap.{
  ReapRequest, confirmation, confirm_reaped, remove_all, settle, prepare,
}
use file_reaper.Quarantine.Reap.One.{IsLive}
use file_reaper.Quarantine.Reap.Moves.{Apart, IsSeparate}

-- The request as the first loop leaves it.
abbrev pub batched : ℕ → ReapRequest → ReapRequest
batched b q = record q { entry = record q.entry { batch_id = some b; status = in_flight } }

pub prepare-ok :
    (p : Platform) (b : ℕ) (qs rs : List ReapRequest)
    → prepare p b qs ≡ ok rs
    → rs ≡ map (batched b) qs
unfolding prepare
prepare-ok p b [] rs h = ground arith
prepare-ok p b (q ∷ qs) rs h = elim (Result-cases (prepare p b qs)) [
  | inl (ready, e) ↦ ground (arith, e, prepare-ok p b qs ready e)
  | inr (_, e) ↦ ground (arith, e)
]

put_rows-put_row_of_Apart :
    (b : ℕ) (q : ReapRequest) (qs : List ReapRequest) (rows : Rows)
    → All (Apart q) qs
    → put_rows (map (λ r. (batched b r).entry) qs) rows q.entry.id ≡ rows q.entry.id
unfolding put_rows put_row
put_rows-put_row_of_Apart b q [] rows h = refl
put_rows-put_row_of_Apart b q (r ∷ qs) rows h =
    let next = put_row (batched b r).entry rows in
    ground (arith, put_rows-put_row_of_Apart b q qs next h.1)

abbrev pub IsFresh : Rows → ReapRequest → Type 0
IsFresh rows q = rows q.entry.id ≡ none

abbrev pub IsWritten : ℕ → Rows → ReapRequest → Type 0
IsWritten b rows q = rows q.entry.id ≡ some (batched b q).entry

IsFresh-put_row :
    (b : ℕ) (rows : Rows) (q r : ReapRequest)
    → Apart q r
    → IsFresh rows r
    → IsFresh (put_row (batched b q).entry rows) r
unfolding put_row
IsFresh-put_row b rows q r apart h = ground arith

-- `insert_entries` writes the row of each request of the batch.
pub put_rows-batch :
    (b : ℕ) (qs : List ReapRequest) (rows : Rows)
    → IsSeparate qs
    → All (IsFresh rows) qs
    → All (IsWritten b (put_rows (map (λ r. (batched b r).entry) qs) rows)) qs
unfolding put_rows put_row is_writable
put_rows-batch b [] rows apart h = tt
put_rows-batch b (q ∷ qs) rows apart h =
    let next = put_row (batched b q).entry rows in
    (
      ground (arith, put_rows-put_row_of_Apart b q qs next apart.0, ==_refl q.entry.id),
      put_rows-batch b qs next apart.1 (
          All-imp₂ (Apart q) (IsFresh rows) (IsFresh next) (λ r. IsFresh-put_row b rows q r) qs
            apart.0 h.1),
    )

-- A confirmation keeps every row that is live.
pub confirm_rows-IsLive :
    (q : ReapRequest) (rs : List ReapRequest) (rows : Rows)
    → IsLive (rows q.entry.id) q
    → IsLive
        (confirm_rows (map (λ r. confirmation r.entry quarantined reap user) rs) rows q.entry.id)
        q
unfolding confirm_rows set_status
confirm_rows-IsLive q [] rows h = h
confirm_rows-IsLive q (r ∷ rs) rows h =
    confirm_rows-IsLive q rs (set_status r.entry.id quarantined rows) (ground arith)

abbrev pub Other : ReapRequest → ReapRequest → Type 0
Other q r = (r.entry.id == q.entry.id) ≡ false

module _ {M : QuarantineManifest} (J : IsJournal M) where
  confirm_reaped-IsLive :
      (q : ReapRequest) (rs : List ReapRequest) (s : M.State)
      → IsLive (J.rows s q.entry.id) q
      → IsLive (J.rows (confirm_reaped M rs s).1 q.entry.id) q
  unfolding confirm_reaped
  confirm_reaped-IsLive q [] s h = h
  confirm_reaped-IsLive q (r ∷ rs) s h =
      let cs = map (λ t. confirmation t.entry quarantined reap user) (r ∷ rs) in
      ground (
        arith,
        ap (λ rows. rows q.entry.id) (J.rows-confirm_batch cs s),
        confirm_rows-IsLive q (r ∷ rs) (J.rows s) h,
      )

  remove_all-IsLive :
      (q : ReapRequest) (rs : List ReapRequest) (s : M.State)
      → All (Other q) rs
      → IsLive (J.rows s q.entry.id) q
      → IsLive (J.rows (remove_all M rs s).1 q.entry.id) q
  unfolding remove_all drop_row
  remove_all-IsLive q [] s other h = h
  remove_all-IsLive q (r ∷ rs) s other h =
      let t = M.remove_entry r.entry.id s in
      ground (
        arith,
        ap (λ rows. rows q.entry.id) (J.rows-remove_entry r.entry.id s),
        remove_all-IsLive q rs t.1 other.1,
      )

  -- A live row stays live unless its own request stands behind the one that failed.
  pub settle-IsLive :
      (q : ReapRequest) (rs : List ReapRequest) (moved : ℕ) (e : Option CoreError) (s : M.State)
      → All (Other q) (drop (suc moved) rs)
      → IsLive (J.rows s q.entry.id) q
      → IsLive (J.rows (settle M rs moved e s).1 q.entry.id) q
  unfolding settle
  settle-IsLive q rs moved none s other h =
      ground (arith, confirm_reaped-IsLive q (take moved rs) s h)
  settle-IsLive q rs moved (some e) s other h =
      let t = confirm_reaped M (take moved rs) s in
      ground (
        arith,
        confirm_reaped-IsLive q (take moved rs) s h,
        remove_all-IsLive q (drop (suc moved) rs) t.1 other,
      )
