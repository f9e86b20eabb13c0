-- ===== src/Quarantine/Reap/One.antt =====
-- `TransactionalReaper::reap_one`: the journal is written before the file moves.
use file_reaper.Prelude.{
  ◌≡◌, ◌++◌, ◌∷◌, [], ◌≢◌, Option, none, some, true, false, List, ◌⊎◌, arith, ap, ==_refl,
}
use file_reaper.Prelude.Text.{Text, text_eq, text_eq_iff}
use file_reaper.Platform.{Platform}
use file_reaper.Outcome.{ok, err, CoreError}
use file_reaper.Quarantine.{in_flight, quarantined, QuarantineEntry, reap, user}
use file_reaper.Quarantine.Ports.{QuarantineFs, QuarantineManifest, World}
use file_reaper.Quarantine.Gateway.{IsGateway, seen, Moves-ends, Moves-bytes, Snapshot, Moves-done}
use file_reaper.Quarantine.Rows.{Rows, IsJournal, is_writable, put_row, set_status}
use file_reaper.Quarantine.Reap.Moves.{AtSource, AtDestination}
use file_reaper.Quarantine.Reap.{
  ReapRequest, confirmation, at_status, event_of, outcome_of, ReapOutcome, reap_one,
  validate_request,
}

-- The row of a request that is journalled: in flight, or confirmed.
abbrev pub IsLive : Option QuarantineEntry → ReapRequest → Type 0
IsLive row q =
    (row ≡ some (at_status in_flight q).entry) ⊎ (row ≡ some (at_status quarantined q).entry)

-- The file stands at its source only, or at its destination only and the manifest knows of it, with
-- the bytes that it had.
abbrev pub Accounted : (Text → Text) → Snapshot → Rows → ReapRequest → Type 0
Accounted bytes v rows q =
    AtSource bytes v q ⊎ (AtDestination bytes v q × IsLive (rows q.entry.id) q)

module _ {F : QuarantineFs} {M : QuarantineManifest} (G : IsGateway F) (J : IsJournal M)
    (p : Platform) (roots : List Text) where
  -- A file that stands at its source, with nothing at its destination and no row for its identifier,
  -- is never lost by `reap_one`, whatever step fails: with the bytes that it had, it stands at its
  -- source only, or at its destination only and its row is in flight or `Quarantined`.
  pub reap_one-keeps_file :
      (q : ReapRequest) (w : World F M)
      → G.files w.fs q.entry.original_path ≡ true
      → G.files w.fs q.destination_path ≡ false
      → J.rows w.manifest q.entry.id ≡ none
      → let w' = (reap_one F M p roots q w).1 in
        Accounted (G.bytes w.fs) (seen G w'.fs) (J.rows w'.manifest) q
  unfolding reap_one validate_request put_row set_status is_writable
  reap_one-keeps_file q w src dst fresh =
      let e = (at_status in_flight q).entry in
      let s = M.insert_entry e w.manifest in
      let f =
        F.move_into_quarantine e.original_path q.destination_path q.expected_identity roots w.fs in
      let move = G.files-move e.original_path q.destination_path q.expected_identity roots w.fs in
      let c = confirmation e quarantined reap user in
      ground (
        arith,
        ap (λ rows. rows e.id) (J.rows-insert_entry e w.manifest),
        ap (λ rows. rows e.id) (J.rows-confirm_with_audit c s.1),
        Moves-ends e.original_path q.destination_path (seen G w.fs) (seen G f.1) f.0 move src dst,
        Moves-bytes e.original_path q.destination_path (seen G w.fs) (seen G f.1) f.0 move,
        ==_refl e.id,
      )

  -- When `reap_one` succeeds for an identifier without a row, the file has left its source (another
  -- path than the destination) and stands at the destination with its bytes, the row is the entry that
  -- the outcome returns, which is `Quarantined`, and the audit has one more event, by the user.
  pub reap_one-ok :
      (q : ReapRequest) (w : World F M) (out : ReapOutcome)
      → q.entry.original_path ≢ q.destination_path
      → J.rows w.manifest q.entry.id ≡ none
      → (reap_one F M p roots q w).0 ≡ ok out
      → let w' = (reap_one F M p roots q w).1 in
        (out ≡ outcome_of q)
        × (G.files w'.fs q.entry.original_path ≡ false)
        × (G.files w'.fs q.destination_path ≡ true)
        × (G.bytes w'.fs q.destination_path ≡ G.bytes w.fs q.entry.original_path)
        × (J.rows w'.manifest q.entry.id ≡ some out.entry)
        × (J.audit w'.manifest ≡ J.audit w.manifest ++ event_of q.entry reap user ∷ [])
  unfolding reap_one validate_request put_row set_status is_writable
  reap_one-ok q w out apart fresh done =
      let e = (at_status in_flight q).entry in
      let s = M.insert_entry e w.manifest in
      let c = confirmation e quarantined reap user in
      let f =
        F.move_into_quarantine e.original_path q.destination_path q.expected_identity roots w.fs in
      let move = G.files-move e.original_path q.destination_path q.expected_identity roots w.fs in
      let other : text_eq e.original_path q.destination_path ≡ false =
        ground (arith, apart, text_eq_iff e.original_path q.destination_path) in
      ground (
        arith,
        J.audit-insert_entry e w.manifest,
        J.audit-confirm_with_audit c s.1,
        ap (λ rows. rows e.id) (J.rows-insert_entry e w.manifest),
        ap (λ rows. rows e.id) (J.rows-confirm_with_audit c s.1),
        Moves-done e.original_path q.destination_path (seen G w.fs) (seen G f.1) f.0 move other,
        Moves-bytes e.original_path q.destination_path (seen G w.fs) (seen G f.1) f.0 move,
        ==_refl e.id,
      )

  -- When `reap_one` fails, the audit is as before.
  pub reap_one-err :
      (q : ReapRequest) (w : World F M) (e : CoreError)
      → (reap_one F M p roots q w).0 ≡ err e
      → J.audit (reap_one F M p roots q w).1.manifest ≡ J.audit w.manifest
  unfolding reap_one validate_request
  reap_one-err q w e failed =
      let s = M.insert_entry (at_status in_flight q).entry w.manifest in
      ground (
        arith,
        J.audit-insert_entry (at_status in_flight q).entry w.manifest,
        J.audit-confirm_with_audit
            (confirmation (at_status in_flight q).entry quarantined reap user) s.1,
      )
