-- ===== src/Quarantine/Reap/Batch.antt =====
-- `TransactionalReaper::reap_batch`: whatever fails, no file is lost.
use mathlib.Core.List.{map-map}
use file_reaper.Prelude.{
  ℕ, zero, suc, ◌≡◌, ap, refl, true, false, inl, inr, List, [], ◌∷◌, map, All, All-imp, All-imp₂,
  All-map, All-of_map, All-take, All-drop, All-take-drop, take, drop, ◌∙◌,
}
use file_reaper.Prelude.Text.{Text}
use file_reaper.Platform.{Platform}
use file_reaper.Outcome.{ok, Result-cases}
use file_reaper.Quarantine.Ports.{QuarantineFs, QuarantineManifest, World}
use file_reaper.Quarantine.Gateway.{Files, IsGateway, seen}
use file_reaper.Quarantine.Rows.{Rows, IsJournal, put_rows}
use file_reaper.Quarantine.Reap.{
  ReapRequest, settle, prepare, move_all, move_and_settle, journal_and_move, reap_batch,
}
use file_reaper.Quarantine.Reap.One.{IsLive, Accounted}
use file_reaper.Quarantine.Reap.Moves.{Apart, IsSeparate, AtSource, AtDestination, files-move_all}
use file_reaper.Quarantine.Reap.Journal.{
  batched, prepare-ok, IsFresh, put_rows-batch, IsWritten, Other, settle-IsLive,
}

Other-take-drop :
    (n : ℕ) (rs : List ReapRequest)
    → IsSeparate rs
    → All (λ q. All (Other q) (drop (suc n) rs)) (take n rs)
Other-take-drop zero rs h = tt
Other-take-drop (suc n) [] h = tt
Other-take-drop (suc n) (q ∷ rs) h = (
  All-drop (Other q) (suc n) rs (All-imp (Apart q) (Other q) (λ r a. a.0) rs h.0),
  Other-take-drop n rs h.1,
)

IsSeparate-map : (b : ℕ) (qs : List ReapRequest) → IsSeparate qs → IsSeparate (map (batched b) qs)
IsSeparate-map b [] h = tt
IsSeparate-map b (q ∷ qs) h =
    (All-map (Apart (batched b q)) (batched b) qs h.0, IsSeparate-map b qs h.1)

abbrev IsLiveIn : Rows → ReapRequest → Type 0
IsLiveIn rows q = IsLive (rows q.entry.id) q

-- The file stands at its source, and nothing at its destination.
abbrev pub IsWaiting : Files → ReapRequest → Type 0
IsWaiting files q = (files q.entry.original_path ≡ true) × (files q.destination_path ≡ false)

module _ {F : QuarantineFs} {M : QuarantineManifest} (G : IsGateway F) (J : IsJournal M)
    (roots : List Text) where
  move_and_settle-keeps_files :
      (bytes : Text → Text) (p : Platform) (rs : List ReapRequest) (w : World F M)
      → IsSeparate rs
      → All (AtSource bytes (seen G w.fs)) rs
      → All (IsLiveIn (J.rows w.manifest)) rs
      → let w' = (move_and_settle F M p roots rs w).1 in
        All (Accounted bytes (seen G w'.fs) (J.rows w'.manifest)) rs
  unfolding move_and_settle
  move_and_settle-keeps_files bytes p rs w apart src live =
      let r = move_all F roots rs w.fs in
      let n = r.0.0 in
      let t = settle M rs n r.0.1 w.manifest in
      let after = Accounted bytes (seen G r.1) (J.rows t.1) in
      let moves = files-move_all G roots bytes rs w.fs apart src in
      let settled =
        All-imp₂ (λ q. All (Other q) (drop (suc n) rs)) (IsLiveIn (J.rows w.manifest))
          (IsLiveIn (J.rows t.1)) (λ q. settle-IsLive J q rs n r.0.1 w.manifest) (take n rs)
          (Other-take-drop n rs apart) (All-take _ n rs live) in
      All-take-drop after n rs
        (All-imp₂ (AtDestination bytes (seen G r.1)) (IsLiveIn (J.rows t.1)) after
          (λ q at row. inr (at, row)) (take n rs) moves.0 settled)
        (All-imp (AtSource bytes (seen G r.1)) after (λ q at. inl at) (drop n rs) moves.1)

  journal_and_move-keeps_files :
      (bytes : Text → Text) (p : Platform) (b : ℕ) (qs : List ReapRequest) (w : World F M)
      → IsSeparate qs
      → All (AtSource bytes (seen G w.fs)) qs
      → All (IsFresh (J.rows w.manifest)) qs
      → let w' = (journal_and_move F M p roots (map (batched b) qs) w).1 in
        All (Accounted bytes (seen G w'.fs) (J.rows w'.manifest)) (map (batched b) qs)
  unfolding journal_and_move
  journal_and_move-keeps_files bytes p b qs w apart src fresh =
      let rs = map (batched b) qs in
      let m = M.insert_entries (map (λ q. q.entry) rs) w.manifest in
      let rows = put_rows (map (λ q. (batched b q).entry) qs) (J.rows w.manifest) in
      let same = map-map (λ (q : ReapRequest). q.entry) (batched b) qs in
      let written : ((u : Unit {0}) → m.0 ≡ ok u → J.rows m.1 ≡ rows) = λ u e.
        (rw e at (J.rows-insert_entries (map (λ q. q.entry) rs) w.manifest))
        ∙ ap (λ es. put_rows es (J.rows w.manifest)) same in
      let at = All-map (AtSource bytes (seen G w.fs)) (batched b) qs src in
      elim (Result-cases m.0) [
        | inr (_, e) ↦ rw e (All-imp (AtSource bytes (seen G w.fs)) _ (λ q h. inl h) rs at)
        | inl (u, e) ↦ rw e (
            move_and_settle-keeps_files bytes p rs (record w { manifest = m.1 })
              (IsSeparate-map b qs apart) at
              (All-map (IsLiveIn (J.rows m.1)) (batched b) qs (
                rw (written u e) (
                  All-imp (IsWritten b rows) (λ q. IsLiveIn rows (batched b q)) (λ q h. inl h) qs
                    (put_rows-batch b qs (J.rows w.manifest) apart fresh)))))
      ]

  -- A batch whose requests share no identifier, where no path of one request stands at or below a path
  -- of another, whose files stand at their sources with nothing at the destinations, and whose
  -- identifiers have no rows, loses no file, whatever step fails: each stands, with the bytes that it
  -- had, at its source only, or at its destination only and its row, with the batch's identifier, is
  -- in flight or `Quarantined`.
  pub reap_batch-keeps_files :
      (p : Platform) (b : ℕ) (qs : List ReapRequest) (w : World F M)
      → IsSeparate qs
      → All (IsWaiting (G.files w.fs)) qs
      → All (IsFresh (J.rows w.manifest)) qs
      → let w' = (reap_batch F M p roots b qs w).1 in
        All (λ q. Accounted (G.bytes w.fs) (seen G w'.fs) (J.rows w'.manifest) (batched b q)) qs
  unfolding reap_batch
  reap_batch-keeps_files p b qs w apart waiting fresh =
      let src =
        All-imp (IsWaiting (G.files w.fs)) (AtSource (G.bytes w.fs) (seen G w.fs))
          (λ q h. (h.0, h.1, refl)) qs waiting in
      elim (Result-cases (prepare p b qs)) [
        | inr (_, e) ↦
            rw e (All-imp (AtSource (G.bytes w.fs) (seen G w.fs)) _ (λ q at. inl at) qs src)
        | inl (rs, e) ↦
            rw (e, prepare-ok p b qs rs e)
              (All-of_map _ (batched b) qs
                (journal_and_move-keeps_files (G.bytes w.fs) p b qs w apart src fresh))
      ]
