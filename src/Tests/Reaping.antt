-- ===== src/Tests/Reaping.antt =====
-- Examples for the reaper.
use file_reaper.Prelude.{◌≡◌, ◌≢◌, refl, true, false, [], ◌∷◌, ◌++◌, All, arith}
use file_reaper.Prelude.Text.{text_eq}
use file_reaper.Platform.{windows}
use file_reaper.Outcome.{io}
use file_reaper.Quarantine.{reap, user}
use file_reaper.Quarantine.Ports.{World}
use file_reaper.Quarantine.Gateway.{are_apart, seen}
use file_reaper.Quarantine.Rows.{lookup_entry}
use file_reaper.Quarantine.Reap.{reap_one, reap_batch, validate_request, outcome_of, event_of}
use file_reaper.Quarantine.Reap.One.{Accounted, reap_one-keeps_file, reap_one-ok, reap_one-err}
use file_reaper.Quarantine.Reap.Journal.{batched}
use file_reaper.Quarantine.Reap.Batch.{reap_batch-keeps_files}
use file_reaper.Tests.Disk.{disk}
use file_reaper.Tests.Table.{table}
use file_reaper.Tests.Laws.{disk-IsGateway, table-IsJournal}
use file_reaper.Tests.Data.{source_a, source_b, surrogate_a, request_a, request_b, world}

-- Two files, and a confirmation that fails.
abbrev unconfirmed : World disk table
unconfirmed = world (source_a ∷ source_b ∷ []) [] [] (false ∷ true ∷ [])

-- Two files, and the second move fails.
abbrev half_moved : World disk table
half_moved = world (source_a ∷ source_b ∷ []) (false ∷ true ∷ []) [] []

abbrev sound : World disk table
sound = world (source_a ∷ source_b ∷ []) [] [] []

reap_batch-keeps_files_example :
    let w = (reap_batch disk table windows [] 7 (request_a ∷ request_b ∷ []) half_moved).1 in
    All
      (λ q.
        Accounted
          (λ path. path)
          (seen disk-IsGateway w.fs)
          (lookup_entry w.manifest.entries)
          (batched 7 q))
      (request_a ∷ request_b ∷ [])
unfolding disk-IsGateway table-IsJournal text_eq lookup_entry reap_one validate_request are_apart
reap_batch-keeps_files_example =
    reap_batch-keeps_files disk-IsGateway table-IsJournal [] windows 7 (request_a ∷ request_b ∷ [])
      half_moved (((refl, refl, refl, refl, refl), tt), (tt, tt)) ((refl, refl), ((refl, refl), tt))
      (refl, (refl, tt))

reap_one-keeps_file_example :
    let w = (reap_one disk table windows [] request_a unconfirmed).1 in
    Accounted (λ path. path) (seen disk-IsGateway w.fs) (lookup_entry w.manifest.entries) request_a
unfolding disk-IsGateway table-IsJournal text_eq lookup_entry reap_one validate_request
reap_one-keeps_file_example =
    reap_one-keeps_file disk-IsGateway table-IsJournal windows [] request_a unconfirmed refl refl
      refl

a_is_not_its_surrogate : source_a ≢ surrogate_a
a_is_not_its_surrogate h = ground (arith, h)

reap_one-ok_example :
    let w = (reap_one disk table windows [] request_a sound).1 in
    (outcome_of request_a ≡ outcome_of request_a)
    × (w.fs.files source_a ≡ false)
    × (w.fs.files surrogate_a ≡ true)
    × (w.fs.bytes surrogate_a ≡ source_a)
    × (lookup_entry w.manifest.entries 1 ≡ lookup_entry ((outcome_of request_a).entry ∷ []) 1)
    × (w.manifest.audit ≡ [] ++ event_of request_a.entry reap user ∷ [])
unfolding disk-IsGateway table-IsJournal text_eq lookup_entry reap_one validate_request
reap_one-ok_example =
    reap_one-ok disk-IsGateway table-IsJournal windows [] request_a sound (outcome_of request_a)
      a_is_not_its_surrogate refl refl

reap_one-err_example : (reap_one disk table windows [] request_a unconfirmed).1.manifest.audit ≡ []
unfolding disk-IsGateway table-IsJournal text_eq lookup_entry reap_one validate_request
reap_one-err_example =
    reap_one-err disk-IsGateway table-IsJournal windows [] request_a unconfirmed io refl
