-- ===== src/Tests/Deciding.antt =====
-- Examples for the decisions, over the index in memory with two files.
use file_reaper.Prelude.{◌≡◌, refl, [], ◌∷◌, map, keep_if}
use file_reaper.Prelude.Text.{codes}
use file_reaper.Platform.{windows}
use file_reaper.Outcome.{ok}
use file_reaper.Aggregate.{marked}
use file_reaper.Index.Memory.{InMemoryIndexInner, empty, insert_batch, get_all}
use file_reaper.Decisions.{
  DecisionSelector, is_empty, matches, decided, apply_decision_to_records, apply_decision_hot,
}
use file_reaper.Decisions.Apply.{under_decision, apply_decision_to_records-map}
use file_reaper.Decisions.InMemory.{in_memory, apply_decision_hot-get_all}
use file_reaper.Tests.Indexing.{paths, at, at-IsStorable, two_files, parent_of, name_of}

abbrev selector : DecisionSelector
selector = record { candidate_ids = 3 ∷ []; paths = codes "c:/A/b" ∷ [] }

apply_decision_to_records-map_example :
    apply_decision_to_records windows selector marked two_files ≡ (
      map (under_decision windows selector marked) two_files,
      map (decided marked) (keep_if (matches windows selector) two_files),
    )
apply_decision_to_records-map_example =
    apply_decision_to_records-map windows selector marked two_files

selects_one :
    (apply_decision_to_records windows selector marked two_files).1
    ≡ decided marked (at (codes "C:\\a\\B") 1) ∷ []
unfolding apply_decision_to_records
selects_one = refl

abbrev index : InMemoryIndexInner
index = insert_batch paths two_files empty

apply_decision_hot-get_all_example :
    let t = apply_decision_hot (in_memory paths) windows selector marked index in
    let u = apply_decision_to_records windows selector marked (get_all paths index) in
    (t.0 ≡ ok u.1) × (get_all paths t.1 ≡ u.0)
unfolding is_empty get_all insert_batch parent_of name_of
apply_decision_hot-get_all_example =
    apply_decision_hot-get_all windows paths selector marked index refl
      (at-IsStorable (codes "C:\\a\\B") 1, (at-IsStorable (codes "C:\\a\\c") 2, tt))
