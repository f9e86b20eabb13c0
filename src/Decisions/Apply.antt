-- ===== src/Decisions/Apply.antt =====
-- What a decision does to a list of records.
use file_reaper.Prelude.{
  ◌≡◌, refl, inl, inr, List, [], ◌∷◌, map, keep_if, Bool-cases, if◌then◌else◌,
}
use file_reaper.Platform.{Platform}
use file_reaper.Aggregate.{Decision}
use file_reaper.Index.Packing.{FileRecord}
use file_reaper.Decisions.{DecisionSelector, matches, decided, apply_decision_to_records}

module _ (p : Platform) (selector : DecisionSelector) (decision : Decision) where
  -- A record under the decision, if it is selected.
  abbrev pub under_decision : FileRecord → FileRecord
  under_decision r = if matches p selector r then decided decision r else r

  -- Each selected record takes the decision, and no other record changes. The updated records are
  -- the selected ones, in their order, with the decision.
  pub apply_decision_to_records-map :
      (rs : List FileRecord)
      → apply_decision_to_records p selector decision rs
        ≡ (map under_decision rs, map (decided decision) (keep_if (matches p selector) rs))
  unfolding apply_decision_to_records keep_if
  apply_decision_to_records-map [] = refl
  apply_decision_to_records-map (r ∷ rs) = elim (Bool-cases (matches p selector r)) [
    | inl selected ↦ rw (selected, apply_decision_to_records-map rs) refl
    | inr other ↦ rw (other, apply_decision_to_records-map rs) refl
  ]
