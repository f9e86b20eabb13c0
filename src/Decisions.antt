-- ===== src/Decisions.antt =====
-- core/app/src/decisions.rs: a decision on files, over the records of the hot index.
pub mod Apply
pub mod InMemory
use file_reaper.Prelude.{
  ℕ, ◌≡◌, Bool, true, false, not, ◌&&◌, ◌||◌, Option, none, some, List, [], ◌∷◌, ◌++◌, map, ◌==◌,
  contains, if◌then◌else◌,
}
use file_reaper.Prelude.Text.{Text, text_eq}
use file_reaper.Platform.{Platform}
use file_reaper.PathKey.{normalize_separators, to_ascii_lowercase}
use file_reaper.Outcome.{invalid_argument, Result, ok, err, Exec, pure, raise, ◌>>=◌, ◌>>◌}
use file_reaper.Index.Packing.{FileRecord}
use file_reaper.Aggregate.{Decision, undecided, keep, marked}

pub record DecisionSelector : Type 0 where
  pub candidate_ids : List ℕ
  pub paths : List Text

-- `DecisionSelector::is_empty`
unfoldable pub is_empty : DecisionSelector → Bool
is_empty self = elim self.candidate_ids [
  | id ∷ ids ↦ false
  | [] ↦ elim self.paths [ [] ↦ true | path ∷ paths ↦ false ]
]

unfoldable pub names_path : Platform → Text → List Text → Bool
unfolding text_eq normalize_separators to_ascii_lowercase
names_path p path [] = false
names_path p path (q ∷ qs) =
    text_eq (to_ascii_lowercase path) (to_ascii_lowercase (normalize_separators p q))
    || names_path p path qs

-- `DecisionSelector::matches`
unfoldable pub matches : Platform → DecisionSelector → FileRecord → Bool
unfolding contains names_path normalize_separators
matches p self r =
    if contains self.candidate_ids r.candidate_id
    then true
    else names_path p (normalize_separators p r.path) self.paths

abbrev pub decided : Decision → FileRecord → FileRecord
decided decision r = record r { decision = decision }

-- `apply_decision_to_records`: the records, and the updated ones.
unfoldable pub apply_decision_to_records :
    Platform → DecisionSelector → Decision → List FileRecord → List FileRecord × List FileRecord
unfolding matches
apply_decision_to_records p selector decision [] = ([], [])
apply_decision_to_records p selector decision (r ∷ rs) =
    let rest = apply_decision_to_records p selector decision rs in
    if matches p selector r
    then (decided decision r ∷ rest.0, decided decision r ∷ rest.1)
    else (r ∷ rest.0, rest.1)

-- The operation of the `HotIndex` of core/app/src/ports.rs that the decisions use. Its closure takes
-- a record and what it has captured, and says whether to go on.
pub record HotIndex : Type 1 where
  pub State : Type 0
  pub for_each_mut :
      (FileRecord → List FileRecord → (FileRecord × List FileRecord) × Bool)
      → List FileRecord
      → Exec State (List FileRecord)

-- The closure of `apply_decision_hot`.
unfoldable pub decide_one :
    Platform
    → DecisionSelector
    → Decision
    → FileRecord
    → List FileRecord
    → (FileRecord × List FileRecord) × Bool
unfolding matches
decide_one p selector decision r updated =
    if matches p selector r
    then ((decided decision r, updated ++ decided decision r ∷ []), true)
    else ((r, updated), true)

module _ (I : HotIndex) (p : Platform) where
  -- `apply_decision_hot`: the updated records.
  unfoldable pub apply_decision_hot : DecisionSelector → Decision → Exec I.State (List FileRecord)
  unfolding is_empty decide_one
  apply_decision_hot selector decision =
      if is_empty selector
      then raise invalid_argument
      else I.for_each_mut (decide_one p selector decision) []

  unfoldable pub persist_updated :
      (List FileRecord → Exec I.State (Unit {0})) → List FileRecord → Exec I.State (List FileRecord)
  persist_updated persist [] = pure []
  persist_updated persist (r ∷ rs) = do persist (r ∷ rs); pure (r ∷ rs)

  -- `apply_decision_hot_and_persist`
  unfoldable pub apply_decision_hot_and_persist :
      (List FileRecord → Exec I.State (Unit {0}))
      → DecisionSelector
      → Decision
      → Exec I.State (List FileRecord)
  unfolding apply_decision_hot persist_updated
  apply_decision_hot_and_persist persist selector decision = do
    updated ← apply_decision_hot selector decision
    persist_updated persist updated

  -- `keep_hot`, `mark_hot` and `unkeep_hot`
  unfoldable pub keep_hot : DecisionSelector → Exec I.State (List FileRecord)
  unfolding apply_decision_hot
  keep_hot selector = apply_decision_hot selector keep

  unfoldable pub mark_hot : DecisionSelector → Bool → Exec I.State (List FileRecord)
  unfolding apply_decision_hot
  mark_hot selector is_marked =
      apply_decision_hot selector (if is_marked then marked else undecided)

  unfoldable pub unkeep_hot : DecisionSelector → Exec I.State (List FileRecord)
  unfolding apply_decision_hot
  unkeep_hot selector = apply_decision_hot selector undecided
