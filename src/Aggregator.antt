-- ===== src/Aggregator.antt =====
-- core/app/src/aggregator.rs: contributions from the records of the index and from the hits of the
-- detectors. `HashMap` is a list of pairs in the order of insertion.
pub mod Live
use file_reaper.Prelude.{
  ℕ, ◌≡◌, Bool, true, false, not, ◌&&◌, ◌||◌, Option, none, some, List, [], ◌∷◌, ◌++◌, map, ◌==◌,
  if◌then◌else◌,
}
use file_reaper.Category.{CategoryId, uncategorized, eq_category, has_category}
use file_reaper.Aggregate.{
  Decision, CandidateContribution, contribution, FreeableSummary, summarize_unique,
}

-- What the aggregator reads of a `FileRecord` and of a `DetectorHit`.
pub record FileRecord : Type 0 where
  pub candidate_id : ℕ
  pub size : ℕ
  pub category : CategoryId
  pub decision : Decision

pub record DetectorHit : Type 0 where
  pub candidate_id : ℕ
  pub category : CategoryId

-- The closure of `Aggregator::from_primary_records`.
unfoldable pub primary : FileRecord → CandidateContribution
unfolding contribution
primary r = contribution r.candidate_id r.size r.decision (r.category ∷ [])

unfoldable pub primaries : List FileRecord → List CandidateContribution
unfolding primary eq_category
primaries [] = []
primaries (r ∷ rs) =
    if eq_category r.category uncategorized then primaries rs else primary r ∷ primaries rs

-- `Aggregator::from_primary_records`
unfoldable pub from_primary_records : List FileRecord → FreeableSummary
unfolding primaries summarize_unique
from_primary_records records = summarize_unique (primaries records)

-- `for cat in c.categories { if !existing.categories.contains(&cat) { push } }`
unfoldable pub merge_categories : List CategoryId → List CategoryId → List CategoryId
unfolding has_category
merge_categories existing [] = existing
merge_categories existing (c ∷ cs) =
    if has_category existing c
    then merge_categories existing cs
    else merge_categories (existing ++ c ∷ []) cs

-- `LiveTotals::upsert_contribution`
unfoldable pub upsert_contribution :
    CandidateContribution → List CandidateContribution → List CandidateContribution
unfolding merge_categories
upsert_contribution c [] = c ∷ []
upsert_contribution c (e ∷ es) =
    if e.candidate_id == c.candidate_id
    then record e {
      size = c.size;
      decision = c.decision;
      categories = merge_categories e.categories c.categories;
    }
      ∷ es
    else e ∷ upsert_contribution c es

-- `LiveTotals::ingest_primary`
unfoldable pub ingest_primary :
    List FileRecord → List CandidateContribution → List CandidateContribution
unfolding eq_category upsert_contribution primary
ingest_primary [] live = live
ingest_primary (r ∷ rs) live =
    if eq_category r.category uncategorized
    then ingest_primary rs live
    else ingest_primary rs (upsert_contribution (primary r) live)

-- `index_records`: the last record of a candidate counts.
unfoldable pub find_record : List FileRecord → ℕ → Option FileRecord
find_record [] id = none
find_record (r ∷ rs) id = elim (find_record rs id) [
  | some later ↦ some later
  | none ↦ if r.candidate_id == id then some r else none
]

-- `acc.entry(id)` and what follows.
unfoldable pub add_hit :
    CategoryId → FileRecord → List CandidateContribution → List CandidateContribution
unfolding merge_categories
add_hit category r [] =
    record {
      candidate_id = r.candidate_id;
      size = r.size;
      decision = r.decision;
      categories = category ∷ [];
    }
    ∷ []
add_hit category r (e ∷ es) =
    if e.candidate_id == r.candidate_id
    then record e {
      size = r.size;
      decision = r.decision;
      categories = merge_categories e.categories (category ∷ []);
    }
      ∷ es
    else e ∷ add_hit category r es

-- The loop of `contributions_from_hits`.
unfoldable pub collect_hits :
    List FileRecord → List DetectorHit → List CandidateContribution → List CandidateContribution
unfolding find_record add_hit eq_category
collect_hits records [] acc = acc
collect_hits records (hit ∷ hits) acc = elim (find_record records hit.candidate_id) [
  | none ↦ collect_hits records hits acc
  | some r ↦
      if eq_category hit.category uncategorized
      then collect_hits records hits acc
      else collect_hits records hits (add_hit hit.category r acc)
]

-- `contributions_from_hits`
unfoldable pub contributions_from_hits :
    List DetectorHit → List FileRecord → List CandidateContribution
unfolding collect_hits contribution
contributions_from_hits hits records =
    map (λ c. contribution (CandidateContribution.candidate_id c) c.size c.decision c.categories)
      (collect_hits records hits [])

-- `Aggregator::from_hits`
unfoldable pub from_hits : List DetectorHit → List FileRecord → FreeableSummary
unfolding contributions_from_hits summarize_unique
from_hits hits records = summarize_unique (contributions_from_hits hits records)

unfoldable pub upsert_all :
    List CandidateContribution → List CandidateContribution → List CandidateContribution
unfolding upsert_contribution
upsert_all [] live = live
upsert_all (c ∷ cs) live = upsert_all cs (upsert_contribution c live)

-- `LiveTotals::ingest_hits`
unfoldable pub ingest_hits :
    List DetectorHit → List FileRecord → List CandidateContribution → List CandidateContribution
unfolding contributions_from_hits upsert_all
ingest_hits hits records live = upsert_all (contributions_from_hits hits records) live

-- `LiveTotals::set_decision`
unfoldable pub set_decision : ℕ → Decision → List CandidateContribution → List CandidateContribution
set_decision id decision [] = []
set_decision id decision (e ∷ es) =
    if e.candidate_id == id
    then record e { decision = decision } ∷ es
    else e ∷ set_decision id decision es
