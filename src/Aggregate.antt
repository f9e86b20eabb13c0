-- ===== src/Aggregate.antt =====
-- core/domain/src/aggregate.rs: what can be freed, over all files and by category. The bytes are
-- `u64`: `saturating_add` saturates, and `sum` wraps around (without overflow checks).
pub mod Bytes
pub mod Unique
pub mod Honest
use file_reaper.Prelude.{
  ℕ, zero, suc, ◌+◌, ◌%◌, ◌^◌, ◌≡◌, Bool, true, false, not, ◌&&◌, ◌||◌, Option, none, some, List,
  [], ◌∷◌, ◌++◌, leb, ◌==◌, contains, saturating_add, if◌then◌else◌,
}
use file_reaper.Category.{CategoryId, uncategorized, mvp_index, eq_category, has_category}

pub data Decision : Type 0 where
  undecided keep marked : Decision

-- `self.decision == Decision::Keep`
unfoldable pub is_keep : Decision → Bool
is_keep keep = true
is_keep _ = false

pub record CategoryRollup : Type 0 where
  pub bytes : ℕ
  pub files : ℕ

abbrev pub no_rollup : CategoryRollup
no_rollup = record { bytes = 0; files = 0 }

-- `CategoryRollup::add`
unfoldable pub add : CategoryRollup → ℕ → CategoryRollup
unfolding saturating_add
add self size = record {
  bytes = saturating_add self.bytes size;
  files = saturating_add self.files 1;
}

pub record FreeableSummary : Type 0 where
  pub unique_bytes : ℕ
  pub unique_files : ℕ
  pub category_sum_bytes : ℕ
  -- in the order of `CategoryId::ALL`
  pub by_category : List CategoryRollup

abbrev pub no_rollups : ℕ → List CategoryRollup
no_rollups zero = []
no_rollups (suc n) = no_rollup ∷ no_rollups n

-- `FreeableSummary::default`
abbrev pub no_summary : FreeableSummary
no_summary = record {
  unique_bytes = 0;
  unique_files = 0;
  category_sum_bytes = 0;
  by_category = no_rollups 12;
}

-- `FreeableSummary::is_honest`
unfoldable pub is_honest : FreeableSummary → Bool
is_honest self = leb self.unique_bytes self.category_sum_bytes

pub record CandidateContribution : Type 0 where
  pub candidate_id : ℕ
  pub size : ℕ
  pub decision : Decision
  pub categories : List CategoryId

-- The loop of `CandidateContribution::new`.
unfoldable pub distinct_categories : List CategoryId → List CategoryId → List CategoryId
unfolding eq_category has_category
distinct_categories cats [] = cats
distinct_categories cats (c ∷ cs) =
    if eq_category c uncategorized || has_category cats c
    then distinct_categories cats cs
    else distinct_categories (cats ++ c ∷ []) cs

-- `CandidateContribution::new`
unfoldable pub contribution : ℕ → ℕ → Decision → List CategoryId → CandidateContribution
unfolding distinct_categories
contribution candidate_id size decision categories = record {
  candidate_id = candidate_id;
  size = size;
  decision = decision;
  categories = distinct_categories [] categories;
}

unfoldable pub is_empty : List CategoryId → Bool
is_empty [] = true
is_empty _ = false

-- `CandidateContribution::is_reclaimable`
unfoldable pub is_reclaimable : CandidateContribution → Bool
unfolding is_keep is_empty
is_reclaimable self = not (is_keep self.decision) && not (is_empty self.categories)

-- `by_category[i].add(size)`
unfoldable pub add_at : ℕ → ℕ → List CategoryRollup → List CategoryRollup
unfolding add
add_at i size [] = []
add_at zero size (r ∷ rs) = add r size ∷ rs
add_at (suc i) size (r ∷ rs) = r ∷ add_at i size rs

-- `for cat in &c.categories { … }`
unfoldable pub add_to_categories : ℕ → List CategoryId → List CategoryRollup → List CategoryRollup
unfolding mvp_index add_at
add_to_categories size [] rs = rs
add_to_categories size (c ∷ cs) rs = elim (mvp_index c) [
  | none ↦ add_to_categories size cs rs
  | some i ↦ add_to_categories size cs (add_at i size rs)
]

pub record Tally : Type 0 where
  pub summary : FreeableSummary
  pub seen : List ℕ

-- One round of the loop of `summarize_unique`.
unfoldable pub count_unique : ℕ → ℕ → Tally → Tally
unfolding contains saturating_add
count_unique id size t = if contains t.seen id then t else record {
  summary = record t.summary {
    unique_bytes = saturating_add t.summary.unique_bytes size;
    unique_files = saturating_add t.summary.unique_files 1;
  };
  seen = id ∷ t.seen;
}

unfoldable pub tally_one : CandidateContribution → Tally → Tally
unfolding is_reclaimable count_unique add_to_categories
tally_one c t =
    if not (is_reclaimable c)
    then t
    else let u = count_unique c.candidate_id c.size t in
      record u {
        summary = record u.summary {
          by_category = add_to_categories c.size c.categories u.summary.by_category;
        };
      }

unfoldable pub tally : List CandidateContribution → Tally → Tally
unfolding tally_one
tally [] t = t
tally (c ∷ cs) t = tally cs (tally_one c t)

-- The sum of the bytes as it is, and as a `u64`.
unfoldable pub bytes_of : List CategoryRollup → ℕ
bytes_of [] = 0
bytes_of (r ∷ rs) = r.bytes + bytes_of rs

-- `summarize_unique`
unfoldable pub summarize_unique : List CandidateContribution → FreeableSummary
unfolding tally bytes_of
summarize_unique contributions =
    let summary = (tally contributions (record { summary = no_summary; seen = [] })).summary in
    record summary { category_sum_bytes = bytes_of summary.by_category % 2 ^ 64 }
