-- ===== src/Category.antt =====
-- core/domain/src/category.rs: the categories of the detectors, and their bit mask.
use file_reaper.Prelude.{
  ℕ, Bool, true, false, Option, none, some, List, [], ◌∷◌, ◌==◌, if◌then◌else◌,
}

pub data CategoryId : Type 0 where
  large_files old_files forgotten_videos duplicates : CategoryId
  archives installers temp_files app_caches : CategoryId
  dev_artifacts empty_folders sparse_folders deep_paths : CategoryId
  uncategorized : CategoryId

abbrev pub all : List CategoryId
all =
    large_files ∷ old_files ∷ forgotten_videos ∷ duplicates ∷ archives ∷ installers ∷ temp_files
    ∷ app_caches ∷ dev_artifacts ∷ empty_folders ∷ sparse_folders ∷ deep_paths ∷ []

-- `CategoryId::mvp_index`
unfoldable pub mvp_index : CategoryId → Option ℕ
mvp_index large_files = some 0
mvp_index old_files = some 1
mvp_index forgotten_videos = some 2
mvp_index duplicates = some 3
mvp_index archives = some 4
mvp_index installers = some 5
mvp_index temp_files = some 6
mvp_index app_caches = some 7
mvp_index dev_artifacts = some 8
mvp_index empty_folders = some 9
mvp_index sparse_folders = some 10
mvp_index deep_paths = some 11
mvp_index uncategorized = none

-- The derived `==`.
unfoldable pub eq_category : CategoryId → CategoryId → Bool
unfolding mvp_index
eq_category a b = elim (mvp_index a) [
  | none ↦ elim (mvp_index b) [ none ↦ true | some j ↦ false ]
  | some i ↦ elim (mvp_index b) [ none ↦ false | some j ↦ i == j ]
]

-- `categories.contains(&c)`
unfoldable pub has_category : List CategoryId → CategoryId → Bool
unfolding eq_category
has_category [] c = false
has_category (d ∷ ds) c = if eq_category d c then true else has_category ds c
