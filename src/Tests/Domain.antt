-- ===== src/Tests/Domain.antt =====
-- Examples for the categories, the duplicates and the paths.
use file_reaper.Prelude.{
  contains, ℕ, ◌≡◌, ◌≢◌, refl, true, none, some, List, [], ◌∷◌, All, keep_if, saturating_add, arith,
}
use file_reaper.Prelude.Text.{Text, text_eq, codes}
use file_reaper.Platform.{windows}
use file_reaper.PathKey.{path_key, paths_equal, paths_equal-path_key}
use file_reaper.Category.{large_files, old_files, uncategorized, mvp_index, duplicates}
use file_reaper.Aggregate.{
  CandidateContribution, undecided, keep, contribution, summarize_unique, is_honest, is_reclaimable,
}
use file_reaper.Aggregate.Unique.{summarize_unique-first_of_each}
use file_reaper.Aggregate.Honest.{IsProper, contribution-IsProper, summarize_unique-is_honest}
use file_reaper.Aggregator.{FileRecord, ingest_primary, from_primary_records}
use file_reaper.Aggregator.Live.{summary-ingest_primary}
use file_reaper.Duplicates.{HashKey, HashGroup, group_by_hash, sort_ids, dedup}
use file_reaper.Duplicates.Buckets.{bucket_of, HasDistinctKeys, IsNonempty}
use file_reaper.Duplicates.Groups.{IsGroup, group_by_hash-members, group_by_hash-HasDistinctKeys}
use file_reaper.Duplicates.Marking.{
  DuplicateMemberRef, MarkedDuplicateMember, MarkedDuplicateGroup, prefer_oldest_modified,
  mark_duplicate_members,
}
use file_reaper.Duplicates.Confirmed.{mark_group_with_records, mark_group_with_records-keeps_one}
use file_reaper.Duplicates.Keep.{count_kept, mark_duplicate_members-keeps_one}

-- The first candidate stands in two categories, and occurs twice. The third is kept.
abbrev contributions : List CandidateContribution
contributions =
    contribution 1 100 undecided (large_files ∷ old_files ∷ [])
    ∷ contribution 1 100 undecided (duplicates ∷ [])
    ∷ contribution 2 50 undecided (old_files ∷ uncategorized ∷ [])
    ∷ contribution 3 900 keep (old_files ∷ [])
    ∷ []

summarize_unique-first_of_each_example :
    ((summarize_unique contributions).unique_bytes ≡ 150)
    × ((summarize_unique contributions).unique_files ≡ 2)
unfolding contribution is_reclaimable keep_if saturating_add
summarize_unique-first_of_each_example = summarize_unique-first_of_each contributions

summarize_unique-is_honest_example : is_honest (summarize_unique contributions) ≡ true
unfolding summarize_unique contribution mvp_index
summarize_unique-is_honest_example =
    summarize_unique-is_honest contributions
      (((0, refl), ((1, refl), tt)), (((3, refl), tt), (((1, refl), tt), (((1, refl), tt), tt))))
      (omega arith)

contribution-IsProper_example :
    IsProper (contribution 2 50 undecided (old_files ∷ uncategorized ∷ []))
contribution-IsProper_example =
    contribution-IsProper 2 50 undecided (old_files ∷ uncategorized ∷ [])

abbrev record_1 : FileRecord
record_1 = record { candidate_id = 1; size = 100; category = large_files; decision = undecided }

abbrev record_2 : FileRecord
record_2 = record { candidate_id = 2; size = 50; category = old_files; decision = undecided }

summary-ingest_primary_example :
    summarize_unique (ingest_primary (record_2 ∷ []) (ingest_primary (record_1 ∷ []) []))
    ≡ from_primary_records (record_1 ∷ record_2 ∷ [])
summary-ingest_primary_example =
    summary-ingest_primary (record_1 ∷ []) (record_2 ∷ []) (refl, (refl, tt))

abbrev file : ℕ → ℕ → ℕ → HashKey
file id size hash = record { candidate_id = id; size = size; hash = hash ∷ [] }

abbrev files : List HashKey
files = file 5 100 1 ∷ file 3 100 1 ∷ file 4 100 2 ∷ file 5 100 1 ∷ file 6 0 1 ∷ []

group_by_hash-members_example : bucket_of (group_by_hash files) 100 (1 ∷ []) ≡ 3 ∷ 5 ∷ []
unfolding text_eq sort_ids dedup
group_by_hash-members_example = group_by_hash-members files 100 (1 ∷ []) refl

group_by_hash-HasDistinctKeys_example :
    HasDistinctKeys (group_by_hash files)
    × All IsNonempty (group_by_hash files)
    × All IsGroup (group_by_hash files)
group_by_hash-HasDistinctKeys_example = group_by_hash-HasDistinctKeys files

abbrev member : ℕ → Text → DuplicateMemberRef
member id path = record { candidate_id = id; path = path; modified_at = none }

abbrev members : List DuplicateMemberRef
members = member 1 (codes "/b") ∷ member 2 (codes "/a") ∷ []

some_member : members ≢ []
some_member h = ground (arith, h)

mark_duplicate_members-keeps_one_example :
    (out : List MarkedDuplicateMember) × (mark_duplicate_members windows members
        prefer_oldest_modified
      ≡ some out)
    × (count_kept out ≡ 1)
mark_duplicate_members-keeps_one_example =
    mark_duplicate_members-keeps_one windows members prefer_oldest_modified some_member
      (refl, (refl, tt))

paths_equal-path_key_example :
    paths_equal windows (codes "C:/A") (codes "c:\\a")
    ≡ text_eq (path_key windows (codes "C:/A")) (path_key windows (codes "c:\\a"))
paths_equal-path_key_example = paths_equal-path_key windows (codes "C:/A") (codes "c:\\a")

abbrev confirmed : HashGroup
confirmed = record { size = 100; hash = 1 ∷ []; members = 3 ∷ 5 ∷ [] }

confirmed_members : confirmed.members ≢ []
confirmed_members h = ground (arith, h)

mark_group_with_records-keeps_one_example :
    (out : MarkedDuplicateGroup) × (mark_group_with_records windows [] prefer_oldest_modified
        confirmed
      ≡ some out)
    × (count_kept out.members ≡ 1)
unfolding contains
mark_group_with_records-keeps_one_example =
    mark_group_with_records-keeps_one windows [] prefer_oldest_modified confirmed confirmed_members
      (refl, (refl, tt))
