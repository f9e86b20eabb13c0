-- ===== src/Delta/Planning.antt =====
-- core/app/src/usn_apply.rs: `build_record`, and the state of `plan_usn_mutations`.
use file_reaper.Prelude.{ℕ, ◌+◌, false, Option, none, some, List, [], ◌∷◌, ◌++◌}
use file_reaper.Prelude.Text.{Text}
use file_reaper.Platform.{Platform}
use file_reaper.PathKey.{normalize_separators}
use file_reaper.Aggregate.{undecided}
use file_reaper.Category.{uncategorized}
use file_reaper.Index.Packing.{FileAttributes, FileRecord, file, review_recommended}
use file_reaper.Usn.{UsnChange}
use file_reaper.Delta.{FileProbe, PathMap, IndexMutation, remove, UsnApplyStats}
use file_reaper.Delta.Kind.{from_path}

abbrev pub no_attributes : FileAttributes
no_attributes = record {
  raw_bits = 0;
  is_readonly = false;
  is_hidden = false;
  is_system = false;
  is_temporary = false;
}

abbrev pub no_stats : UsnApplyStats
no_stats = record {
  created = 0;
  modified = 0;
  deleted = 0;
  renamed = 0;
  skipped_unresolved = 0;
  skipped_directory = 0;
  skipped_quarantine = 0;
  ignored = 0;
}

-- What the probe tells, or what the change tells where the probe finds nothing.
abbrev pub probed : Option FileProbe → UsnChange → FileProbe
probed (some p) change = p
probed none change = record {
  size = 0;
  modified_at = change.timestamp;
  created_at = none;
  accessed_at = change.timestamp;
  attributes = no_attributes;
  is_directory = change.is_directory;
}

-- `build_record`
unfoldable pub build_record : Platform → ℕ → Text → Option FileProbe → UsnChange → FileRecord
unfolding normalize_separators from_path
build_record p id path probe change =
    let found = probed probe change in
    record {
      candidate_id = id;
      path = normalize_separators p path;
      size = found.size;
      created_at = found.created_at;
      modified_at = found.modified_at;
      accessed_at = found.accessed_at;
      kind = from_path path;
      unit = file;
      category = uncategorized;
      safety = review_recommended;
      decision = undecided;
      detector_id = [];
      explanation = [];
      attributes = found.attributes;
    }

-- The cache, the old paths of renames, the mutations, the statistics, and the next identifier.
pub record Planning : Type 0 where
  pub cache : PathMap
  pub rename_old_paths : PathMap
  pub mutations : List IndexMutation
  pub stats : UsnApplyStats
  pub next_candidate_id : ℕ

abbrev pub push_remove : Text → Planning → Planning
push_remove path s = record s { mutations = s.mutations ++ remove path ∷ [] }

abbrev pub count_created : Planning → Planning
count_created s = record s { stats = record s.stats { created = s.stats.created + 1 } }

abbrev pub count_modified : Planning → Planning
count_modified s = record s { stats = record s.stats { modified = s.stats.modified + 1 } }

abbrev pub count_deleted : Planning → Planning
count_deleted s = record s { stats = record s.stats { deleted = s.stats.deleted + 1 } }

abbrev pub count_renamed : Planning → Planning
count_renamed s = record s { stats = record s.stats { renamed = s.stats.renamed + 1 } }

abbrev pub count_unresolved : Planning → Planning
count_unresolved s = record s {
  stats = record s.stats { skipped_unresolved = s.stats.skipped_unresolved + 1 };
}

abbrev pub count_directory : Planning → Planning
count_directory s = record s {
  stats = record s.stats { skipped_directory = s.stats.skipped_directory + 1 };
}

abbrev pub count_quarantine : Planning → Planning
count_quarantine s = record s {
  stats = record s.stats { skipped_quarantine = s.stats.skipped_quarantine + 1 };
}

abbrev pub count_ignored : Planning → Planning
count_ignored s = record s { stats = record s.stats { ignored = s.stats.ignored + 1 } }
