-- ===== src/Tests/Indexing.antt =====
-- An index in memory with two files of one directory on Windows.
use file_reaper.PathKey.{case_insensitive, normalize_separators}
use file_reaper.Index.Memory.Upsert.{upsert_batch}
use file_reaper.Index.Memory.Growth.{intern_all}
use file_reaper.Index.Interner.Pool.{concat}
use file_reaper.Prelude.{
  ℕ, ◌+◌, ◌*◌, ◌≡◌, refl, true, false, Option, none, some, List, [], ◌∷◌, ◌++◌, map, length, ◌==◌,
  keep_if, if◌then◌else◌, arith,
}
use file_reaper.Prelude.Int.{pos}
use file_reaper.Prelude.Text.{Text, codes}
use file_reaper.Platform.{windows, linux}
use file_reaper.Aggregate.{keep}
use file_reaper.Category.{dev_artifacts}
use file_reaper.Index.Packing.{
  FileRecord, video, folder, review_recommended, pack, unpack, unpack_attributes,
}
use file_reaper.Index.Packing.RoundTrip.{IsStorable, unpack-pack}
use file_reaper.Index.Interner.{new, intern}
use file_reaper.Index.Interner.Pool.{intern_pool}
use file_reaper.Index.Interner.Refinement.{Implements, intern-Represents, new-Represents}
use file_reaper.Index.Memory.{
  StdPath, empty, join, get_all, insert_batch, finish_indexing, remove_paths,
}
use file_reaper.Index.Memory.Contents.{Holds, dirs_after, names_after, stored, insert_batch-Holds}
use file_reaper.Index.Memory.Removal.{is_other, remove_paths-get_all}

-- The last separator cuts a path in two.
unfoldable pub cut : Text → Option (Text × Text)
cut [] = none
cut (c ∷ s) = elim (cut s) [
  | some parts ↦ some (c ∷ parts.0, parts.1)
  | none ↦ if c == b'\\' then some ([], s) else none
]

unfoldable pub parent_of : Text → Text
unfolding cut
parent_of s = elim (cut s) [ none ↦ [] | some parts ↦ parts.0 ]

unfoldable pub name_of : Text → Text
unfolding cut
name_of s = elim (cut s) [ none ↦ s | some parts ↦ parts.1 ]

abbrev pub paths : StdPath
paths = record { parent = parent_of; file_name = name_of; push = λ dir name. dir ++ b'\\' ∷ name }

abbrev pub at : Text → ℕ → FileRecord
at path id = record {
  candidate_id = id;
  path = path;
  size = 4096;
  created_at = none;
  modified_at = some (pos ((1700000000 + 11644473600) * 10000000));
  accessed_at = none;
  kind = video;
  unit = folder;
  category = dev_artifacts;
  safety = review_recommended;
  decision = keep;
  detector_id = [];
  explanation = [];
  attributes = record {
    raw_bits = 0x3;
    is_readonly = true;
    is_hidden = true;
    is_system = false;
    is_temporary = false;
  };
}

pub at-IsStorable : (path : Text) (id : ℕ) → IsStorable (at path id)
unfolding unpack_attributes
at-IsStorable path id = record {
  created = tt;
  modified = (1700000000, omega arith, omega arith, refl);
  accessed = tt;
  no_detector = refl;
  no_explanation = refl;
  flags = refl;
}

unpack-pack_example :
    unpack (pack (at (codes "C:\\a\\b") 7) 1 2) (codes "C:\\a\\b") ≡ at (codes "C:\\a\\b") 7
unfolding unpack_attributes
unpack-pack_example = unpack-pack (at (codes "C:\\a\\b") 7) 1 2 (at-IsStorable (codes "C:\\a\\b") 7)

intern-Represents_example : Implements (intern (codes "C:\\a") new) (intern_pool (codes "C:\\a") [])
unfolding concat intern_pool
intern-Represents_example =
    intern-Represents [] new (codes "C:\\a") new-Represents.0 new-Represents.1
      (omega arith, omega arith)

abbrev pub two_files : List FileRecord
two_files = at (codes "C:\\a\\B") 1 ∷ at (codes "C:\\a\\c") 2 ∷ []

nothing : Holds paths [] [] [] empty
nothing = record { dirs_pool = new-Represents.0; names_pool = new-Represents.0; stand = tt }

insert_batch-Holds_example :
    let index = insert_batch paths two_files (finish_indexing empty) in
    Holds paths
      (dirs_after paths two_files [])
      (names_after paths two_files [])
      ([] ++ map stored two_files)
      index
    × (get_all paths index ≡ get_all paths empty ++ map stored two_files)
unfolding join parent_of name_of concat intern_all
insert_batch-Holds_example =
    insert_batch-Holds two_files nothing (refl, (refl, tt)) (omega arith, omega arith)
      (omega arith, omega arith)

remove_paths-get_all_example :
    let index = insert_batch paths two_files empty in
    let r = remove_paths windows paths (codes "c:/A/b" ∷ []) index in
    (get_all paths r.1 ≡ keep_if (is_other windows (codes "c:/A/b" ∷ [])) (get_all paths index))
    × (r.0 + length (get_all paths r.1) ≡ length (get_all paths index))
unfolding case_insensitive get_all insert_batch parent_of normalize_separators name_of
remove_paths-get_all_example =
    remove_paths-get_all windows paths (codes "c:/A/b" ∷ []) (insert_batch paths two_files empty)
      refl (refl, (refl, tt))

-- Where upper and lower case are different files, a file is not found under its own path.
remove_paths_on_linux :
    (remove_paths linux paths (codes "C:\\a\\B" ∷ []) (insert_batch paths two_files empty)).0 ≡ 0
unfolding remove_paths insert_batch parent_of
remove_paths_on_linux = refl

-- A record is replaced by the next one of its path, in any case of its letters.
upsert_replaces :
    map
      (λ r. r.candidate_id)
      (get_all paths (
        upsert_batch windows paths
          (at (codes "C:/a/b") 3 ∷ at (codes "C:\\a\\c") 4 ∷ [])
          (insert_batch paths two_files empty)))
    ≡ 3 ∷ 4 ∷ []
unfolding get_all upsert_batch insert_batch parent_of name_of
upsert_replaces = refl

-- Also where upper and lower case are different files.
upsert_merges_on_linux :
    length (
      get_all paths
        (upsert_batch linux paths (at (codes "\\a\\foo") 1 ∷ at (codes "\\a\\Foo") 2 ∷ []) empty))
    ≡ 1
unfolding get_all upsert_batch parent_of name_of
upsert_merges_on_linux = refl
