-- ===== src/Delta.antt =====
-- core/app/src/usn_apply.rs: how the changes of a journal are told apart, and the cache from which
-- their paths are made. A `HashMap` is a list of pairs in which no key occurs twice.
pub mod Kind
pub mod Planning
pub mod Plan
pub mod Counts
pub mod Candidates
pub mod Ports
pub mod Sync
pub mod Cursor
use file_reaper.Prelude.{
  ℕ, Bool, true, false, Option, none, some, List, [], ◌∷◌, ◌++◌, ◌==◌, if◌then◌else◌,
}
use file_reaper.Prelude.Int.{ℤ}
use file_reaper.Prelude.Text.{Text}
use file_reaper.Platform.{Platform}
use file_reaper.PathKey.{separator, normalize_separators}
use file_reaper.Quarantine.Guard.{trim_end_of}
use file_reaper.Quarantine.Destination.{is_any_separator}
use file_reaper.Index.Packing.{FileAttributes, FileRecord, has_bits}
use file_reaper.Usn.{UsnChange}

pub data UsnChangeClass : Type 0 where
  create delete rename_old rename_new modify ignore : UsnChangeClass

-- Data overwritten, extended or truncated, or the basic information changed.
abbrev pub modified_bits : ℕ
modified_bits = 0x8007

unfoldable pub classify_usn_reason : ℕ → UsnChangeClass
unfolding has_bits
classify_usn_reason reason =
    if has_bits reason 0x200
    then delete
    else if has_bits reason 0x1000
    then rename_old
    else if has_bits reason 0x2000
    then rename_new
    else if has_bits reason 0x100
    then create
    else if has_bits reason modified_bits
    then modify
    else ignore

pub record FileProbe : Type 0 where
  pub size : ℕ
  pub modified_at : Option ℤ
  pub created_at : Option ℤ
  pub accessed_at : Option ℤ
  pub attributes : FileAttributes
  pub is_directory : Bool

-- The text of a file reference.
abbrev pub PathMap : Type 0
PathMap = List (ℕ × Text)

unfoldable pub find : ℕ → PathMap → Option Text
find key [] = none
find key (e ∷ es) = let rest = find key es in if key == e.0 then some e.1 else rest

unfoldable pub forget : ℕ → PathMap → PathMap
forget key [] = []
forget key (e ∷ es) = let rest = forget key es in if key == e.0 then rest else e ∷ rest

unfoldable pub put : ℕ → Text → PathMap → PathMap
unfolding forget
put key text map = (key, text) ∷ forget key map

-- `FrnPathCache::seed_volume_root`, for an upper-case letter.
unfoldable pub seed_volume_root : ℕ → PathMap → PathMap
unfolding put
seed_volume_root drive map = put 0 (drive ∷ b':' ∷ []) (put 5 (drive ∷ b':' ∷ []) map)

-- `FrnPathCache::insert`
unfoldable pub insert : Platform → ℕ → Text → PathMap → PathMap
unfolding put normalize_separators
insert p file_ref path map = put file_ref (normalize_separators p path) map

-- `join_child`
unfoldable pub join_child : Platform → Text → Text → Text
unfolding separator trim_end_of is_any_separator
join_child p parent name = trim_end_of is_any_separator parent ++ separator p ∷ name

-- The parent of a change and its name.
unfoldable pub below_parent : Platform → PathMap → UsnChange → Option Text
unfolding find join_child
below_parent p cache change = elim (find change.parent_ref cache) [
  | none ↦ none
  | some parent ↦ some (join_child p parent change.name)
]

-- `FrnPathCache::resolve_change_path`
unfoldable pub resolve_change_path : Platform → PathMap → UsnChange → Option Text
unfolding find below_parent classify_usn_reason
resolve_change_path p cache change = elim (find change.file_ref cache) [
  | none ↦ below_parent p cache change
  | some path ↦ elim (classify_usn_reason change.reason) [
    | rename_new ↦ below_parent p cache change
    | _ ↦ some path
  ]
]

pub data IndexMutation : Type 0 where
  upsert : FileRecord → IndexMutation
  remove : Text → IndexMutation

pub record UsnApplyStats : Type 0 where
  pub created : ℕ
  pub modified : ℕ
  pub deleted : ℕ
  pub renamed : ℕ
  pub skipped_unresolved : ℕ
  pub skipped_directory : ℕ
  pub skipped_quarantine : ℕ
  pub ignored : ℕ
