-- ===== src/Index/Packing.antt =====
-- core/infra/index-memory/src/lib.rs: `CompactFileRecord`, and the `FileRecord` of
-- core/domain/src/candidate.rs. A field of bits is cut out with the native operations on bits.
pub mod RoundTrip
use Prim.Native.Nat.{bit_and, bit_or}
use file_reaper.Prelude.{
  ℕ, ◌+◌, ◌-◌, ◌*◌, ◌/◌, ◌^◌, Bool, true, false, not, Option, none, some, [], leb, ◌==◌,
  if◌then◌else◌,
}
use file_reaper.Prelude.Int.{ℤ, pos, negsuc}
use file_reaper.Prelude.Text.{Text}
use file_reaper.Aggregate.{Decision, undecided, keep, marked}
use file_reaper.Category.{
  CategoryId, large_files, old_files, forgotten_videos, duplicates, archives, installers,
  temp_files, app_caches, dev_artifacts, empty_folders, sparse_folders, deep_paths, uncategorized,
}

pub data FileKind : Type 0 where
  video image audio archive installer disk_image document other : FileKind

pub data CandidateUnit : Type 0 where
  file folder : CandidateUnit

pub data SafetyLevel : Type 0 where
  safe_to_bulk review_recommended : SafetyLevel

pub record FileAttributes : Type 0 where
  pub raw_bits : ℕ
  pub is_readonly : Bool
  pub is_hidden : Bool
  pub is_system : Bool
  pub is_temporary : Bool

-- A timestamp is a Windows FILETIME, an `i64`.
pub record FileRecord : Type 0 where
  pub candidate_id : ℕ
  pub path : Text
  pub size : ℕ
  pub created_at : Option ℤ
  pub modified_at : Option ℤ
  pub accessed_at : Option ℤ
  pub kind : FileKind
  pub unit : CandidateUnit
  pub category : CategoryId
  pub safety : SafetyLevel
  pub decision : Decision
  pub detector_id : Text
  pub explanation : Text
  pub attributes : FileAttributes

-- `UNIX_EPOCH_FILETIME_SECS`
abbrev pub unix_epoch_filetime_secs : ℕ
unix_epoch_filetime_secs = 11644473600

-- `u32::MAX`
abbrev pub max_u32 : ℕ
max_u32 = 2 ^ 32 - 1

-- A time before 1601 is before 1970 too.
unfoldable pub filetime_to_unix_secs : ℤ → ℕ
filetime_to_unix_secs (negsuc n) = 1
filetime_to_unix_secs (pos n) =
    let filetime_secs = n / 10000000 in
    if n == 0
    then 0
    else if leb filetime_secs unix_epoch_filetime_secs
    then 1
    else if leb max_u32 (filetime_secs - unix_epoch_filetime_secs)
    then max_u32 - 1
    else filetime_secs - unix_epoch_filetime_secs

unfoldable pub unix_secs_to_filetime : ℕ → ℤ
unix_secs_to_filetime unix_secs =
    if unix_secs == 0 then pos 0 else pos ((unix_secs + unix_epoch_filetime_secs) * 10000000)

pub record CompactFileRecord : Type 0 where
  pub candidate_id : ℕ
  pub size : ℕ
  pub accessed_at : ℕ
  pub created_at : ℕ
  pub modified_at : ℕ
  pub dir_id : ℕ
  pub filename_id : ℕ
  pub attributes : ℕ
  pub packed_meta : ℕ

-- `record.kind as u16`, and the like.
unfoldable pub kind_val : FileKind → ℕ
kind_val video = 0
kind_val image = 1
kind_val audio = 2
kind_val archive = 3
kind_val installer = 4
kind_val disk_image = 5
kind_val document = 6
kind_val other = 7

unfoldable pub unit_val : CandidateUnit → ℕ
unit_val file = 0
unit_val folder = 1

unfoldable pub category_val : CategoryId → ℕ
category_val large_files = 0
category_val old_files = 1
category_val forgotten_videos = 2
category_val duplicates = 3
category_val archives = 4
category_val installers = 5
category_val temp_files = 6
category_val app_caches = 7
category_val dev_artifacts = 8
category_val empty_folders = 9
category_val sparse_folders = 10
category_val deep_paths = 11
category_val uncategorized = 12

unfoldable pub safety_val : SafetyLevel → ℕ
safety_val safe_to_bulk = 0
safety_val review_recommended = 1

unfoldable pub decision_val : Decision → ℕ
decision_val undecided = 0
decision_val keep = 1
decision_val marked = 2

unfoldable pub parse_file_kind_val : ℕ → FileKind
parse_file_kind_val val =
    if val == 0
    then video
    else if val == 1
    then image
    else if val == 2
    then audio
    else if val == 3
    then archive
    else if val == 4
    then installer
    else if val == 5
    then disk_image
    else if val == 6
    then document
    else other

unfoldable pub parse_candidate_unit_val : ℕ → CandidateUnit
parse_candidate_unit_val val = if val == 0 then file else folder

unfoldable pub parse_category_val : ℕ → CategoryId
parse_category_val val =
    if val == 0
    then large_files
    else if val == 1
    then old_files
    else if val == 2
    then forgotten_videos
    else if val == 3
    then duplicates
    else if val == 4
    then archives
    else if val == 5
    then installers
    else if val == 6
    then temp_files
    else if val == 7
    then app_caches
    else if val == 8
    then dev_artifacts
    else if val == 9
    then empty_folders
    else if val == 10
    then sparse_folders
    else if val == 11
    then deep_paths
    else uncategorized

unfoldable pub parse_safety_level_val : ℕ → SafetyLevel
parse_safety_level_val val = if val == 0 then safe_to_bulk else review_recommended

unfoldable pub parse_decision_val : ℕ → Decision
parse_decision_val val = if val == 0 then undecided else if val == 1 then keep else marked

-- `packed_meta`: the fields side by side in one number.
unfoldable pub pack_meta : ℕ → ℕ → ℕ → ℕ → ℕ → ℕ
pack_meta kind unit category safety decision =
    bit_or
      (bit_or
        (bit_or (bit_or (bit_and kind 0x7) (bit_and unit 0x1 * 2 ^ 3))
          (bit_and category 0xF * 2 ^ 4))
        (bit_and safety 0x1 * 2 ^ 8))
      (bit_and decision 0x3 * 2 ^ 9)

-- `record.accessed_at.map(|t| filetime_to_unix_secs(t.0)).unwrap_or(0)`
unfoldable pub pack_time : Option ℤ → ℕ
unfolding filetime_to_unix_secs
pack_time none = 0
pack_time (some t) = filetime_to_unix_secs t

unfoldable pub unpack_time : ℕ → Option ℤ
unfolding unix_secs_to_filetime
unpack_time secs = if secs == 0 then none else some (unix_secs_to_filetime secs)

-- `CompactFileRecord::pack`
unfoldable pub pack : FileRecord → ℕ → ℕ → CompactFileRecord
unfolding pack_time pack_meta kind_val unit_val category_val safety_val decision_val
pack r dir_id filename_id = record {
  candidate_id = r.candidate_id;
  size = r.size;
  accessed_at = pack_time r.accessed_at;
  created_at = pack_time r.created_at;
  modified_at = pack_time r.modified_at;
  dir_id = dir_id;
  filename_id = filename_id;
  attributes = r.attributes.raw_bits;
  packed_meta =
      pack_meta (kind_val r.kind) (unit_val r.unit) (category_val r.category) (safety_val r.safety)
        (decision_val r.decision);
}

-- `raw & mask != 0`
unfoldable pub has_bits : ℕ → ℕ → Bool
has_bits raw mask = not (bit_and raw mask == 0)

-- The attributes that `unpack` gives.
unfoldable pub unpack_attributes : ℕ → FileAttributes
unfolding has_bits
unpack_attributes raw = record {
  raw_bits = raw;
  is_readonly = has_bits raw 0x1;
  is_hidden = has_bits raw 0x2;
  is_system = has_bits raw 0x4;
  is_temporary = has_bits raw 0x8;
}

-- `CompactFileRecord::unpack`
unfoldable pub unpack : CompactFileRecord → Text → FileRecord
unfolding unpack_time unpack_attributes parse_file_kind_val parse_candidate_unit_val
    parse_category_val parse_safety_level_val parse_decision_val
unpack c path = record {
  candidate_id = c.candidate_id;
  path = path;
  size = c.size;
  created_at = unpack_time c.created_at;
  modified_at = unpack_time c.modified_at;
  accessed_at = unpack_time c.accessed_at;
  kind = parse_file_kind_val (bit_and c.packed_meta 0x7);
  unit = parse_candidate_unit_val (bit_and (c.packed_meta / 2 ^ 3) 0x1);
  category = parse_category_val (bit_and (c.packed_meta / 2 ^ 4) 0xF);
  safety = parse_safety_level_val (bit_and (c.packed_meta / 2 ^ 8) 0x1);
  decision = parse_decision_val (bit_and (c.packed_meta / 2 ^ 9) 0x3);
  detector_id = [];
  explanation = [];
  attributes = unpack_attributes c.attributes;
}
