-- ===== src/Index/Memory/Upsert.antt =====
-- core/infra/index-memory/src/lib.rs: `upsert_batch`. Each `HashMap` is a list with the last insertion
-- first.
use file_reaper.Prelude.{
  ℕ, zero, suc, ◌+◌, ◌&&◌, Option, none, some, List, [], ◌∷◌, ◌++◌, length, ◌==◌, if◌then◌else◌,
}
use file_reaper.Prelude.Text.{Text}
use file_reaper.Platform.{Platform}
use file_reaper.PathKey.{normalize_separators, to_ascii_lowercase}
use file_reaper.Index.Packing.{FileRecord, CompactFileRecord, pack}
use file_reaper.Index.Interner
use file_reaper.Index.Interner.{Lookup, intern, lookup_id}
use file_reaper.Index.Memory.{StdPath, InMemoryIndexInner, resolve_path, with_lookups}

-- The position of a record by the identifiers of its directory and its name.
abbrev pub Positions : Type 0
Positions = List ((ℕ × ℕ) × ℕ)

unfoldable pub position : ℕ → ℕ → Positions → Option ℕ
position dir name [] = none
position dir name (e ∷ es) =
    let rest = position dir name es in if e.0.0 == dir && e.0.1 == name then some e.1 else rest

-- `by_ids`, from an index on.
unfoldable pub positions_from : ℕ → List CompactFileRecord → Positions → Positions
positions_from idx [] acc = acc
positions_from idx (c ∷ cs) acc =
    positions_from (idx + 1) cs (((c.dir_id, c.filename_id), idx) ∷ acc)

-- `by_lower`, from an index on.
unfoldable pub lower_from :
    StdPath → InMemoryIndexInner → ℕ → List CompactFileRecord → Lookup → Lookup
unfolding resolve_path to_ascii_lowercase
lower_from P inner idx [] acc = acc
lower_from P inner idx (c ∷ cs) acc =
    lower_from P inner (idx + 1) cs ((to_ascii_lowercase (resolve_path P inner c), idx) ∷ acc)

-- `inner.records[idx] = compact`
unfoldable pub set_record : ℕ → CompactFileRecord → List CompactFileRecord → List CompactFileRecord
set_record idx compact [] = []
set_record zero compact (c ∷ cs) = compact ∷ cs
set_record (suc idx) compact (c ∷ cs) = c ∷ set_record idx compact cs

pub record Upserting : Type 0 where
  pub inner : InMemoryIndexInner
  pub by_ids : Positions
  pub by_lower : Option Lookup

-- `lookup_id(…).zip(lookup_id(…)).and_then(|ids| by_ids.get(&ids).copied())`
unfoldable pub exact_position : Option ℕ → Option ℕ → Positions → Option ℕ
unfolding position
exact_position (some dir) (some name) by_ids = position dir name by_ids
exact_position _ _ by_ids = none

-- `get_or_insert_with`
unfoldable pub lower_of : StdPath → InMemoryIndexInner → Option Lookup → Lookup
unfolding lower_from
lower_of P inner (some lower) = lower
lower_of P inner none = lower_from P inner 0 inner.records []

-- The position of a record, and the slower map once it was asked.
unfoldable pub find_position :
    StdPath → InMemoryIndexInner → Option ℕ → Text → Option Lookup → Option ℕ × Option Lookup
unfolding lower_of Interner.get
find_position P inner (some idx) lower_path by_lower = (some idx, by_lower)
find_position P inner none lower_path by_lower =
    let lower = lower_of P inner by_lower in (Interner.get lower_path lower, some lower)

-- The records with one written at its position or at the end, and its slot.
unfoldable pub write_record :
    Option ℕ → CompactFileRecord → List CompactFileRecord → List CompactFileRecord × ℕ
unfolding set_record
write_record (some idx) compact records = (set_record idx compact records, idx)
write_record none compact records = (records ++ compact ∷ [], length records)

-- `if let Some(lower) = by_lower.as_mut() { lower.insert(path_lower, slot) }`
unfoldable pub note_lower : Text → ℕ → Option Lookup → Option Lookup
note_lower path slot none = none
note_lower path slot (some lower) = some ((path, slot) ∷ lower)

-- One turn of the loop.
unfoldable pub upsert_one : Platform → StdPath → FileRecord → Upserting → Upserting
unfolding normalize_separators to_ascii_lowercase exact_position find_position intern pack
    write_record note_lower lookup_id
upsert_one p P given s =
    let path_norm = normalize_separators p given.path in
    let parent = P.parent path_norm in
    let file_name = P.file_name path_norm in
    let inner = s.inner in
    let exact =
      exact_position (lookup_id inner.dir_interner parent)
        (lookup_id inner.filename_interner file_name) s.by_ids in
    let found = find_position P inner exact (to_ascii_lowercase path_norm) s.by_lower in
    let dir = intern parent inner.dir_interner in
    let name = intern file_name inner.filename_interner in
    let written =
      write_record found.0 (pack (record given { path = path_norm }) dir.0 name.0) inner.records in
    record {
      inner = record { records = written.0; dir_interner = dir.1; filename_interner = name.1 };
      by_ids = ((dir.0, name.0), written.1) ∷ s.by_ids;
      by_lower = note_lower (to_ascii_lowercase path_norm) written.1 found.1;
    }

unfoldable pub upsert_all : Platform → StdPath → List FileRecord → Upserting → Upserting
unfolding upsert_one
upsert_all p P [] s = s
upsert_all p P (r ∷ rs) s = upsert_all p P rs (upsert_one p P r s)

-- `upsert_batch`
unfoldable pub upsert_batch :
    Platform → StdPath → List FileRecord → InMemoryIndexInner → InMemoryIndexInner
unfolding upsert_all with_lookups positions_from
upsert_batch p P [] inner = inner
upsert_batch p P (r ∷ rs) inner =
    let ready = with_lookups inner in
    (upsert_all p P (r ∷ rs)
      (record { inner = ready; by_ids = positions_from 0 ready.records []; by_lower = none })).inner
