-- ===== src/Index/Memory.antt =====
-- core/infra/index-memory/src/lib.rs: `InMemoryIndex`. What it takes from `std::path` is a parameter,
-- and the lock around its state is left out: each operation holds it from its start to its end.
pub mod Pools
pub mod Growth
pub mod Contents
pub mod Removal
pub mod Upsert
use file_reaper.Prelude.{
  ℕ, ◌+◌, ◌-◌, ◌<◌, ◌≡◌, Bool, true, false, not, ◌&&◌, Option, none, some, List, [], ◌∷◌, ◌++◌, map,
  ltb, leb, ◌==◌, length, contains, keep_if, if◌then◌else◌,
}
use file_reaper.Prelude.Text.{Text, text_eq}
use file_reaper.Platform.{Platform}
use file_reaper.PathKey.{path_key, to_ascii_lowercase}
use file_reaper.Index.Packing.{FileRecord, CompactFileRecord, pack, unpack}
use file_reaper.Index.Interner.{
  PathInterner, new, intern, get_elem?, resolve, shrink_to_fit, rebuild_lookup,
}

-- `Path::parent` and `Path::file_name`, where nothing is the empty string, and `PathBuf::push`.
pub record StdPath : Type 0 where
  pub parent : Text → Text
  pub file_name : Text → Text
  pub push : Text → Text → Text

pub record InMemoryIndexInner : Type 0 where
  pub records : List CompactFileRecord
  pub dir_interner : PathInterner
  pub filename_interner : PathInterner

-- `InMemoryIndex::new`
abbrev pub empty : InMemoryIndexInner
empty = record { records = []; dir_interner = new; filename_interner = new }

-- `unwrap_or("")`
abbrev pub or_empty : Option Text → Text
or_empty none = []
or_empty (some s) = s

-- The two parts of a path, put together again.
unfoldable pub join : StdPath → Text → Text → Text
join P parent file_name = elim parent [ [] ↦ file_name | c ∷ cs ↦ P.push (c ∷ cs) file_name ]

-- `resolve_path`
unfoldable pub resolve_path : StdPath → InMemoryIndexInner → CompactFileRecord → Text
unfolding join resolve
resolve_path P self compact =
    join P (or_empty (resolve self.dir_interner compact.dir_id))
      (or_empty (resolve self.filename_interner compact.filename_id))

-- Both lookups, before records are added.
unfoldable pub with_lookups : InMemoryIndexInner → InMemoryIndexInner
unfolding rebuild_lookup
with_lookups inner = record inner {
  dir_interner = rebuild_lookup inner.dir_interner;
  filename_interner = rebuild_lookup inner.filename_interner;
}

-- One record: its path is split and interned, and it is packed.
unfoldable pub push_record : StdPath → FileRecord → InMemoryIndexInner → InMemoryIndexInner
unfolding intern pack
push_record P r inner =
    let dir = intern (P.parent r.path) inner.dir_interner in
    let name = intern (P.file_name r.path) inner.filename_interner in
    record {
      records = inner.records ++ pack r dir.0 name.0 ∷ [];
      dir_interner = dir.1;
      filename_interner = name.1;
    }

-- `InMemoryIndex::insert`
unfoldable pub insert : StdPath → FileRecord → InMemoryIndexInner → InMemoryIndexInner
unfolding push_record with_lookups
insert P r inner = push_record P r (with_lookups inner)

unfoldable pub push_records : StdPath → List FileRecord → InMemoryIndexInner → InMemoryIndexInner
unfolding push_record
push_records P [] inner = inner
push_records P (r ∷ rs) inner = push_records P rs (push_record P r inner)

-- `insert_batch`
unfoldable pub insert_batch : StdPath → List FileRecord → InMemoryIndexInner → InMemoryIndexInner
unfolding push_records with_lookups
insert_batch P rs inner = push_records P rs (with_lookups inner)

-- A record as it is handed out.
unfoldable pub unpacked : StdPath → InMemoryIndexInner → CompactFileRecord → FileRecord
unfolding unpack resolve_path
unpacked P inner compact = unpack compact (resolve_path P inner compact)

-- `get`
unfoldable pub get : StdPath → ℕ → InMemoryIndexInner → Option FileRecord
unfolding unpacked get_elem?
get P idx inner = elim (get_elem? inner.records idx) [
  | none ↦ none
  | some compact ↦ some (unpacked P inner compact)
]

-- `len`
unfoldable pub len : InMemoryIndexInner → ℕ
len inner = length inner.records

-- `clear`
unfoldable pub clear : InMemoryIndexInner → InMemoryIndexInner
clear inner = record inner { records = [] }

-- `finish_indexing`, as far as it can be seen.
unfoldable pub finish_indexing : InMemoryIndexInner → InMemoryIndexInner
unfolding shrink_to_fit
finish_indexing inner = record inner {
  dir_interner = shrink_to_fit inner.dir_interner;
  filename_interner = shrink_to_fit inner.filename_interner;
}

-- `get_all`
unfoldable pub get_all : StdPath → InMemoryIndexInner → List FileRecord
unfolding unpacked
get_all P inner = map (unpacked P inner) inner.records

-- The loop of `get_by_candidate_ids`, with the number of results that are still wanted.
unfoldable pub collect_by_ids :
    StdPath → InMemoryIndexInner → List ℕ → ℕ → List CompactFileRecord → List FileRecord
unfolding unpacked contains
collect_by_ids P inner ids wanted [] = []
collect_by_ids P inner ids wanted (c ∷ cs) =
    let rest = collect_by_ids P inner ids wanted cs in
    let fewer = collect_by_ids P inner ids (wanted - 1) cs in
    if contains ids c.candidate_id
    then unpacked P inner c ∷ (if wanted == 1 then [] else fewer)
    else rest

-- `get_by_candidate_ids`, where the `HashSet` of the identifiers is a list without repetition.
unfoldable pub get_by_candidate_ids : StdPath → List ℕ → InMemoryIndexInner → List FileRecord
unfolding collect_by_ids
get_by_candidate_ids P [] inner = []
get_by_candidate_ids P (i ∷ ids) inner =
    collect_by_ids P inner (i ∷ ids) (length (i ∷ ids)) inner.records

-- The loop of `for_each_mut`. The closure gives back the record, what it has captured, and whether to
-- go on.
unfoldable pub update_records :
    {A : Type 0}
    → StdPath
    → (FileRecord → A → (FileRecord × A) × Bool)
    → InMemoryIndexInner
    → List CompactFileRecord
    → A
    → List CompactFileRecord × A
unfolding unpacked pack
update_records P f inner [] captured = ([], captured)
update_records P f inner (c ∷ cs) captured =
    let r = f (unpacked P inner c) captured in
    let rest = update_records P f inner cs r.0.1 in
    let compact = pack r.0.0 c.dir_id c.filename_id in
    if r.1 then (compact ∷ rest.0, rest.1) else (compact ∷ cs, r.0.1)

-- `for_each_mut`, from what the closure has captured before.
unfoldable pub for_each_mut :
    {A : Type 0}
    → StdPath
    → (FileRecord → A → (FileRecord × A) × Bool)
    → A
    → InMemoryIndexInner
    → A × InMemoryIndexInner
unfolding update_records
for_each_mut P f captured inner =
    let r = update_records P f inner inner.records captured in (r.1, record inner { records = r.0 })

-- `max_candidate_id`
unfoldable pub max_id : List CompactFileRecord → ℕ
max_id [] = 0
max_id (c ∷ cs) = let m = max_id cs in if ltb c.candidate_id m then m else c.candidate_id

unfoldable pub max_candidate_id : InMemoryIndexInner → ℕ
unfolding max_id
max_candidate_id inner = max_id inner.records

-- `targets.contains(text)`
unfoldable pub has_text : List Text → Text → Bool
unfolding text_eq
has_text [] s = false
has_text (t ∷ ts) s = let rest = has_text ts s in if text_eq t s then true else rest

-- What `retain` keeps in `remove_paths`.
unfoldable pub is_kept :
    Platform → StdPath → List Text → InMemoryIndexInner → CompactFileRecord → Bool
unfolding has_text path_key to_ascii_lowercase resolve_path
is_kept p P paths inner compact =
    not (has_text (map (path_key p) paths) (to_ascii_lowercase (resolve_path P inner compact)))

-- `remove_paths`: how many records it removed, and the index.
unfoldable pub remove_paths :
    Platform → StdPath → List Text → InMemoryIndexInner → ℕ × InMemoryIndexInner
unfolding is_kept keep_if
remove_paths p P [] inner = (0, inner)
remove_paths p P (path ∷ paths) inner =
    let kept = keep_if (is_kept p P (path ∷ paths) inner) inner.records in
    (length inner.records - length kept, record inner { records = kept })
