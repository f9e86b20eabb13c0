-- ===== src/Index/Memory/Contents.antt =====
-- core/infra/index-memory/src/lib.rs: the index is a list of records, as far as packing keeps them.
use mathlib.Core.List.{append-nil, append_assoc}
use mathlib.Core.Path.{subst}
use file_reaper.Prelude.{◌≡◌, refl, ap, sym, ◌∙◌, All, some, List, [], ◌∷◌, ◌++◌, map}
use file_reaper.Prelude.Text.{Text}
use file_reaper.Index.Packing.{FileRecord, CompactFileRecord, pack, unpack}
use file_reaper.Index.Interner.{get_elem?, resolve}
use file_reaper.Index.Interner.Pool.{intern_pool}
use file_reaper.Index.Interner.Refinement.{
  Represents, Finds, Fits, intern-Represents, shrink-Represents, resolve-get_elem?,
}
use file_reaper.Index.Interner.Rebuild.{rebuild-Represents}
use file_reaper.Index.Memory.{
  StdPath, InMemoryIndexInner, or_empty, join, resolve_path, with_lookups, push_record,
  push_records, insert_batch, finish_indexing, unpacked, get_all,
}
use file_reaper.Index.Memory.Pools.{intern_pool-keeps, intern_pool-finds}
use file_reaper.Index.Memory.Growth.{intern_all, Fits-before}

-- The pools after records are added.
abbrev pub dirs_after : StdPath → List FileRecord → List Text → List Text
dirs_after P rs dirs = intern_all (map (λ r. P.parent r.path) rs) dirs

abbrev pub names_after : StdPath → List FileRecord → List Text → List Text
names_after P rs names = intern_all (map (λ r. P.file_name r.path) rs) names

-- A record that stands at a directory and a name of the two pools, and what it is unpacked to.
abbrev pub Stands : StdPath → List Text → List Text → CompactFileRecord → FileRecord → Type 0
Stands P dirs names c r =
    (dir : Text) × (name : Text) × (get_elem? dirs c.dir_id ≡ some dir)
    × (get_elem? names c.filename_id ≡ some name)
    × (unpack c (join P dir name) ≡ r)

abbrev pub Stand :
    StdPath → List Text → List Text → List CompactFileRecord → List FileRecord → Type 0
Stand P dirs names [] [] = Unit
Stand P dirs names (c ∷ cs) (r ∷ rs) = Stands P dirs names c r × Stand P dirs names cs rs
Stand P dirs names _ _ = ⊥

-- The index holds the records, with the strings of its two pools.
pub record Holds (P : StdPath) (dirs names : List Text) (rs : List FileRecord)
    (inner : InMemoryIndexInner) : Type 0 where
  pub dirs_pool : Represents dirs inner.dir_interner
  pub names_pool : Represents names inner.filename_interner
  pub stand : Stand P dirs names inner.records rs

unpacked-Stands :
    (P : StdPath) (dirs names : List Text) (inner : InMemoryIndexInner) (c : CompactFileRecord)
    (r : FileRecord)
    → Represents dirs inner.dir_interner
    → Represents names inner.filename_interner
    → Stands P dirs names c r
    → unpacked P inner c ≡ r
unfolding unpacked resolve_path
unpacked-Stands P dirs names inner c r d n (dir, name, at_dir, at_name, e) =
    ap
      (λ o.
        unpack c (join P (or_empty o) (or_empty (resolve inner.filename_interner c.filename_id))))
      (resolve-get_elem? dirs inner.dir_interner c.dir_id d ∙ at_dir)
    ∙ ap (λ o. unpack c (join P dir (or_empty o)))
        (resolve-get_elem? names inner.filename_interner c.filename_id n ∙ at_name)
    ∙ e

-- What `get_all` hands out is what the index holds.
pub get_all-Holds :
    {P : StdPath} {dirs names : List Text} {rs : List FileRecord} {inner : InMemoryIndexInner}
    → Holds P dirs names rs inner
    → get_all P inner ≡ rs
unfolding get_all
get_all-Holds {P} {dirs} {names} {rs} {inner} h = all inner.records rs h.stand
  where
    all :
        (cs : List CompactFileRecord) (rs : List FileRecord)
        → Stand P dirs names cs rs
        → map (unpacked P inner) cs ≡ rs
    all [] [] s = refl
    all [] (r ∷ rs) s = absurd s
    all (c ∷ cs) [] s = absurd s
    all (c ∷ cs) (r ∷ rs) s =
        ap (λ x. x ∷ map (unpacked P inner) cs)
          (unpacked-Stands P dirs names inner c r h.dirs_pool h.names_pool s.0)
        ∙ ap (λ l. r ∷ l) (all cs rs s.1)

-- A record that is added stands at the strings of its path, and the others stay where they are.
Stand-append :
    (P : StdPath) (dirs names : List Text) (cs : List CompactFileRecord) (rs : List FileRecord)
    (c : CompactFileRecord) (r : FileRecord) (d n : Text)
    → Stand P dirs names cs rs
    → Stands P (intern_pool d dirs).1 (intern_pool n names).1 c r
    → Stand P (intern_pool d dirs).1 (intern_pool n names).1 (cs ++ c ∷ []) (rs ++ r ∷ [])
Stand-append P dirs names [] [] c r d n s t = (t, tt)
Stand-append P dirs names [] (x ∷ rs) c r d n s t = absurd s
Stand-append P dirs names (x ∷ cs) [] c r d n s t = absurd s
Stand-append P dirs names (x ∷ cs) (y ∷ rs) c r d n s t = (
  (s.0.0, s.0.1, intern_pool-keeps d dirs _ _ s.0.2, intern_pool-keeps n names _ _ s.0.3, s.0.4),
  Stand-append P dirs names cs rs c r d n s.1 t,
)

-- An index that is ready for more records.
record IsReady (P : StdPath) (dirs names : List Text) (rs : List FileRecord)
    (inner : InMemoryIndexInner) : Type 0 where
  holds : Holds P dirs names rs inner
  dirs_found : Finds inner.dir_interner.lookup dirs
  names_found : Finds inner.filename_interner.lookup names

-- The parts of a path make the path again.
abbrev pub JoinsBack : StdPath → FileRecord → Type 0
JoinsBack P r = join P (P.parent r.path) (P.file_name r.path) ≡ r.path

-- A record without what packing loses.
unfoldable pub stored : FileRecord → FileRecord
unfolding pack unpack
stored r = unpack (pack r 0 0) r.path

push_record-IsReady :
    (P : StdPath) (dirs names : List Text) (rs : List FileRecord) (inner : InMemoryIndexInner)
    (r : FileRecord)
    → IsReady P dirs names rs inner
    → JoinsBack P r
    → Fits (intern_pool (P.parent r.path) dirs).1
    → Fits (intern_pool (P.file_name r.path) names).1
    → IsReady P
        (intern_pool (P.parent r.path) dirs).1
        (intern_pool (P.file_name r.path) names).1
        (rs ++ stored r ∷ [])
        (push_record P r inner)
unfolding push_record stored pack unpack
push_record-IsReady P dirs names rs inner r ready back fd fn =
    let d =
      intern-Represents dirs inner.dir_interner (P.parent r.path) ready.holds.dirs_pool
        ready.dirs_found fd in
    let n =
      intern-Represents names inner.filename_interner (P.file_name r.path) ready.holds.names_pool
        ready.names_found fn in
    let at_dir =
      ap (get_elem? (intern_pool (P.parent r.path) dirs).1) d.0
      ∙ intern_pool-finds (P.parent r.path) dirs in
    let at_name =
      ap (get_elem? (intern_pool (P.file_name r.path) names).1) n.0
      ∙ intern_pool-finds (P.file_name r.path) names in
    record {
      holds = record {
        dirs_pool = d.1;
        names_pool = n.1;
        stand =
            Stand-append P dirs names inner.records rs _ (stored r) _ _ ready.holds.stand
              (P.parent r.path, P.file_name r.path, at_dir, at_name, ap (unpack (pack r 0 0)) back);
      };
      dirs_found = d.2;
      names_found = n.2;
    }

push_records-IsReady :
    (P : StdPath) (dirs names : List Text) (rs more : List FileRecord) (inner : InMemoryIndexInner)
    → IsReady P dirs names rs inner
    → All (JoinsBack P) more
    → Fits (dirs_after P more dirs)
    → Fits (names_after P more names)
    → IsReady P
        (dirs_after P more dirs)
        (names_after P more names)
        (rs ++ map stored more)
        (push_records P more inner)
unfolding push_records intern_all
push_records-IsReady P dirs names rs [] inner ready back fd fn =
    subst (λ l. IsReady P dirs names l inner) (sym (append-nil rs)) ready
push_records-IsReady P dirs names rs (r ∷ more) inner ready back fd fn =
    let dirs' = (intern_pool (P.parent r.path) dirs).1 in
    let names' = (intern_pool (P.file_name r.path) names).1 in
    let index = push_record P r inner in
    let one =
      push_record-IsReady P dirs names rs inner r ready back.0
        (Fits-before (map (λ r. P.parent r.path) more) dirs' fd)
        (Fits-before (map (λ r. P.file_name r.path) more) names' fn) in
    subst
      (λ l.
        IsReady P (dirs_after P more dirs') (names_after P more names') l
          (push_records P more index))
      (append_assoc rs (stored r ∷ []) (map stored more))
      (push_records-IsReady P dirs' names' (rs ++ stored r ∷ []) more index one back.1 fd fn)

finish_indexing-Holds :
    {P : StdPath} {dirs names : List Text} {rs : List FileRecord} {inner : InMemoryIndexInner}
    → Holds P dirs names rs inner
    → Holds P dirs names rs (finish_indexing inner)
unfolding finish_indexing
finish_indexing-Holds {P} {dirs} {names} {rs} {inner} h = record {
  dirs_pool = shrink-Represents dirs inner.dir_interner h.dirs_pool;
  names_pool = shrink-Represents names inner.filename_interner h.names_pool;
  stand = h.stand;
}

-- Where an index holds a list of records, also after `finish_indexing` has emptied the lookups,
-- `insert_batch` of more records makes it hold the list with the stored form of each of them at the
-- end, in order, and `get_all` hands that list out; the paths of the new records are made of their
-- parent and their file name, and the strings of both pools still fit a `u32`.
pub insert_batch-Holds :
    {P : StdPath} {dirs names : List Text} {rs : List FileRecord} {inner : InMemoryIndexInner}
    (more : List FileRecord)
    → Holds P dirs names rs inner
    → All (JoinsBack P) more
    → Fits (dirs_after P more dirs)
    → Fits (names_after P more names)
    → let index = insert_batch P more (finish_indexing inner) in
      Holds P (dirs_after P more dirs) (names_after P more names) (rs ++ map stored more) index
      × (get_all P index ≡ get_all P inner ++ map stored more)
unfolding insert_batch with_lookups
insert_batch-Holds {P} {dirs} {names} {rs} {inner} more h back fd fn =
    let done = finish_indexing-Holds h in
    let d =
      rebuild-Represents dirs _ done.dirs_pool
        (Fits-before (map (λ r. P.parent r.path) more) dirs fd).1 in
    let n =
      rebuild-Represents names _ done.names_pool
        (Fits-before (map (λ r. P.file_name r.path) more) names fn).1 in
    let ready : IsReady P dirs names rs (with_lookups (finish_indexing inner)) = record {
      holds = record { dirs_pool = d.0; names_pool = n.0; stand = done.stand };
      dirs_found = d.1;
      names_found = n.1;
    } in
    let after =
      (push_records-IsReady P dirs names rs more (with_lookups (finish_indexing inner)) ready back
        fd fn).holds in
    (after, get_all-Holds after ∙ ap (λ l. l ++ map stored more) (sym (get_all-Holds h)))
