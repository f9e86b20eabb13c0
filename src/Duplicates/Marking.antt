-- ===== src/Duplicates/Marking.antt =====
-- core/domain/src/duplicates.rs: which file of a group is kept, by the policy.
use file_reaper.Prelude.{
  ℕ, ◌+◌, Bool, true, false, not, ◌&&◌, ◌||◌, Option, none, some, List, [], ◌∷◌, ◌++◌, map, length,
  ltb, leb, ◌==◌, keep_if, contains, if◌then◌else◌,
}
use file_reaper.Prelude.Int.{ℤ, leb_ℤ, eq_ℤ}
use file_reaper.Prelude.Text.{Text, codes, text_eq}
use file_reaper.Platform.{Platform, split_with}
use file_reaper.PathKey.{path_key, separator, to_ascii_lowercase}
use file_reaper.Quarantine.Destination.{digits_of}
use file_reaper.Duplicates.{HashGroup, potential_reclaim_bytes, text_lt}

pub data KeepPolicy : Type 0 where
  prefer_oldest_modified prefer_newest_modified prefer_outside_downloads : KeepPolicy
  prefer_shortest_path : KeepPolicy

pub data DuplicateRole : Type 0 where
  keep reap : DuplicateRole

pub record DuplicateMemberRef : Type 0 where
  pub candidate_id : ℕ
  pub path : Text
  pub modified_at : Option ℤ

pub record MarkedDuplicateMember : Type 0 where
  pub candidate_id : ℕ
  pub path : Text
  pub role : DuplicateRole
  pub keep : Bool

pub record MarkedDuplicateGroup : Type 0 where
  pub size : ℕ
  pub content_hash : Text
  pub members : List MarkedDuplicateMember
  pub keep_id : ℕ
  pub policy : KeepPolicy
  pub potential_reclaim_bytes : ℕ

-- `path.len()`, in bytes of UTF-8.
unfoldable pub utf8_length : Text → ℕ
utf8_length [] = 0
utf8_length (c ∷ s) =
    (if ltb c 128 then 1 else if ltb c 2048 then 2 else if ltb c 65536 then 3 else 4)
    + utf8_length s

unfoldable pub is_downloads_name : Text → Bool
unfolding text_eq to_ascii_lowercase
is_downloads_name segment =
    let name = to_ascii_lowercase segment in
    text_eq name (codes "downloads")
    || text_eq name (codes "download")
    || text_eq name (codes "завантаження")
    || text_eq name (codes "загрузки")

unfoldable pub any_downloads_name : List Text → Bool
unfolding is_downloads_name
any_downloads_name [] = false
any_downloads_name (segment ∷ segments) = is_downloads_name segment || any_downloads_name segments

unfoldable pub is_downloads_like_path : Platform → Text → Bool
unfolding any_downloads_name path_key separator split_with
is_downloads_like_path p path =
    any_downloads_name (split_with (λ c. c == separator p) (path_key p path))

unfoldable pub path_tie_break : DuplicateMemberRef → DuplicateMemberRef → Bool
unfolding to_ascii_lowercase text_lt text_eq
path_tie_break a b =
    let ap = to_ascii_lowercase a.path in
    let bp = to_ascii_lowercase b.path in
    if text_lt ap bp
    then true
    else if text_eq ap bp
    then ltb a.candidate_id b.candidate_id
    else false

unfoldable pub cmp_oldest_modified : DuplicateMemberRef → DuplicateMemberRef → Bool
unfolding path_tie_break leb_ℤ eq_ℤ
cmp_oldest_modified a b = elim a.modified_at [
  | some am ↦ elim b.modified_at [
    | some bm ↦ if not (eq_ℤ am bm) then not (leb_ℤ bm am) else path_tie_break a b
    | none ↦ true
  ]
  | none ↦ elim b.modified_at [ some bm ↦ false | none ↦ path_tie_break a b ]
]

unfoldable pub cmp_newest_modified : DuplicateMemberRef → DuplicateMemberRef → Bool
unfolding path_tie_break leb_ℤ eq_ℤ
cmp_newest_modified a b = elim a.modified_at [
  | some am ↦ elim b.modified_at [
    | some bm ↦ if not (eq_ℤ am bm) then not (leb_ℤ am bm) else path_tie_break a b
    | none ↦ true
  ]
  | none ↦ elim b.modified_at [ some bm ↦ false | none ↦ path_tie_break a b ]
]

unfoldable pub member_better :
    Platform → DuplicateMemberRef → DuplicateMemberRef → KeepPolicy → Bool
unfolding cmp_oldest_modified cmp_newest_modified is_downloads_like_path utf8_length path_tie_break
member_better p a b prefer_oldest_modified = cmp_oldest_modified a b
member_better p a b prefer_newest_modified = cmp_newest_modified a b
member_better p a b prefer_outside_downloads =
    if not (is_downloads_like_path p a.path) && is_downloads_like_path p b.path
    then true
    else if is_downloads_like_path p a.path && not (is_downloads_like_path p b.path)
    then false
    else cmp_oldest_modified a b
member_better p a b prefer_shortest_path =
    if not (utf8_length a.path == utf8_length b.path)
    then ltb (utf8_length a.path) (utf8_length b.path)
    else path_tie_break a b

-- The loop of `choose_keep_member`.
unfoldable pub best_of :
    Platform → KeepPolicy → DuplicateMemberRef → List DuplicateMemberRef → DuplicateMemberRef
unfolding member_better
best_of p policy best [] = best
best_of p policy best (m ∷ ms) =
    best_of p policy (if member_better p m best policy then m else best) ms

-- `choose_keep_member`: nothing on no members, where the source panics.
unfoldable pub choose_keep_member : Platform → List DuplicateMemberRef → KeepPolicy → Option ℕ
unfolding best_of
choose_keep_member p [] policy = none
choose_keep_member p (m ∷ ms) policy =
    some (DuplicateMemberRef.candidate_id (best_of p policy m ms))

unfoldable pub marked_as : ℕ → DuplicateMemberRef → MarkedDuplicateMember
marked_as keep_id m = record {
  candidate_id = m.candidate_id;
  path = m.path;
  role = if m.candidate_id == keep_id then DuplicateRole.keep else reap;
  keep = m.candidate_id == keep_id;
}

-- The order of `out.sort_by`: the kept one first, then the paths, then the identifiers.
unfoldable pub not_after : MarkedDuplicateMember → MarkedDuplicateMember → Bool
unfolding to_ascii_lowercase text_lt text_eq
not_after a b =
    let ap = to_ascii_lowercase a.path in
    let bp = to_ascii_lowercase b.path in
    if a.keep && not b.keep
    then true
    else if b.keep && not a.keep
    then false
    else if text_eq ap bp
    then leb a.candidate_id b.candidate_id
    else text_lt ap bp

unfoldable pub insert_marked :
    MarkedDuplicateMember → List MarkedDuplicateMember → List MarkedDuplicateMember
unfolding not_after
insert_marked m [] = m ∷ []
insert_marked m (n ∷ ns) = if not_after m n then m ∷ n ∷ ns else n ∷ insert_marked m ns

unfoldable pub sort_marked : List MarkedDuplicateMember → List MarkedDuplicateMember
unfolding insert_marked
sort_marked [] = []
sort_marked (m ∷ ms) = insert_marked m (sort_marked ms)

-- `mark_duplicate_members`
unfoldable pub mark_duplicate_members :
    Platform → List DuplicateMemberRef → KeepPolicy → Option (List MarkedDuplicateMember)
unfolding choose_keep_member marked_as sort_marked
mark_duplicate_members p members policy = elim (choose_keep_member p members policy) [
  | none ↦ none
  | some keep_id ↦ some (sort_marked (map (marked_as keep_id) members))
]

unfoldable pub find_member : ℕ → List DuplicateMemberRef → Option DuplicateMemberRef
find_member id [] = none
find_member id (m ∷ ms) = if m.candidate_id == id then some m else find_member id ms

-- `unwrap_or` of a member that is not found: its path is `#` and its number, of a `u64`.
unfoldable pub resolve_member : List DuplicateMemberRef → ℕ → DuplicateMemberRef
unfolding find_member digits_of
resolve_member refs id = elim (find_member id refs) [
  | some m ↦ m
  | none ↦ record { candidate_id = id; path = codes "#" ++ digits_of 20 id; modified_at = none }
]

unfoldable pub resolve_members : HashGroup → List DuplicateMemberRef → List DuplicateMemberRef
unfolding keep_if contains resolve_member
resolve_members group members =
    let filtered =
      keep_if (λ m. contains group.members (DuplicateMemberRef.candidate_id m)) members in
    if length filtered == length group.members
    then filtered
    else map (resolve_member filtered) group.members

unfoldable pub find_kept : ℕ → List MarkedDuplicateMember → ℕ
find_kept otherwise [] = otherwise
find_kept otherwise (m ∷ ms) = if m.keep then m.candidate_id else find_kept otherwise ms

-- `mark_content_hash_group`: nothing where the source panics, which is a group without members.
unfoldable pub mark_content_hash_group :
    Platform → HashGroup → List DuplicateMemberRef → KeepPolicy → Option MarkedDuplicateGroup
unfolding resolve_members mark_duplicate_members find_kept potential_reclaim_bytes
mark_content_hash_group p group members policy =
    elim (mark_duplicate_members p (resolve_members group members) policy) [
      | none ↦ none
      | some marked ↦ elim group.members [
        | [] ↦ none
        | first ∷ ids ↦ some (record {
          size = group.size;
          content_hash = group.hash;
          members = marked;
          keep_id = find_kept first marked;
          policy = policy;
          potential_reclaim_bytes = potential_reclaim_bytes group;
        })
      ]
    ]
