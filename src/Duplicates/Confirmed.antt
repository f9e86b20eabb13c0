-- ===== src/Duplicates/Confirmed.antt =====
-- core/app/src/duplicates/keep_policy.rs: the marking of the groups that are confirmed.
use file_reaper.Prelude.{
  ℕ, suc, ◌≡◌, ◌≢◌, ◌∙◌, refl, ap, true, false, Option, none, some, List, [], ◌∷◌, ◌++◌, map,
  length, contains, keep_if, arith, ◌==◌, ==_refl, if◌then◌else◌,
}
use file_reaper.Prelude.Int.{ℤ}
use file_reaper.Prelude.Text.{Text, codes}
use file_reaper.Platform.{Platform}
use file_reaper.Quarantine.Destination.{digits_of}
use file_reaper.Duplicates.{HashGroup, potential_reclaim_bytes}
use file_reaper.Duplicates.Marking.{
  KeepPolicy, DuplicateMemberRef, MarkedDuplicateMember, MarkedDuplicateGroup,
  mark_content_hash_group, mark_duplicate_members, resolve_members, find_kept,
}
use file_reaper.Duplicates.Keep.{count_kept, has_id, IsDistinct, mark_duplicate_members-keeps_one}

-- What the marking reads of a `FileRecord`.
pub record FileRecord : Type 0 where
  pub candidate_id : ℕ
  pub path : Text
  pub modified_at : Option ℤ

-- `record_index_by_id`: the last record of a candidate counts.
unfoldable pub lookup_record : List FileRecord → ℕ → Option FileRecord
lookup_record [] id = none
lookup_record (r ∷ rs) id = elim (lookup_record rs id) [
  | some later ↦ some later
  | none ↦ if r.candidate_id == id then some r else none
]

-- `member_refs_from_records`
unfoldable pub member_ref : List FileRecord → ℕ → DuplicateMemberRef
unfolding lookup_record digits_of
member_ref records id = elim (lookup_record records id) [
  | some r ↦ record { candidate_id = id; path = r.path; modified_at = r.modified_at }
  | none ↦ record { candidate_id = id; path = codes "#" ++ digits_of 20 id; modified_at = none }
]

unfoldable pub member_refs_from_records : List FileRecord → List ℕ → List DuplicateMemberRef
unfolding member_ref
member_refs_from_records records = map (member_ref records)

-- `mark_group_with_records`
unfoldable pub mark_group_with_records :
    Platform → List FileRecord → KeepPolicy → HashGroup → Option MarkedDuplicateGroup
unfolding member_refs_from_records mark_content_hash_group
mark_group_with_records p records policy group =
    mark_content_hash_group p group (member_refs_from_records records group.members) policy

-- `mark_confirmed_groups`: nothing where the source panics.
unfoldable pub mark_confirmed_groups :
    Platform → List FileRecord → KeepPolicy → List HashGroup → Option (List MarkedDuplicateGroup)
unfolding mark_group_with_records
mark_confirmed_groups p records policy [] = some []
mark_confirmed_groups p records policy (g ∷ gs) =
    elim (mark_group_with_records p records policy g) [
      | none ↦ none
      | some marked ↦ elim (mark_confirmed_groups p records policy gs) [
        | none ↦ none
        | some rest ↦ some (marked ∷ rest)
      ]
    ]

member_ref-candidate :
    (records : List FileRecord) (id : ℕ) → (member_ref records id).candidate_id ≡ id
unfolding member_ref
member_ref-candidate records id = ground arith

abbrev pub HasDistinctMembers : List ℕ → Type 0
HasDistinctMembers [] = Unit
HasDistinctMembers (id ∷ ids) = (contains ids id ≡ false) × HasDistinctMembers ids

has_id-refs :
    (records : List FileRecord) (ids : List ℕ) (id : ℕ)
    → has_id (map (member_ref records) ids) id ≡ contains ids id
unfolding contains
has_id-refs records [] id = refl
has_id-refs records (i ∷ ids) id =
    ground (arith, member_ref-candidate records i, has_id-refs records ids id)

refs-IsDistinct :
    (records : List FileRecord) (ids : List ℕ)
    → HasDistinctMembers ids
    → IsDistinct (map (member_ref records) ids)
refs-IsDistinct records [] h = tt
refs-IsDistinct records (i ∷ ids) h = (
  ground (
    arith,
    h.0,
    has_id-refs records ids (member_ref records i).candidate_id,
    ap (contains ids) (member_ref-candidate records i),
  ),
  refs-IsDistinct records ids h.1,
)

-- The filter by the identifiers of the group keeps all members.
keep_if-refs :
    (records : List FileRecord) (all ids : List ℕ)
    → ((id : ℕ) → contains ids id ≡ true → contains all id ≡ true)
    → keep_if (λ m. contains all (DuplicateMemberRef.candidate_id m)) (map (member_ref records) ids)
      ≡ map (member_ref records) ids
unfolding keep_if contains
keep_if-refs records all [] h = refl
keep_if-refs records all (i ∷ ids) h =
    let here = h i (ground (arith, ==_refl i)) in
    ground (
      arith,
      here,
      ap (contains all) (member_ref-candidate records i),
      keep_if-refs records all ids (λ id k. h id (ground (arith, k))),
    )

length-map : (f : ℕ → DuplicateMemberRef) (ids : List ℕ) → length (map f ids) ≡ length ids
length-map f [] = refl
length-map f (i ∷ ids) = ap suc (length-map f ids)

resolve_members-refs :
    (records : List FileRecord) (g : HashGroup)
    → resolve_members g (map (member_ref records) g.members) ≡ map (member_ref records) g.members
unfolding resolve_members
resolve_members-refs records g =
    let all = keep_if-refs records g.members g.members (λ id k. k) in
    rw (all, length-map (member_ref records) g.members, ==_refl (length g.members)) refl

mark_content_hash_group_of_marked :
    (p : Platform) (g : HashGroup) (refs : List DuplicateMemberRef) (policy : KeepPolicy)
    (marked : List MarkedDuplicateMember) (members : List ℕ)
    → g.members ≡ members
    → members ≢ []
    → mark_duplicate_members p (resolve_members g refs) policy ≡ some marked
    → (out : MarkedDuplicateGroup) × (mark_content_hash_group p g refs policy ≡ some out)
      × (out.members ≡ marked)
unfolding mark_content_hash_group
mark_content_hash_group_of_marked p g refs policy marked [] is some_member e =
    absurd (some_member refl)
mark_content_hash_group_of_marked p g refs policy marked (first ∷ ids) is some_member e = (
  record {
    size = g.size;
    content_hash = g.hash;
    members = marked;
    keep_id = find_kept first marked;
    policy = policy;
    potential_reclaim_bytes = potential_reclaim_bytes g;
  },
  ground (arith, is, e),
  refl,
)

refs_of_member :
    (records : List FileRecord) (ids : List ℕ) → ids ≢ [] → map (member_ref records) ids ≢ []
refs_of_member records [] h e = h refl
refs_of_member records (i ∷ ids) h e = ground (arith, e)

-- A confirmed group whose members are distinct candidates, and which has one, is marked whatever
-- the records and the policy are, and exactly one of its members is marked as kept.
pub mark_group_with_records-keeps_one :
    (p : Platform) (records : List FileRecord) (policy : KeepPolicy) (g : HashGroup)
    → g.members ≢ []
    → HasDistinctMembers g.members
    → (out : MarkedDuplicateGroup) × (mark_group_with_records p records policy g ≡ some out)
      × (count_kept out.members ≡ 1)
unfolding mark_group_with_records
mark_group_with_records-keeps_one p records policy g some_member distinct =
    let refs = map (member_ref records) g.members in
    let (marked, marks, one) =
      mark_duplicate_members-keeps_one p refs policy (refs_of_member records g.members some_member)
        (refs-IsDistinct records g.members distinct) in
    let (out, is, same) =
      mark_content_hash_group_of_marked p g refs policy marked g.members refl some_member
        (ap (λ ms. mark_duplicate_members p ms policy) (resolve_members-refs records g) ∙ marks) in
    (out, is, ap count_kept same ∙ one)
