-- ===== src/Duplicates/Groups.antt =====
-- `group_by_partial_hash` and `group_by_content_hash` against a plain description of the groups.
use file_reaper.Prelude.{
  ℕ, ◌≤◌, ◌≡◌, ◌∙◌, ◌⊎◌, refl, ap, inl, inr, true, false, ◌&&◌, none, some, List, [], ◌∷◌, All,
  length, arith, Bool-cases, if◌then◌else◌, ltb, ◌==◌,
}
use file_reaper.Prelude.Text.{Text, text_eq, text_eq_iff}
use file_reaper.Duplicates.{
  HashKey, HashGroup, has_key, buckets, sort_ids, dedup, as_group, as_groups, precedes,
  insert_group, prioritize, group_by_hash,
}
use file_reaper.Duplicates.Members.{IsAscending, members-IsAscending, length-members}
use file_reaper.Duplicates.Buckets.{
  ids_of, bucket_of, OtherKey, HasDistinctKeys, IsNonempty, bucket_of-buckets, buckets-IsNonempty,
  buckets-HasDistinctKeys,
}

-- Identifiers, sorted, each once, unless there are fewer than two.
abbrev pub two_or_more : List ℕ → List ℕ
unfolding sort_ids dedup
two_or_more ids = if ltb (length (dedup (sort_ids ids))) 2 then [] else dedup (sort_ids ids)

-- What a group keeps of its bucket.
as_group-cases :
    (g : HashGroup)
    → ((as_group g ≡ none) × (two_or_more g.members ≡ []))
      ⊎ ((as_group g ≡ some (record g { members = two_or_more g.members }))
          × (2 ≤ length (two_or_more g.members))
          × IsAscending (two_or_more g.members))
unfolding as_group
as_group-cases g =
    let m = dedup (sort_ids g.members) in
    elim (Bool-cases (ltb (length m) 2)) [
      | inl few ↦ inl (ground (arith, few), ground (arith, few))
      | inr more ↦ inr (
        ground (arith, more, length-members g.members),
        ground (arith, more),
        rw more (members-IsAscending g.members),
      )
    ]

as_groups_of_none :
    (g : HashGroup) (gs : List HashGroup) → as_group g ≡ none → as_groups (g ∷ gs) ≡ as_groups gs
unfolding as_groups
as_groups_of_none g gs e = ground (arith, e)

as_groups_of_some :
    (g k : HashGroup) (gs : List HashGroup)
    → as_group g ≡ some k
    → as_groups (g ∷ gs) ≡ k ∷ as_groups gs
unfolding as_groups
as_groups_of_some g k gs e = ground (arith, e)

bucket_of_other :
    (g : HashGroup) (gs : List HashGroup) (size : ℕ) (hash : Text)
    → has_key size hash g ≡ true
    → All (OtherKey g) gs
    → bucket_of gs size hash ≡ []
unfolding has_key
bucket_of_other g [] size hash this h = refl
bucket_of_other g (k ∷ gs) size hash this h =
    ground (arith, bucket_of_other g gs size hash this h.1, this, h.0, text_eq_iff hash g.hash)

bucket_of-as_groups :
    (gs : List HashGroup) (size : ℕ) (hash : Text)
    → HasDistinctKeys gs
    → bucket_of (as_groups gs) size hash ≡ two_or_more (bucket_of gs size hash)
unfolding has_key as_groups
bucket_of-as_groups [] size hash h = refl
bucket_of-as_groups (g ∷ gs) size hash h =
    let rest = bucket_of-as_groups gs size hash h.1 in
    elim (Bool-cases (has_key size hash g)) [
      | inr that ↦ elim (as_group-cases g) [
        | inl (few, _) ↦ rw (as_groups_of_none g gs few, that) rest
        | inr (group, _, _) ↦ rw (as_groups_of_some g _ gs group, that) rest
      ]
      | inl this ↦ elim (as_group-cases g) [
        | inl (few, nothing) ↦
            rw (as_groups_of_none g gs few, this, nothing)
              (rw (bucket_of_other g gs size hash this h.0) at rest)
        | inr (group, _, _) ↦ rw (as_groups_of_some g _ gs group, this) refl
      ]
    ]

module _ (P : ℕ → Text → Type 0) where
  All-as_groups :
      (gs : List HashGroup)
      → All (λ g. P g.size g.hash) gs
      → All (λ g. P g.size g.hash) (as_groups gs)
  unfolding as_groups
  All-as_groups [] h = tt
  All-as_groups (g ∷ gs) h = elim (as_group-cases g) [
    | inl (few, _) ↦ rw (as_groups_of_none g gs few) (All-as_groups gs h.1)
    | inr (group, _, _) ↦ rw (as_groups_of_some g _ gs group) (h.0, All-as_groups gs h.1)
  ]

abbrev pub IsGroup : HashGroup → Type 0
IsGroup g = (2 ≤ length g.members) × IsAscending g.members

as_groups-IsGroup : (gs : List HashGroup) → All IsGroup (as_groups gs)
unfolding as_groups
as_groups-IsGroup [] = tt
as_groups-IsGroup (g ∷ gs) = elim (as_group-cases g) [
  | inl (few, _) ↦ rw (as_groups_of_none g gs few) (as_groups-IsGroup gs)
  | inr (group, two, ascending) ↦
      rw (as_groups_of_some g _ gs group) ((two, ascending), as_groups-IsGroup gs)
]

as_groups-HasDistinctKeys :
    (gs : List HashGroup) → HasDistinctKeys gs → HasDistinctKeys (as_groups gs)
unfolding has_key as_groups
as_groups-HasDistinctKeys [] h = tt
as_groups-HasDistinctKeys (g ∷ gs) h = elim (as_group-cases g) [
  | inl (few, _) ↦ rw (as_groups_of_none g gs few) (as_groups-HasDistinctKeys gs h.1)
  | inr (group, _, _) ↦ rw (as_groups_of_some g _ gs group) (
    All-as_groups (λ size hash. (g.size == size && text_eq g.hash hash) ≡ false) gs h.0,
    as_groups-HasDistinctKeys gs h.1,
  )
]

All-insert_group :
    (P : HashGroup → Type 0) (g : HashGroup) (gs : List HashGroup)
    → P g
    → All P gs
    → All P (insert_group g gs)
unfolding insert_group
All-insert_group P g [] p h = (p, tt)
All-insert_group P g (k ∷ gs) p h = elim (Bool-cases (precedes k g)) [
  | inl before ↦ rw (before, insert_group) (h.0, All-insert_group P g gs p h.1)
  | inr after ↦ rw (after, insert_group) (p, h)
]

All-prioritize : (P : HashGroup → Type 0) (gs : List HashGroup) → All P gs → All P (prioritize gs)
unfolding prioritize
All-prioritize P [] h = tt
All-prioritize P (g ∷ gs) h = All-insert_group P g (prioritize gs) h.0 (All-prioritize P gs h.1)

OtherKey-symm : (g k : HashGroup) → OtherKey g k → OtherKey k g
unfolding has_key
OtherKey-symm g k h = ground (arith, h, text_eq_iff g.hash k.hash, text_eq_iff k.hash g.hash)

insert_group-HasDistinctKeys :
    (g : HashGroup) (gs : List HashGroup)
    → All (OtherKey g) gs
    → HasDistinctKeys gs
    → HasDistinctKeys (insert_group g gs)
unfolding insert_group
insert_group-HasDistinctKeys g [] o h = (tt, tt)
insert_group-HasDistinctKeys g (k ∷ gs) o h = elim (Bool-cases (precedes k g)) [
  | inl before ↦
      rw (before, insert_group)
        (
          All-insert_group (OtherKey k) g gs (OtherKey-symm g k o.0) h.0,
          insert_group-HasDistinctKeys g gs o.1 h.1,
        )
  | inr after ↦ rw (after, insert_group) (o, h)
]

prioritize-HasDistinctKeys :
    (gs : List HashGroup) → HasDistinctKeys gs → HasDistinctKeys (prioritize gs)
unfolding prioritize
prioritize-HasDistinctKeys [] h = tt
prioritize-HasDistinctKeys (g ∷ gs) h =
    insert_group-HasDistinctKeys g (prioritize gs) (All-prioritize (OtherKey g) gs h.0)
      (prioritize-HasDistinctKeys gs h.1)

bucket_of-insert_group :
    (g : HashGroup) (gs : List HashGroup) (size : ℕ) (hash : Text)
    → All (OtherKey g) gs
    → bucket_of (insert_group g gs) size hash ≡ bucket_of (g ∷ gs) size hash
unfolding insert_group has_key
bucket_of-insert_group g [] size hash h = refl
bucket_of-insert_group g (k ∷ gs) size hash h = ground (
  arith,
  bucket_of-insert_group g gs size hash h.1,
  h.0,
  text_eq_iff hash g.hash,
  text_eq_iff hash k.hash,
  text_eq_iff g.hash k.hash,
)

bucket_of-prioritize :
    (gs : List HashGroup) (size : ℕ) (hash : Text)
    → HasDistinctKeys gs
    → bucket_of (prioritize gs) size hash ≡ bucket_of gs size hash
unfolding prioritize has_key
bucket_of-prioritize [] size hash h = refl
bucket_of-prioritize (g ∷ gs) size hash h = ground (
  arith,
  bucket_of-insert_group g (prioritize gs) size hash (All-prioritize (OtherKey g) gs h.0),
  bucket_of-prioritize gs size hash h.1,
)

-- For each hash and each size but 0, the group has the identifiers of exactly the files with this
-- size and this hash, sorted, each once. There is no group if there are fewer than two of them.
pub group_by_hash-members :
    (files : List HashKey) (size : ℕ) (hash : Text)
    → (size == 0) ≡ false
    → bucket_of (group_by_hash files) size hash ≡ two_or_more (ids_of files size hash)
unfolding group_by_hash
group_by_hash-members files size hash some_size =
    let gs = buckets files [] in
    let distinct = buckets-HasDistinctKeys files [] tt in
    bucket_of-prioritize (as_groups gs) size hash (as_groups-HasDistinctKeys gs distinct)
    ∙ bucket_of-as_groups gs size hash distinct
    ∙ ap two_or_more (bucket_of-buckets files [] size hash some_size)

-- No two groups have the same size and hash, no group has size 0, and each has at least two
-- members, in ascending order.
pub group_by_hash-HasDistinctKeys :
    (files : List HashKey)
    → HasDistinctKeys (group_by_hash files)
      × All IsNonempty (group_by_hash files)
      × All IsGroup (group_by_hash files)
unfolding group_by_hash
group_by_hash-HasDistinctKeys files =
    let gs = buckets files [] in
    let distinct = buckets-HasDistinctKeys files [] tt in
    (
      prioritize-HasDistinctKeys (as_groups gs) (as_groups-HasDistinctKeys gs distinct),
      All-prioritize IsNonempty (as_groups gs)
          (All-as_groups (λ size hash. (size == 0) ≡ false) gs (buckets-IsNonempty files [] tt)),
      All-prioritize IsGroup (as_groups gs) (as_groups-IsGroup gs),
    )
