-- ===== src/Duplicates.antt =====
-- core/domain/src/duplicates.rs: the groups that the three stages of the cascade form. The stages
-- share their code but for the hash, which the first stage does not have (it is empty there).
-- `HashMap` is a list of buckets in the order of insertion: the groups are sorted afterwards.
pub mod Members
pub mod Buckets
pub mod Groups
pub mod Marking
pub mod Keep
pub mod Confirmed
use file_reaper.Prelude.{
  ℕ, zero, suc, ◌+◌, ◌-◌, ◌*◌, ◌≡◌, Bool, true, false, not, ◌&&◌, ◌||◌, Option, none, some, List,
  [], ◌∷◌, ◌++◌, map, length, ltb, leb, ◌==◌, max_u64, if◌then◌else◌,
}
use file_reaper.Prelude.Text.{Text, text_eq}

-- The input of a stage: the bytes of the hash are a list.
pub record HashKey : Type 0 where
  pub candidate_id : ℕ
  pub size : ℕ
  pub hash : Text

pub record HashGroup : Type 0 where
  pub size : ℕ
  pub hash : Text
  pub members : List ℕ

-- The input and the groups of the first stage.
pub record SizeKey : Type 0 where
  pub candidate_id : ℕ
  pub size : ℕ

pub record ExactSizeGroup : Type 0 where
  pub size : ℕ
  pub members : List ℕ

-- `u64::saturating_mul`
unfoldable pub saturating_mul : ℕ → ℕ → ℕ
saturating_mul a b = if leb (a * b) max_u64 then a * b else max_u64

-- `potential_reclaim_bytes`
unfoldable pub potential_reclaim_bytes : HashGroup → ℕ
unfolding saturating_mul
potential_reclaim_bytes self = saturating_mul self.size (length self.members - 1)

unfoldable pub has_key : ℕ → Text → HashGroup → Bool
unfolding text_eq
has_key size hash g = size == g.size && text_eq hash g.hash

-- `buckets.entry((size, hash)).or_default().push(id)`
unfoldable pub push : HashKey → List HashGroup → List HashGroup
unfolding has_key
push f [] = record { size = f.size; hash = f.hash; members = f.candidate_id ∷ [] } ∷ []
push f (g ∷ gs) =
    if has_key f.size f.hash g
    then record g { members = g.members ++ f.candidate_id ∷ [] } ∷ gs
    else g ∷ push f gs

-- The loop that fills the buckets.
unfoldable pub buckets : List HashKey → List HashGroup → List HashGroup
unfolding push
buckets [] gs = gs
buckets (f ∷ fs) gs = if f.size == 0 then buckets fs gs else buckets fs (push f gs)

-- `sort_unstable_by_key(|id| id.0)`
unfoldable pub insert_id : ℕ → List ℕ → List ℕ
insert_id a [] = a ∷ []
insert_id a (b ∷ bs) = if leb a b then a ∷ b ∷ bs else b ∷ insert_id a bs

unfoldable pub sort_ids : List ℕ → List ℕ
unfolding insert_id
sort_ids [] = []
sort_ids (a ∷ as') = insert_id a (sort_ids as')

-- `dedup`
unfoldable pub dedup : List ℕ → List ℕ
dedup [] = []
dedup (a ∷ []) = a ∷ []
dedup (a ∷ b ∷ bs) = if a == b then dedup (b ∷ bs) else a ∷ dedup (b ∷ bs)

-- The closure of `filter_map`.
unfoldable pub as_group : HashGroup → Option HashGroup
unfolding sort_ids dedup
as_group g =
    if ltb (length g.members) 2
    then none
    else let members = dedup (sort_ids g.members) in
      if ltb (length members) 2 then none else some (record g { members = members })

unfoldable pub as_groups : List HashGroup → List HashGroup
unfolding as_group
as_groups [] = []
as_groups (g ∷ gs) = elim (as_group g) [ none ↦ as_groups gs | some h ↦ h ∷ as_groups gs ]

-- `a.hash.cmp(&b.hash)` is less.
unfoldable pub text_lt : Text → Text → Bool
text_lt [] [] = false
text_lt [] (b ∷ bs) = true
text_lt (a ∷ as') [] = false
text_lt (a ∷ as') (b ∷ bs) = ltb a b || (a == b && text_lt as' bs)

-- `members[0]`, of a group that has a member.
unfoldable pub first_member : HashGroup → ℕ
first_member g = elim g.members [ [] ↦ 0 | id ∷ ids ↦ id ]

-- `a` stands before `b` in the order of the groups.
unfoldable pub precedes : HashGroup → HashGroup → Bool
unfolding potential_reclaim_bytes text_eq text_lt first_member
precedes a b =
    if not (potential_reclaim_bytes a == potential_reclaim_bytes b)
    then ltb (potential_reclaim_bytes b) (potential_reclaim_bytes a)
    else if not (a.size == b.size)
    then ltb b.size a.size
    else if not (text_eq a.hash b.hash)
    then text_lt a.hash b.hash
    else ltb (first_member a) (first_member b)

-- `sort_unstable_by`
unfoldable pub insert_group : HashGroup → List HashGroup → List HashGroup
unfolding precedes
insert_group g [] = g ∷ []
insert_group g (h ∷ hs) = if precedes h g then h ∷ insert_group g hs else g ∷ h ∷ hs

unfoldable pub prioritize : List HashGroup → List HashGroup
unfolding insert_group
prioritize [] = []
prioritize (g ∷ gs) = insert_group g (prioritize gs)

-- `group_by_partial_hash`
unfoldable pub group_by_hash : List HashKey → List HashGroup
unfolding buckets as_groups prioritize
group_by_hash files = prioritize (as_groups (buckets files []))

-- `group_by_exact_size`
unfoldable pub group_by_exact_size : List SizeKey → List ExactSizeGroup
unfolding group_by_hash
group_by_exact_size files =
    map (λ g. record { size = g.size; members = g.members })
      (group_by_hash
        (map (λ f. record { candidate_id = f.candidate_id; size = f.size; hash = [] }) files))

-- `group_by_content_hash`, whose code is that of `group_by_partial_hash`.
unfoldable pub group_by_content_hash : List HashKey → List HashGroup
unfolding group_by_hash
group_by_content_hash files = group_by_hash files
