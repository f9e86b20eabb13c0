-- ===== src/Duplicates/Members.antt =====
-- The members of a group: sorted, without repetitions, and the same identifiers as before.
use file_reaper.Prelude.{
  ℕ, suc, ◌≤◌, ◌<◌, ◌≡◌, ◌∙◌, refl, ap, inl, inr, List, [], ◌∷◌, length, arith, contains,
  Bool-cases, ◌==◌, ==_iff, leb,
}
use file_reaper.Duplicates.{insert_id, sort_ids, dedup}

-- Ascending, where equal neighbours are allowed, and where they are not.
abbrev IsSorted : List ℕ → Type 0
IsSorted [] = Unit
IsSorted (a ∷ []) = Unit
IsSorted (a ∷ b ∷ bs) = (a ≤ b) × IsSorted (b ∷ bs)

abbrev pub IsAscending : List ℕ → Type 0
IsAscending [] = Unit
IsAscending (a ∷ []) = Unit
IsAscending (a ∷ b ∷ bs) = (a < b) × IsAscending (b ∷ bs)

insert_id-IsSorted : (a : ℕ) (bs : List ℕ) → IsSorted bs → IsSorted (insert_id a bs)
unfolding insert_id
insert_id-IsSorted a [] h = tt
insert_id-IsSorted a (b ∷ []) h = elim (Bool-cases (leb a b)) [
  | inl le ↦ rw (le, insert_id) (ground (arith, le), tt)
  | inr gt ↦ rw (gt, insert_id) (ground (arith, gt), tt)
]
insert_id-IsSorted a (b ∷ c ∷ cs) (bc, h) = elim (Bool-cases (leb a b)) [
  | inl le ↦ rw (le, insert_id) (ground (arith, le), (bc, h))
  | inr gt ↦
      let rest = insert_id-IsSorted a (c ∷ cs) h in
      elim (Bool-cases (leb a c)) [
        | inl below ↦ rw (gt, below, insert_id) (ground (arith, gt), rw (below, insert_id) at rest)
        | inr above ↦ rw (gt, above, insert_id) (bc, rw (above, insert_id) at rest)
      ]
]

sort_ids-IsSorted : (as' : List ℕ) → IsSorted (sort_ids as')
unfolding sort_ids
sort_ids-IsSorted [] = tt
sort_ids-IsSorted (a ∷ as') = insert_id-IsSorted a (sort_ids as') (sort_ids-IsSorted as')

contains-insert_id :
    (a : ℕ) (bs : List ℕ) (i : ℕ) → contains (insert_id a bs) i ≡ contains (a ∷ bs) i
unfolding contains insert_id
contains-insert_id a [] i = refl
contains-insert_id a (b ∷ bs) i = ground (arith, contains-insert_id a bs i)

contains-sort_ids : (as' : List ℕ) (i : ℕ) → contains (sort_ids as') i ≡ contains as' i
unfolding contains sort_ids
contains-sort_ids [] i = refl
contains-sort_ids (a ∷ as') i =
    ground (arith, contains-insert_id a (sort_ids as') i, contains-sort_ids as' i)

contains-dedup : (as' : List ℕ) (i : ℕ) → contains (dedup as') i ≡ contains as' i
unfolding contains dedup
contains-dedup [] i = refl
contains-dedup (a ∷ []) i = refl
contains-dedup (a ∷ b ∷ bs) i = ground (arith, contains-dedup (b ∷ bs) i, ==_iff a b)

-- Above a bound, strictly: what `dedup` makes of a sorted list.
abbrev IsAbove : ℕ → List ℕ → Type 0
IsAbove a [] = Unit
IsAbove a (b ∷ bs) = a < b

dedup-head : (b : ℕ) (bs : List ℕ) (a : ℕ) → a < b → IsSorted (b ∷ bs) → IsAbove a (dedup (b ∷ bs))
unfolding dedup
dedup-head b [] a lt h = lt
dedup-head b (c ∷ cs) a lt (bc, h) = elim (Bool-cases (b == c)) [
  | inl same ↦ rw (same, dedup) (dedup-head c cs a (omega (arith, lt, bc)) h)
  | inr other ↦ rw (other, dedup) lt
]

IsAscending-cons : (a : ℕ) (bs : List ℕ) → IsAbove a bs → IsAscending bs → IsAscending (a ∷ bs)
IsAscending-cons a [] h k = tt
IsAscending-cons a (b ∷ bs) h k = (h, k)

dedup-IsAscending : (as' : List ℕ) → IsSorted as' → IsAscending (dedup as')
unfolding dedup
dedup-IsAscending [] h = tt
dedup-IsAscending (a ∷ []) h = tt
dedup-IsAscending (a ∷ b ∷ bs) (ab, h) = elim (Bool-cases (a == b)) [
  | inl same ↦ rw (same, dedup) (dedup-IsAscending (b ∷ bs) h)
  | inr other ↦
      rw (other, dedup)
        (IsAscending-cons a (dedup (b ∷ bs)) (dedup-head b bs a (ground (arith, other, ab)) h)
          (dedup-IsAscending (b ∷ bs) h))
]

pub members-IsAscending : (as' : List ℕ) → IsAscending (dedup (sort_ids as'))
members-IsAscending as' = dedup-IsAscending (sort_ids as') (sort_ids-IsSorted as')

pub contains-members : (as' : List ℕ) (i : ℕ) → contains (dedup (sort_ids as')) i ≡ contains as' i
contains-members as' i = contains-dedup (sort_ids as') i ∙ contains-sort_ids as' i

length-insert_id : (a : ℕ) (bs : List ℕ) → length (insert_id a bs) ≡ suc (length bs)
unfolding insert_id
length-insert_id a [] = refl
length-insert_id a (b ∷ bs) = ground (arith, length-insert_id a bs)

length-sort_ids : (as' : List ℕ) → length (sort_ids as') ≡ length as'
unfolding sort_ids
length-sort_ids [] = refl
length-sort_ids (a ∷ as') = length-insert_id a (sort_ids as') ∙ ap suc (length-sort_ids as')

length-dedup : (as' : List ℕ) → length (dedup as') ≤ length as'
unfolding dedup
length-dedup [] = omega arith
length-dedup (a ∷ []) = omega arith
length-dedup (a ∷ b ∷ bs) = ground (arith, length-dedup (b ∷ bs))

pub length-members : (as' : List ℕ) → length (dedup (sort_ids as')) ≤ length as'
length-members as' = omega (arith, length-dedup (sort_ids as'), length-sort_ids as')
