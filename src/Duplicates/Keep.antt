-- ===== src/Duplicates/Keep.antt =====
-- `mark_duplicate_members` keeps exactly one file of a group.
use file_reaper.Prelude.{
  ℕ, ◌+◌, ◌≡◌, ◌≢◌, ◌∙◌, refl, inl, inr, Bool, true, false, ◌||◌, some, List, [], ◌∷◌, map, arith,
  Bool-cases, if◌then◌else◌, ◌==◌, ==_iff, ==_refl,
}
use file_reaper.Platform.{Platform}
use file_reaper.Duplicates.Marking.{
  KeepPolicy, DuplicateMemberRef, MarkedDuplicateMember, member_better, best_of, choose_keep_member,
  marked_as, insert_marked, sort_marked, mark_duplicate_members,
}

abbrev pub count_kept : List MarkedDuplicateMember → ℕ
count_kept [] = 0
count_kept (m ∷ ms) = (if m.keep then 1 else 0) + count_kept ms

abbrev pub has_id : List DuplicateMemberRef → ℕ → Bool
has_id [] id = false
has_id (m ∷ ms) id = m.candidate_id == id || has_id ms id

-- No two members are the same candidate.
abbrev pub IsDistinct : List DuplicateMemberRef → Type 0
IsDistinct [] = Unit
IsDistinct (m ∷ ms) = (has_id ms m.candidate_id ≡ false) × IsDistinct ms

count_kept-insert_marked :
    (m : MarkedDuplicateMember) (ms : List MarkedDuplicateMember)
    → count_kept (insert_marked m ms) ≡ count_kept (m ∷ ms)
unfolding insert_marked
count_kept-insert_marked m [] = refl
count_kept-insert_marked m (n ∷ ns) = ground (arith, count_kept-insert_marked m ns)

count_kept-sort_marked :
    (ms : List MarkedDuplicateMember) → count_kept (sort_marked ms) ≡ count_kept ms
unfolding sort_marked
count_kept-sort_marked [] = refl
count_kept-sort_marked (m ∷ ms) =
    ground (arith, count_kept-insert_marked m (sort_marked ms), count_kept-sort_marked ms)

count_kept-map :
    (id : ℕ) (ms : List DuplicateMemberRef)
    → IsDistinct ms
    → count_kept (map (marked_as id) ms) ≡ (if has_id ms id then 1 else 0)
unfolding marked_as
count_kept-map id [] h = refl
count_kept-map id (m ∷ ms) h =
    ground (arith, count_kept-map id ms h.1, h.0, ==_iff m.candidate_id id)

best_of-has_id :
    (p : Platform) (policy : KeepPolicy) (best : DuplicateMemberRef) (ms : List DuplicateMemberRef)
    → has_id (best ∷ ms) (DuplicateMemberRef.candidate_id (best_of p policy best ms)) ≡ true
unfolding best_of
best_of-has_id p policy best [] = ground (arith, ==_refl best.candidate_id)
best_of-has_id p policy best (m ∷ ms) = elim (Bool-cases (member_better p m best policy)) [
  | inl better ↦ rw (better, best_of) (ground (arith, best_of-has_id p policy m ms))
  | inr worse ↦ rw (worse, best_of) (ground (arith, best_of-has_id p policy best ms))
]

-- A group with a member, whose members are distinct candidates, is marked, and exactly one member is
-- marked as kept, whatever the policy.
pub mark_duplicate_members-keeps_one :
    (p : Platform) (ms : List DuplicateMemberRef) (policy : KeepPolicy)
    → ms ≢ []
    → IsDistinct ms
    → (out : List MarkedDuplicateMember) × (mark_duplicate_members p ms policy ≡ some out)
      × (count_kept out ≡ 1)
unfolding mark_duplicate_members choose_keep_member
mark_duplicate_members-keeps_one p [] policy some_member h = absurd (some_member refl)
mark_duplicate_members-keeps_one p (m ∷ ms) policy some_member h =
    let id = DuplicateMemberRef.candidate_id (best_of p policy m ms) in
    let marks = map (marked_as id) (m ∷ ms) in
    (
      sort_marked marks,
      refl,
      count_kept-sort_marked marks
          ∙ count_kept-map id (m ∷ ms) h
          ∙ rw (best_of-has_id p policy m ms) refl,
    )
