-- ===== src/Aggregate/Unique.antt =====
-- `summarize_unique` against a plain description: the first reclaimable contribution of each
-- candidate counts, once.
use file_reaper.Prelude.{
  ℕ, suc, ◌+◌, ◌≤◌, ◌≡◌, ◌∙◌, refl, ap, sym, inl, inr, Bool, true, false, not, ◌&&◌, List, [], ◌∷◌,
  length, keep_if, arith, max_u64, saturating_add, contains, Bool-cases, ◌==◌, ==_iff,
}
use file_reaper.Aggregate.{
  CandidateContribution, Tally, count_unique, tally_one, tally, is_reclaimable, summarize_unique,
  no_summary,
}

abbrev pub is_other : CandidateContribution → CandidateContribution → Bool
is_other c d = not (c.candidate_id == d.candidate_id)

-- The first contribution of each candidate.
abbrev pub first_of_each : List CandidateContribution → List CandidateContribution
unfolding keep_if
first_of_each [] = []
first_of_each (c ∷ cs) = c ∷ keep_if (is_other c) (first_of_each cs)

abbrev pub size_of : List CandidateContribution → ℕ
size_of [] = 0
size_of (c ∷ cs) = c.size + size_of cs

abbrev is_new : List ℕ → CandidateContribution → Bool
is_new seen c = not (contains seen c.candidate_id)

keep_if-keep_if :
    (p q r : CandidateContribution → Bool)
    → ((c : CandidateContribution) → (p c && q c) ≡ r c)
    → (cs : List CandidateContribution) → keep_if p (keep_if q cs) ≡ keep_if r cs
unfolding keep_if
keep_if-keep_if p q r same [] = refl
keep_if-keep_if p q r same (c ∷ cs) = ground (arith, same c, keep_if-keep_if p q r same cs)

is_new-known :
    (seen : List ℕ) (c d : CandidateContribution)
    → contains seen c.candidate_id ≡ true
    → (is_new seen d && is_other c d) ≡ is_new seen d
is_new-known seen c d known = elim (Bool-cases (c.candidate_id == d.candidate_id)) [
  | inl same ↦
      ground (arith, known, ap (contains seen) ((==_iff c.candidate_id d.candidate_id).0 same))
  | inr other ↦ ground (arith, other)
]

is_new-cons :
    (seen : List ℕ) (c d : CandidateContribution)
    → (is_new seen d && is_other c d) ≡ is_new (c.candidate_id ∷ seen) d
unfolding contains
is_new-cons seen c d = ground arith

abbrev bytes_after : Tally → List CandidateContribution → ℕ
bytes_after t cs =
    saturating_add t.summary.unique_bytes (size_of (keep_if (is_new t.seen) (first_of_each cs)))

abbrev files_after : Tally → List CandidateContribution → ℕ
files_after t cs =
    saturating_add t.summary.unique_files (length (keep_if (is_new t.seen) (first_of_each cs)))

keep_if-every : (cs : List CandidateContribution) → keep_if (is_new []) cs ≡ cs
unfolding keep_if contains
keep_if-every [] = refl
keep_if-every (c ∷ cs) = ap (◌∷◌ c) (keep_if-every cs)

saturating_add_zero : (a : ℕ) → a ≤ max_u64 → saturating_add a 0 ≡ a
unfolding saturating_add
saturating_add_zero a h = ground (arith, h)

saturating_add_assoc :
    (a b c : ℕ) → saturating_add (saturating_add a b) c ≡ saturating_add a (b + c)
unfolding saturating_add
saturating_add_assoc a b c = ground arith

saturating_add-suc : (a c : ℕ) → saturating_add (saturating_add a 1) c ≡ saturating_add a (suc c)
unfolding saturating_add
saturating_add-suc a c = ground arith

saturating_add-bound : (a b : ℕ) → saturating_add a b ≤ max_u64
unfolding saturating_add
saturating_add-bound a b = ground arith

firsts_of_known :
    (seen : List ℕ) (c : CandidateContribution) (cs : List CandidateContribution)
    → contains seen c.candidate_id ≡ true
    → keep_if (is_new seen) (first_of_each (c ∷ cs)) ≡ keep_if (is_new seen) (first_of_each cs)
unfolding keep_if
firsts_of_known seen c cs known =
    let later =
      keep_if-keep_if (is_new seen) (is_other c) (is_new seen) (λ d. is_new-known seen c d known)
        (first_of_each cs) in
    ground (arith, known, later)

firsts_of_new :
    (seen : List ℕ) (c : CandidateContribution) (cs : List CandidateContribution)
    → contains seen c.candidate_id ≡ false
    → keep_if (is_new seen) (first_of_each (c ∷ cs))
      ≡ c ∷ keep_if (is_new (c.candidate_id ∷ seen)) (first_of_each cs)
unfolding keep_if
firsts_of_new seen c cs new =
    let later =
      keep_if-keep_if (is_new seen) (is_other c) (is_new (c.candidate_id ∷ seen))
        (is_new-cons seen c) (first_of_each cs) in
    ground (arith, new, later)

tally_one_of_known :
    (c : CandidateContribution) (t : Tally)
    → is_reclaimable c ≡ true
    → contains t.seen c.candidate_id ≡ true
    → let u = tally_one c t in
      (u.summary.unique_bytes ≡ t.summary.unique_bytes)
      × (u.summary.unique_files ≡ t.summary.unique_files)
      × (u.seen ≡ t.seen)
unfolding tally_one count_unique
tally_one_of_known c t counts known = rw (counts, known) (refl, refl, refl)

tally_one_of_new :
    (c : CandidateContribution) (t : Tally)
    → is_reclaimable c ≡ true
    → contains t.seen c.candidate_id ≡ false
    → let u = tally_one c t in
      (u.summary.unique_bytes ≡ saturating_add t.summary.unique_bytes c.size)
      × (u.summary.unique_files ≡ saturating_add t.summary.unique_files 1)
      × (u.seen ≡ c.candidate_id ∷ t.seen)
unfolding tally_one count_unique
tally_one_of_new c t counts new = rw (counts, new) (refl, refl, refl)

tally-Unique :
    (cs : List CandidateContribution) (t : Tally)
    → t.summary.unique_bytes ≤ max_u64
    → t.summary.unique_files ≤ max_u64
    → let u = tally cs t in
      let counted = keep_if is_reclaimable cs in
      (u.summary.unique_bytes ≡ bytes_after t counted)
      × (u.summary.unique_files ≡ files_after t counted)
unfolding tally keep_if
tally-Unique [] t bytes files = (
  sym (saturating_add_zero t.summary.unique_bytes bytes),
  sym (saturating_add_zero t.summary.unique_files files),
)
tally-Unique (c ∷ cs) t bytes files = elim (Bool-cases (is_reclaimable c)) [
  | inr out ↦ rw (out, keep_if, tally, tally_one) (tally-Unique cs t bytes files)
  | inl counts ↦
      let rest = keep_if is_reclaimable cs in
      elim (Bool-cases (contains t.seen c.candidate_id)) [
        | inl known ↦
            let (b, f, s) = tally_one_of_known c t counts known in
            let h = tally-Unique cs (tally_one c t) (rw b bytes) (rw f files) in
            rw (counts, firsts_of_known t.seen c rest known) (rw (b, f, s) at h)
        | inr new ↦
            let (b, f, s) = tally_one_of_new c t counts new in
            let h =
              tally-Unique cs (tally_one c t)
                (rw b (saturating_add-bound t.summary.unique_bytes c.size))
                (rw f (saturating_add-bound t.summary.unique_files 1)) in
            rw (counts, firsts_of_new t.seen c rest new)
              (
                (rw (b, s) at h.0) ∙ saturating_add_assoc t.summary.unique_bytes c.size _,
                (rw (f, s) at h.1) ∙ saturating_add-suc t.summary.unique_files _,
              )
      ]
]

-- The unique bytes and files of a summary are the bytes and the number of the first contributions
-- of each candidate among the reclaimable ones, whatever categories they are in and however often
-- they occur. Both stop at 2 ^ 64 - 1.
pub summarize_unique-first_of_each :
    (cs : List CandidateContribution)
    → let counted = first_of_each (keep_if is_reclaimable cs) in
      ((summarize_unique cs).unique_bytes ≡ saturating_add 0 (size_of counted))
      × ((summarize_unique cs).unique_files ≡ saturating_add 0 (length counted))
unfolding summarize_unique
summarize_unique-first_of_each cs =
    let h =
      tally-Unique cs (record { summary = no_summary; seen = [] }) (omega arith) (omega arith) in
    rw keep_if-every at h
