-- ===== src/Aggregate/Honest.antt =====
-- `FreeableSummary::is_honest` of what `summarize_unique` returns.
use file_reaper.Prelude.{
  ◌∙◌, ℕ, ◌+◌, ◌^◌, ◌≤◌, ◌<◌, ◌≡◌, refl, inl, inr, true, false, List, [], ◌∷◌, ◌++◌, All, length,
  arith, max_u64, saturating_add, Bool-cases, Option-cases,
}
use file_reaper.Category.{CategoryId, uncategorized, mvp_index, eq_category, has_category}
use file_reaper.Aggregate.{
  Decision, CandidateContribution, contribution, distinct_categories, CategoryRollup, Tally,
  add_to_categories, bytes_of, count_unique, tally_one, tally, is_reclaimable, is_empty,
  summarize_unique, is_honest, no_summary,
}
use file_reaper.Aggregate.Bytes.{
  IsDetected, bytes_of-add_to_categories, All-add_to_categories, length-add_to_categories,
}

abbrev pub IsProper : CandidateContribution → Type 0
IsProper c = All IsDetected c.categories

-- What the loop keeps: the unique bytes are covered by the categories.
abbrev IsCovered : Tally → Type 0
IsCovered t =
    (t.summary.unique_bytes ≤ bytes_of t.summary.by_category)
    × (t.summary.unique_bytes ≤ max_u64)
    × (length t.summary.by_category ≡ 12)
    × All (λ r. r.bytes ≤ max_u64) t.summary.by_category

-- What one contribution makes of the two sums.
count_unique-bytes :
    (id size : ℕ) (t : Tally)
    → t.summary.unique_bytes ≤ max_u64
    → let u = count_unique id size t in
      (u.summary.unique_bytes ≤ t.summary.unique_bytes + size)
      × (u.summary.unique_bytes ≤ max_u64)
      × (u.summary.by_category ≡ t.summary.by_category)
unfolding count_unique saturating_add
count_unique-bytes id size t h = (ground (arith, h), ground (arith, h), ground arith)

covered_by_categories :
    (size before after : ℕ) (cs : List CategoryId) (rs : List CategoryRollup)
    → is_empty cs ≡ false
    → All IsDetected cs
    → length rs ≡ 12
    → All (λ r. r.bytes ≤ max_u64) rs
    → before ≤ bytes_of rs
    → after ≤ before + size
    → after ≤ max_u64
    → after ≤ bytes_of (add_to_categories size cs rs)
unfolding is_empty
covered_by_categories size before after [] rs some_category detected whole bound covered more
      bounded =
    absurd (ground arith)
covered_by_categories size before after (c ∷ cs) rs some_category detected whole bound covered more
      bounded =
    ground (arith, bytes_of-add_to_categories size c cs rs detected.0 whole bound)

is_reclaimable-has_category :
    (c : CandidateContribution) → is_reclaimable c ≡ true → is_empty c.categories ≡ false
unfolding is_reclaimable
is_reclaimable-has_category c h = ground (arith, h)

tally_one-IsCovered :
    (c : CandidateContribution) (t : Tally) → IsProper c → IsCovered t → IsCovered (tally_one c t)
unfolding tally_one
tally_one-IsCovered c t proper (covered, bounded, whole, bound) =
    elim (Bool-cases (is_reclaimable c)) [
      | inr out ↦ rw (out, tally_one) (covered, bounded, whole, bound)
      | inl counts ↦
          let (more, bounded', same) = count_unique-bytes c.candidate_id c.size t bounded in
          rw (counts, tally_one)
            (rw same (
              covered_by_categories c.size t.summary.unique_bytes _ c.categories
                  t.summary.by_category (is_reclaimable-has_category c counts) proper whole bound
                  covered more bounded',
              bounded',
              length-add_to_categories c.size c.categories t.summary.by_category ∙ whole,
              All-add_to_categories c.size c.categories t.summary.by_category bound,
            ))
    ]

tally-IsCovered :
    (cs : List CandidateContribution) (t : Tally)
    → All IsProper cs
    → IsCovered t
    → IsCovered (tally cs t)
unfolding tally
tally-IsCovered [] t proper covered = covered
tally-IsCovered (c ∷ cs) t proper covered =
    tally-IsCovered cs (tally_one c t) proper.1 (tally_one-IsCovered c t proper.0 covered)

-- If every contribution names detected categories only, and the bytes of the categories sum up to
-- less than 2 ^ 64, then the unique bytes of the summary are at most the sum of the categories:
-- `is_honest` holds, which `summarize_unique` asserts.
pub summarize_unique-is_honest :
    (cs : List CandidateContribution)
    → All IsProper cs
    → bytes_of (summarize_unique cs).by_category < 2 ^ 64
    → is_honest (summarize_unique cs) ≡ true
unfolding summarize_unique is_honest bytes_of
summarize_unique-is_honest cs proper small =
    let t = tally cs (record { summary = no_summary; seen = [] }) in
    let covered =
      tally-IsCovered cs (record { summary = no_summary; seen = [] }) proper
        (
          omega arith,
          omega arith,
          refl,
          (
            omega arith,
            (
              omega arith,
              (
                omega arith,
                (
                  omega arith,
                  (
                    omega arith,
                    (
                      omega arith,
                      (
                        omega arith,
                        (
                          omega arith,
                          (omega arith, (omega arith, (omega arith, (omega arith, tt)))),
                        ),
                      ),
                    ),
                  ),
                ),
              ),
            ),
          ),
        ) in
    ground (arith, covered.0, small)

IsDetected-of_mvp : (c : CategoryId) → eq_category c uncategorized ≡ false → IsDetected c
unfolding eq_category mvp_index
IsDetected-of_mvp c h = elim (Option-cases (mvp_index c)) [
  | inl e ↦ absurd (ground (arith, e, h))
  | inr found ↦ found
]

IsDetected-append :
    (cs : List CategoryId) (c : CategoryId)
    → All IsDetected cs
    → IsDetected c
    → All IsDetected (cs ++ c ∷ [])
IsDetected-append [] c h d = (d, tt)
IsDetected-append (b ∷ cs) c h d = (h.0, IsDetected-append cs c h.1 d)

distinct_categories-IsDetected :
    (cats cs : List CategoryId) → All IsDetected cats → All IsDetected (distinct_categories cats cs)
unfolding distinct_categories
distinct_categories-IsDetected cats [] h = h
distinct_categories-IsDetected cats (c ∷ cs) h = elim (Bool-cases (eq_category c uncategorized)) [
  | inl skipped ↦ rw (skipped, distinct_categories) (distinct_categories-IsDetected cats cs h)
  | inr mvp ↦ elim (Bool-cases (has_category cats c)) [
    | inl known ↦ rw (mvp, known, distinct_categories) (distinct_categories-IsDetected cats cs h)
    | inr new ↦
        rw (mvp, new, distinct_categories)
          (distinct_categories-IsDetected (cats ++ c ∷ []) cs
            (IsDetected-append cats c h (IsDetected-of_mvp c mvp)))
  ]
]

-- `CandidateContribution::new` keeps detected categories only.
pub contribution-IsProper :
    (id size : ℕ) (decision : Decision) (cs : List CategoryId)
    → IsProper (contribution id size decision cs)
unfolding contribution
contribution-IsProper id size decision cs = distinct_categories-IsDetected [] cs tt
