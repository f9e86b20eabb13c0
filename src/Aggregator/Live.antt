-- ===== src/Aggregator/Live.antt =====
-- `LiveTotals` against `Aggregator`: the totals during a scan agree with those of the whole index.
use file_reaper.Prelude.{
  ℕ, ◌≡◌, ◌∙◌, refl, ap, sym, inl, inr, Bool, false, ◌||◌, List, [], ◌∷◌, ◌++◌, arith, Bool-cases,
  ◌==◌, ==_iff, if◌then◌else◌,
}
use mathlib.Core.Path.{subst}
use mathlib.Core.List.{append-nil, append_assoc}
use file_reaper.Category.{uncategorized, eq_category}
use file_reaper.Aggregate.{CandidateContribution, contribution, summarize_unique}
use file_reaper.Aggregator.{
  FileRecord, primary, primaries, from_primary_records, upsert_contribution, ingest_primary,
}

abbrev has_contribution : List CandidateContribution → ℕ → Bool
has_contribution [] id = false
has_contribution (c ∷ cs) id = c.candidate_id == id || has_contribution cs id

-- Each candidate has one record.
abbrev pub has_record : List FileRecord → ℕ → Bool
has_record [] id = false
has_record (r ∷ rs) id = r.candidate_id == id || has_record rs id

abbrev pub HasDistinctCandidates : List FileRecord → Type 0
HasDistinctCandidates [] = Unit
HasDistinctCandidates (r ∷ rs) = (has_record rs r.candidate_id ≡ false) × HasDistinctCandidates rs

-- No record of the list is of a candidate that counts already.
abbrev IsUnseen : List CandidateContribution → List FileRecord → Type 0
IsUnseen live [] = Unit
IsUnseen live (r ∷ rs) = (has_contribution live r.candidate_id ≡ false) × IsUnseen live rs

upsert_contribution_of_new :
    (c : CandidateContribution) (live : List CandidateContribution)
    → has_contribution live c.candidate_id ≡ false
    → upsert_contribution c live ≡ live ++ c ∷ []
unfolding upsert_contribution
upsert_contribution_of_new c [] h = refl
upsert_contribution_of_new c (e ∷ es) h = ground (arith, h, upsert_contribution_of_new c es)

has_contribution-append :
    (live : List CandidateContribution) (c : CandidateContribution) (id : ℕ)
    → has_contribution (live ++ c ∷ []) id ≡ (has_contribution live id || c.candidate_id == id)
has_contribution-append [] c id = ground arith
has_contribution-append (e ∷ es) c id = ground (arith, has_contribution-append es c id)

IsUnseen-append :
    (live : List CandidateContribution) (c : CandidateContribution) (rs : List FileRecord)
    → has_record rs c.candidate_id ≡ false
    → IsUnseen live rs
    → IsUnseen (live ++ c ∷ []) rs
IsUnseen-append live c [] h u = tt
IsUnseen-append live c (r ∷ rs) h (u, us) = (
  ground (
    arith,
    has_contribution-append live c r.candidate_id,
    h,
    u,
    ==_iff c.candidate_id r.candidate_id,
    ==_iff r.candidate_id c.candidate_id,
  ),
  IsUnseen-append live c rs (ground (arith, h)) us,
)

primary-candidate : (r : FileRecord) → (primary r).candidate_id ≡ r.candidate_id
unfolding primary contribution
primary-candidate r = refl

module _ (r : FileRecord) (counts : eq_category r.category uncategorized ≡ false) where
  ingest_primary_of_counted :
      (rs : List FileRecord) (live : List CandidateContribution)
      → ingest_primary (r ∷ rs) live ≡ ingest_primary rs (upsert_contribution (primary r) live)
  unfolding ingest_primary
  ingest_primary_of_counted rs live =
      ap
        (λ b.
          if b
          then ingest_primary rs live
          else ingest_primary rs (upsert_contribution (primary r) live))
        counts

  primaries_of_counted : (rs : List FileRecord) → primaries (r ∷ rs) ≡ primary r ∷ primaries rs
  unfolding primaries
  primaries_of_counted rs = ap (λ b. if b then primaries rs else primary r ∷ primaries rs) counts

ingest_primary-append :
    (rs : List FileRecord) (live : List CandidateContribution)
    → HasDistinctCandidates rs
    → IsUnseen live rs
    → ingest_primary rs live ≡ live ++ primaries rs
unfolding ingest_primary primaries
ingest_primary-append [] live distinct unseen = sym (append-nil live)
ingest_primary-append (r ∷ rs) live distinct unseen =
    elim (Bool-cases (eq_category r.category uncategorized)) [
      | inl skipped ↦
          rw (skipped, ingest_primary, primaries)
            (ingest_primary-append rs live distinct.1 unseen.1)
      | inr counts ↦
          let same = primary-candidate r in
          ingest_primary_of_counted r counts rs live
          ∙ ap (ingest_primary rs) (
              upsert_contribution_of_new (primary r) live
                (subst (λ i. has_contribution live i ≡ false) (sym same) unseen.0))
          ∙ (ingest_primary-append rs (live ++ primary r ∷ []) distinct.1 (
                IsUnseen-append live (primary r) rs
                  (subst (λ i. has_record rs i ≡ false) (sym same) distinct.0) unseen.1)
              ∙ append_assoc live (primary r ∷ []) (primaries rs)
              ∙ ap (◌++◌ live) (sym (primaries_of_counted r counts rs)))
    ]

IsUnseen-of_none : (rs : List FileRecord) → IsUnseen [] rs
IsUnseen-of_none [] = tt
IsUnseen-of_none (r ∷ rs) = (refl, IsUnseen-of_none rs)

ingest_primary_append :
    (first second : List FileRecord) (live : List CandidateContribution)
    → ingest_primary second (ingest_primary first live) ≡ ingest_primary (first ++ second) live
unfolding ingest_primary
ingest_primary_append [] second live = refl
ingest_primary_append (r ∷ rs) second live =
    elim (Bool-cases (eq_category r.category uncategorized)) [
      | inl skipped ↦ rw (skipped, ingest_primary) (ingest_primary_append rs second live)
      | inr counts ↦
          ap (ingest_primary second) (ingest_primary_of_counted r counts rs live)
          ∙ ingest_primary_append rs second (upsert_contribution (primary r) live)
          ∙ sym (ingest_primary_of_counted r counts (rs ++ second) live)
    ]

-- When an index has one record for each candidate, the live totals that have taken in its records,
-- in any two batches, are the summary that `from_primary_records` makes of the whole index.
pub summary-ingest_primary :
    (first second : List FileRecord)
    → HasDistinctCandidates (first ++ second)
    → summarize_unique (ingest_primary second (ingest_primary first []))
      ≡ from_primary_records (first ++ second)
unfolding from_primary_records
summary-ingest_primary first second distinct = ap summarize_unique (
    ingest_primary_append first second []
    ∙ ingest_primary-append (first ++ second) [] distinct (IsUnseen-of_none (first ++ second)))
