-- ===== src/Delta/Counts.antt =====
-- core/app/src/usn_apply.rs: what the mutations of a plan are, and how they are counted.
use file_reaper.Prelude.{All, ℕ, ◌+◌, ◌%◌, ◌^◌, ◌≡◌, false, List, [], ◌∷◌, ◌++◌, arith}
use file_reaper.Prelude.Text.{Text}
use file_reaper.Platform.{Platform}
use file_reaper.PathKey.{normalize_separators}
use file_reaper.Quarantine.Guard.{is_under_service_directory}
use file_reaper.Delta.{IndexMutation, upsert, remove}
use file_reaper.Delta.Planning.{Planning}

-- The record stands for a path outside of the service directory.
abbrev pub IsCandidate : Platform → IndexMutation → Type 0
IsCandidate p (remove path) = Unit
IsCandidate p (upsert r) =
    (path : Text) × (is_under_service_directory p path ≡ false)
    × (r.path ≡ normalize_separators p path)

abbrev pub upserts : List IndexMutation → ℕ
upserts [] = 0
upserts (upsert r ∷ ms) = 1 + upserts ms
upserts (remove path ∷ ms) = upserts ms

abbrev pub removes : List IndexMutation → ℕ
removes [] = 0
removes (upsert r ∷ ms) = removes ms
removes (remove path ∷ ms) = 1 + removes ms

pub upserts-append : (xs ys : List IndexMutation) → upserts (xs ++ ys) ≡ upserts xs + upserts ys
upserts-append [] ys = omega arith
upserts-append (upsert r ∷ xs) ys = omega (arith, upserts-append xs ys)
upserts-append (remove path ∷ xs) ys = omega (arith, upserts-append xs ys)

pub removes-append : (xs ys : List IndexMutation) → removes (xs ++ ys) ≡ removes xs + removes ys
removes-append [] ys = omega arith
removes-append (upsert r ∷ xs) ys = omega (arith, removes-append xs ys)
removes-append (remove path ∷ xs) ys = omega (arith, removes-append xs ys)

pub All-append :
    (P : IndexMutation → Type 0) (xs : List IndexMutation) (m : IndexMutation)
    → All P xs
    → P m
    → All P (xs ++ m ∷ [])
All-append P [] m h g = (g, tt)
All-append P (x ∷ xs) m h g = (h.0, All-append P xs m h.1 g)

-- What holds of a plan, whose identifiers began at a number: its upserts are candidates, and its
-- statistics and its identifiers count its mutations, the identifiers as a `u64` does.
pub record IsPlan (p : Platform) (first : ℕ) (s : Planning) : Type 0 where
  pub candidates : All (IsCandidate p) s.mutations
  pub written : s.stats.created + s.stats.modified + s.stats.renamed ≡ upserts s.mutations
  pub gone : s.stats.deleted + s.stats.renamed ≡ removes s.mutations
  pub identifiers : s.next_candidate_id % 2 ^ 64 ≡ (first + upserts s.mutations) % 2 ^ 64
