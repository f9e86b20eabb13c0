-- ===== src/Aggregate/Bytes.antt =====
-- Sums of bytes by category: how one contribution raises them.
use file_reaper.Prelude.{
  ◌∙◌, ℕ, zero, suc, ◌+◌, ◌≤◌, ◌<◌, ◌≡◌, refl, ap, ◌⊎◌, inl, inr, some, List, [], ◌∷◌, All, length,
  arith, max_u64, saturating_add, Option-cases,
}
use file_reaper.Category.{CategoryId, mvp_index}
use file_reaper.Aggregate.{CategoryRollup, add, add_at, add_to_categories, bytes_of}

pub length-add_at : (i size : ℕ) (rs : List CategoryRollup) → length (add_at i size rs) ≡ length rs
unfolding add_at
length-add_at i size [] = refl
length-add_at zero size (r ∷ rs) = refl
length-add_at (suc i) size (r ∷ rs) = ap suc (length-add_at i size rs)

-- No sum of categories falls.
bytes_of-add_at_ge :
    (i size : ℕ) (rs : List CategoryRollup)
    → All (λ r. r.bytes ≤ max_u64) rs
    → bytes_of rs ≤ bytes_of (add_at i size rs)
unfolding add_at add bytes_of saturating_add
bytes_of-add_at_ge i size [] bound = omega arith
bytes_of-add_at_ge zero size (r ∷ rs) bound = ground (arith, bound.0)
bytes_of-add_at_ge (suc i) size (r ∷ rs) bound =
    ground (arith, bytes_of-add_at_ge i size rs bound.1)

-- A category of the array takes the whole size, or stands at the bound.
bytes_of-add_at :
    (i size : ℕ) (rs : List CategoryRollup)
    → i < length rs
    → All (λ r. r.bytes ≤ max_u64) rs
    → (bytes_of rs + size ≤ bytes_of (add_at i size rs)) ⊎ (max_u64 ≤ bytes_of (add_at i size rs))
unfolding add_at add bytes_of saturating_add
bytes_of-add_at i size [] inside bound = absurd (omega arith)
bytes_of-add_at zero size (r ∷ rs) inside bound = ground (arith, bound.0)
bytes_of-add_at (suc i) size (r ∷ rs) inside bound =
    ground (arith, bytes_of-add_at i size rs (omega arith) bound.1)

All-add_at :
    (i size : ℕ) (rs : List CategoryRollup)
    → All (λ r. r.bytes ≤ max_u64) rs
    → All (λ r. r.bytes ≤ max_u64) (add_at i size rs)
unfolding add_at add saturating_add
All-add_at i size [] bound = tt
All-add_at zero size (r ∷ rs) bound = (ground (arith, bound.0), bound.1)
All-add_at (suc i) size (r ∷ rs) bound = (bound.0, All-add_at i size rs bound.1)

pub All-add_to_categories :
    (size : ℕ) (cs : List CategoryId) (rs : List CategoryRollup)
    → All (λ r. r.bytes ≤ max_u64) rs
    → All (λ r. r.bytes ≤ max_u64) (add_to_categories size cs rs)
unfolding add_to_categories
All-add_to_categories size [] rs bound = bound
All-add_to_categories size (c ∷ cs) rs bound = elim (Option-cases (mvp_index c)) [
  | inl e ↦ rw (e, add_to_categories) (All-add_to_categories size cs rs bound)
  | inr (i, e) ↦
      rw (e, add_to_categories)
        (All-add_to_categories size cs (add_at i size rs) (All-add_at i size rs bound))
]

pub length-add_to_categories :
    (size : ℕ) (cs : List CategoryId) (rs : List CategoryRollup)
    → length (add_to_categories size cs rs) ≡ length rs
unfolding add_to_categories
length-add_to_categories size [] rs = refl
length-add_to_categories size (c ∷ cs) rs = elim (Option-cases (mvp_index c)) [
  | inl e ↦ rw (e, add_to_categories) (length-add_to_categories size cs rs)
  | inr (i, e) ↦
      rw (e, add_to_categories)
        (length-add_to_categories size cs (add_at i size rs) ∙ length-add_at i size rs)
]

mvp_index-bound : (c : CategoryId) (i : ℕ) → mvp_index c ≡ some i → i < 12
unfolding mvp_index
mvp_index-bound c i h = ground (arith, h)

bytes_of-add_to_categories_ge :
    (size : ℕ) (cs : List CategoryId) (rs : List CategoryRollup)
    → All (λ r. r.bytes ≤ max_u64) rs
    → bytes_of rs ≤ bytes_of (add_to_categories size cs rs)
unfolding add_to_categories
bytes_of-add_to_categories_ge size [] rs bound = omega arith
bytes_of-add_to_categories_ge size (c ∷ cs) rs bound = elim (Option-cases (mvp_index c)) [
  | inl e ↦ rw (e, add_to_categories) (bytes_of-add_to_categories_ge size cs rs bound)
  | inr (i, e) ↦
      rw (e, add_to_categories)
        (omega (
          arith,
          bytes_of-add_at_ge i size rs bound,
          bytes_of-add_to_categories_ge size cs (add_at i size rs) (All-add_at i size rs bound),
        ))
]

-- A category that the array has.
abbrev pub IsDetected : CategoryId → Type 0
IsDetected c = (i : ℕ) × (mvp_index c ≡ some i)

-- A contribution to one category at least raises the sum by its size, or the sum reaches the bound.
pub bytes_of-add_to_categories :
    (size : ℕ) (c : CategoryId) (cs : List CategoryId) (rs : List CategoryRollup)
    → IsDetected c
    → length rs ≡ 12
    → All (λ r. r.bytes ≤ max_u64) rs
    → let rs' = add_to_categories size (c ∷ cs) rs in
      (bytes_of rs + size ≤ bytes_of rs') ⊎ (max_u64 ≤ bytes_of rs')
unfolding add_to_categories
bytes_of-add_to_categories size c cs rs (i, e) whole bound =
    let next = add_at i size rs in
    let grows = bytes_of-add_to_categories_ge size cs next (All-add_at i size rs bound) in
    rw (e, add_to_categories)
      (ground (
        arith,
        bytes_of-add_at i size rs (omega (arith, mvp_index-bound c i e, whole)) bound,
        grows,
      ))
