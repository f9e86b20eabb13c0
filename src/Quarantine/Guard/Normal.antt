-- ===== src/Quarantine/Guard/Normal.antt =====
-- `normalize_windows_path`: its loops end, and no separator is doubled or last in a normal form.
use file_reaper.Prelude.{
  ℕ, zero, suc, ◌≤◌, ◌<◌, ◌≡◌, refl, inl, inr, true, false, [], ◌∷◌, length, arith, Bool-cases,
}
use file_reaper.Prelude.Text.{Text}
use file_reaper.Quarantine.Guard.{has_doubled, replace_doubled, collapse}

length-replace_doubled_le : (sep : ℕ) (s : Text) → length (replace_doubled sep s) ≤ length s
unfolding replace_doubled
length-replace_doubled_le sep [] = omega arith
length-replace_doubled_le sep (a ∷ []) = omega arith
length-replace_doubled_le sep (a ∷ b ∷ s) =
    ground (arith, length-replace_doubled_le sep s, length-replace_doubled_le sep (b ∷ s))

-- A round of the loop shortens the text.
length-replace_doubled :
    (sep : ℕ) (s : Text) → has_doubled sep s ≡ true → length (replace_doubled sep s) < length s
unfolding replace_doubled has_doubled
length-replace_doubled sep [] h = absurd (ground (arith, h))
length-replace_doubled sep (a ∷ []) h = absurd (ground (arith, h))
length-replace_doubled sep (a ∷ b ∷ s) h =
    ground (arith, h, length-replace_doubled_le sep s, length-replace_doubled sep (b ∷ s))

-- As many rounds as the text has characters are enough: the loop has ended, and no two separators
-- stand side by side.
pub collapse-has_doubled :
    (fuel sep : ℕ) (s : Text) → length s ≤ fuel → has_doubled sep (collapse fuel sep s) ≡ false
unfolding collapse has_doubled
collapse-has_doubled zero sep [] enough = refl
collapse-has_doubled zero sep (a ∷ s) enough = absurd (omega arith)
collapse-has_doubled (suc fuel) sep s enough = elim (Bool-cases (has_doubled sep s)) [
  | inl again ↦
      let shorter = length-replace_doubled sep s again in
      rw (again, collapse)
        (collapse-has_doubled fuel sep (replace_doubled sep s) (omega (arith, shorter, enough)))
  | inr ended ↦ rw (ended, collapse) ended
]
