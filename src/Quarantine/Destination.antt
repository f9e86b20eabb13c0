-- ===== src/Quarantine/Destination.antt =====
-- core/domain/src/quarantine.rs: `restore_destination`, the path of each attempt to restore.
use file_reaper.Prelude.{
  ℕ, zero, suc, ◌+◌, ◌/◌, ◌%◌, ◌≡◌, refl, Bool, false, ◌||◌, [], ◌∷◌, ◌++◌, ◌==◌, ltb,
  if◌then◌else◌,
}
use file_reaper.Prelude.Text.{Text, codes}

-- `RESTORE_SUFFIX_MAX_ATTEMPTS`
abbrev pub restore_suffix_max_attempts : ℕ
restore_suffix_max_attempts = 100

-- The decimal digits of a number, below `10 ^ fuel`.
unfoldable pub digits_of : ℕ → ℕ → Text
digits_of zero n = []
digits_of (suc fuel) n =
    let rest = digits_of fuel (n / 10) in
    if ltb n 10 then (48 + n) ∷ [] else rest ++ (48 + n % 10) ∷ []

-- `{attempt}` of a `u32`, which has at most ten digits.
unfoldable pub decimal : ℕ → Text
unfolding digits_of
decimal n = digits_of 10 n

-- Both separators, on every platform.
unfoldable pub is_any_separator : ℕ → Bool
is_any_separator c = c == b'\\' || c == b'/'

unfoldable pub is_dot : ℕ → Bool
is_dot c = c == b'.'

unfoldable pub has : (ℕ → Bool) → Text → Bool
has p [] = false
has p (c ∷ s) = p c || has p s

-- `rfind(p)` and `split_at` behind what it found: the part that ends in the last match, and the rest.
unfoldable pub split_after_last : (ℕ → Bool) → Text → Text × Text
unfolding has
split_after_last p [] = ([], [])
split_after_last p (c ∷ s) =
    let r = split_after_last p s in if p c || has p s then (c ∷ r.0, r.1) else ([], c ∷ s)

-- `rfind(p)` and `split_at` in front of what it found.
unfoldable pub split_before_last : (ℕ → Bool) → Text → Text × Text
unfolding has
split_before_last p [] = ([], [])
split_before_last p (c ∷ s) =
    let r = split_before_last p s in
    if has p s then (c ∷ r.0, r.1) else if p c then ([], c ∷ s) else (c ∷ s, [])

-- The stem and the extension of a name. A dot in front is no extension.
unfoldable pub split_name : Text → Text × Text
unfolding split_before_last is_dot
split_name [] = ([], [])
split_name (c ∷ s) = let r = split_before_last is_dot s in (c ∷ r.0, r.1)

unfoldable pub suffix : ℕ → Text
unfolding decimal
suffix attempt =
    if attempt == 1
    then codes " (відновлено)"
    else codes " (відновлено " ++ decimal attempt ++ codes ")"

unfoldable pub restore_destination : Text → ℕ → Text
unfolding split_after_last split_name suffix is_any_separator
restore_destination original_path attempt =
    if attempt == 0
    then original_path
    else (let (directory, name) = split_after_last is_any_separator original_path in
        let (stem, extension) = split_name name in directory ++ stem ++ suffix attempt ++ extension)

restore_destination_runs :
    (restore_destination (codes "C:\\v\\clip.mp4") 0 ≡ codes "C:\\v\\clip.mp4")
    × (restore_destination (codes "C:\\v\\clip.mp4") 1 ≡ codes "C:\\v\\clip (відновлено).mp4")
    × (restore_destination (codes "/home/u.x/.gitignore") 12
        ≡ codes "/home/u.x/.gitignore (відновлено 12)")
    × (restore_destination (codes "a.tar.gz") 2 ≡ codes "a.tar (відновлено 2).gz")
unfolding restore_destination
restore_destination_runs = (refl, refl, refl, refl)
