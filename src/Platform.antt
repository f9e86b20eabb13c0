-- ===== src/Platform.antt =====
-- The platform that the program is built for (`cfg!(windows)`, `cfg!(target_os = "macos")`), and
-- the parts of a path. UNC and verbatim prefixes of `std::path::Path` are not treated.
use file_reaper.Prelude.{
  ℕ, ◌≡◌, refl, Bool, true, false, not, ◌&&◌, ◌||◌, Option, none, some, List, [], ◌∷◌, ◌==◌, leb,
  keep_if, if◌then◌else◌,
}
use file_reaper.Prelude.Text.{Text, codes, text_eq}

pub data Platform : Type 0 where
  windows macos linux : Platform

-- `cfg!(windows)`
unfoldable pub is_windows : Platform → Bool
is_windows windows = true
is_windows _ = false

-- `char::is_ascii_alphabetic`
unfoldable pub is_ascii_alphabetic : ℕ → Bool
is_ascii_alphabetic c = (leb b'a' c && leb c b'z') || (leb b'A' c && leb c b'Z')

-- What `Path` takes for a separator.
unfoldable pub is_separator : Platform → ℕ → Bool
unfolding is_windows
is_separator p c = c == b'/' || (is_windows p && c == b'\\')

-- The parts between separators, the empty ones included.
unfoldable pub split_with : (ℕ → Bool) → Text → List Text
split_with is_sep [] = [] ∷ []
split_with is_sep (c ∷ s) = elim (split_with is_sep s) [
  | [] ↦ [] ∷ []
  | part ∷ parts ↦ if is_sep c then [] ∷ part ∷ parts else (c ∷ part) ∷ parts
]

unfoldable pub last_text : List Text → Option Text
last_text [] = none
last_text (t ∷ []) = some t
last_text (t ∷ u ∷ ts) = last_text (u ∷ ts)

without_drive : Platform → Text → Text
unfolding is_windows is_ascii_alphabetic
without_drive p (d ∷ c ∷ rest) =
    if is_windows p && is_ascii_alphabetic d && c == b':' then rest else d ∷ c ∷ rest
without_drive p s = s

-- `Path::file_name`
unfoldable pub file_name : Platform → Text → Option Text
unfolding is_separator split_with last_text keep_if text_eq without_drive
file_name p path =
    let parts =
      keep_if (λ t. not (text_eq t [] || text_eq t (codes ".")))
        (split_with (is_separator p) (without_drive p path)) in
    elim (last_text parts) [
      | none ↦ none
      | some name ↦ if text_eq name (codes "..") then none else some name
    ]

file_name_of_surrogate :
    file_name windows (codes "C:\\.trashradar\\quarantine\\7.bin") ≡ some (codes "7.bin")
unfolding file_name
file_name_of_surrogate = refl
