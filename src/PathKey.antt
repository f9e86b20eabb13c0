-- ===== src/PathKey.antt =====
-- core/domain/src/path_key.rs: the key by which paths are compared, by the rules of the platform.
use file_reaper.Prelude.{ℕ, ◌+◌, ◌≡◌, Bool, true, false, ◌&&◌, map, leb, ◌==◌, arith, if◌then◌else◌}
use file_reaper.Prelude.Text.{Text, text_eq}
use file_reaper.Platform.{Platform, windows, macos, linux, is_windows}

-- `SEPARATOR`
unfoldable pub separator : Platform → ℕ
unfolding is_windows
separator p = if is_windows p then b'\\' else b'/'

-- `CASE_INSENSITIVE`
unfoldable pub case_insensitive : Platform → Bool
case_insensitive windows = true
case_insensitive macos = true
case_insensitive linux = false

-- `char::to_ascii_lowercase`
unfoldable pub lower : ℕ → ℕ
lower c = if leb b'A' c && leb c b'Z' then c + 32 else c

unfoldable pub to_ascii_lowercase : Text → Text
unfolding lower
to_ascii_lowercase = map lower

-- `path.replace('/', "\\")`, of one character.
unfoldable pub as_separator : ℕ → ℕ
as_separator c = if c == b'/' then b'\\' else c

unfoldable pub normalize_separators : Platform → Text → Text
unfolding is_windows as_separator
normalize_separators p path = if is_windows p then map as_separator path else path

unfoldable pub fold_case : Platform → Text → Text
unfolding case_insensitive to_ascii_lowercase
fold_case p path = if case_insensitive p then to_ascii_lowercase path else path

unfoldable pub path_key : Platform → Text → Text
unfolding fold_case normalize_separators
path_key p path = fold_case p (normalize_separators p path)

-- `eq_ignore_ascii_case` compares the lower case of both.
unfoldable pub paths_equal : Platform → Text → Text → Bool
unfolding case_insensitive normalize_separators text_eq to_ascii_lowercase
paths_equal p a b =
    if case_insensitive p
    then text_eq (to_ascii_lowercase (normalize_separators p a))
        (to_ascii_lowercase (normalize_separators p b))
    else text_eq (normalize_separators p a) (normalize_separators p b)

-- Two paths are equal exactly when they have the same key.
pub paths_equal-path_key :
    (p : Platform) (a b : Text) → paths_equal p a b ≡ text_eq (path_key p a) (path_key p b)
unfolding paths_equal path_key fold_case
paths_equal-path_key p a b = ground arith
