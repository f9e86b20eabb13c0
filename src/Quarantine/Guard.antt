-- ===== src/Quarantine/Guard.antt =====
-- core/domain/src/quarantine.rs: `QuarantineGuard`, the paths that are never moved.
pub mod Normal
pub mod Protected
use file_reaper.Prelude.{
  ℕ, zero, suc, ◌+◌, ◌≡◌, Bool, true, false, not, ◌&&◌, ◌||◌, Option, none, some, List, [], ◌∷◌,
  ◌++◌, map, length, take, leb, ◌==◌, if◌then◌else◌,
}
use file_reaper.Prelude.Text.{Text, codes, text_eq}
use file_reaper.Platform.{Platform, is_windows, is_ascii_alphabetic}
use file_reaper.PathKey.{separator, lower, normalize_separators, fold_case}
use file_reaper.Outcome.{Result, ok, err, invalid_argument, path_protected}

pub data ProtectedPathKind : Type 0 where
  system applications trash_radar unsupported_location : ProtectedPathKind

pub record QuarantineGuard : Type 0 where
  pub protected_roots : List (Text × ProtectedPathKind)

-- `SERVICE_DIRECTORY_NAME`
abbrev pub service_directory_name : Text
service_directory_name = codes ".trashradar"

-- `char::is_whitespace`
unfoldable pub is_whitespace : ℕ → Bool
is_whitespace c =
    (leb 9 c && leb c 13)
    || c == 32
    || c == 133
    || c == 160
    || c == 5760
    || (leb 8192 c && leb c 8202)
    || c == 8232
    || c == 8233
    || c == 8239
    || c == 8287
    || c == 12288

unfoldable pub trim_start : Text → Text
unfolding is_whitespace
trim_start [] = []
trim_start (c ∷ s) = let rest = trim_start s in if is_whitespace c then rest else c ∷ s

-- Without the last characters that have a property.
unfoldable pub trim_end_of : (ℕ → Bool) → Text → Text
trim_end_of p [] = []
trim_end_of p (c ∷ s) = elim (trim_end_of p s) [
  | [] ↦ if p c then [] else c ∷ []
  | d ∷ r ↦ c ∷ d ∷ r
]

-- `trim`
unfoldable pub trim : Text → Text
unfolding trim_start trim_end_of is_whitespace
trim s = trim_end_of is_whitespace (trim_start s)

unfoldable pub strip_prefix : Text → Text → Option Text
strip_prefix [] s = some s
strip_prefix (a ∷ as') [] = none
strip_prefix (a ∷ as') (c ∷ s) = let rest = strip_prefix as' s in if a == c then rest else none

-- `normalized.contains(&doubled)`
unfoldable pub has_doubled : ℕ → Text → Bool
has_doubled sep [] = false
has_doubled sep (a ∷ []) = false
has_doubled sep (a ∷ b ∷ s) = (a == sep && b == sep) || has_doubled sep (b ∷ s)

-- `normalized.replace(&doubled, &SEPARATOR.to_string())`
unfoldable pub replace_doubled : ℕ → Text → Text
replace_doubled sep [] = []
replace_doubled sep (a ∷ []) = a ∷ []
replace_doubled sep (a ∷ b ∷ s) =
    let skipped = replace_doubled sep s in
    let kept = replace_doubled sep (b ∷ s) in
    if a == sep && b == sep then sep ∷ skipped else a ∷ kept

-- The first `while` loop, on fuel.
unfoldable pub collapse : ℕ → ℕ → Text → Text
unfolding has_doubled replace_doubled
collapse zero sep s = s
collapse (suc fuel) sep s =
    let rest = collapse fuel sep (replace_doubled sep s) in if has_doubled sep s then rest else s

unfoldable pub without_verbatim_prefix : Platform → Text → Text
unfolding is_windows strip_prefix
without_verbatim_prefix p s =
    if is_windows p
    then elim (strip_prefix (codes "\\\\?\\") s) [ none ↦ s | some stripped ↦ stripped ]
    else s

unfoldable pub nonempty : Text → Option Text
nonempty [] = none
nonempty (c ∷ s) = some (c ∷ s)

-- Both `while` loops.
unfoldable pub tidy : Platform → Text → Text
unfolding collapse trim_end_of separator
tidy p s = trim_end_of (λ c. c == separator p) (collapse (length s) (separator p) s)

-- `normalize_windows_path`
unfoldable pub normalize_windows_path : Platform → Text → Option Text
unfolding trim normalize_separators fold_case nonempty without_verbatim_prefix tidy
normalize_windows_path p path = elim (nonempty (fold_case p (normalize_separators p (trim path)))) [
  | none ↦ none
  | some s ↦ nonempty (tidy p (without_verbatim_prefix p s))
]

-- Both versions of `volume_root_prefix`, and `drive_letter`.
unfoldable pub volume_root_prefix : Platform → Text → Option Text
unfolding is_windows is_ascii_alphabetic separator
volume_root_prefix p [] = none
volume_root_prefix p (a ∷ s) =
    if is_windows p
    then elim s [
      | [] ↦ none
      | b ∷ t ↦ elim t [
        | [] ↦ none
        | c ∷ u ↦
            if is_ascii_alphabetic a && b == b':' && c == b'\\' then some (a ∷ b ∷ c ∷ []) else none
      ]
    ]
    else if a == separator p
    then some (a ∷ [])
    else none

-- `path.starts_with(root) && path.as_bytes().get(root.len()) == Some(&separator)`
unfoldable pub is_below : Platform → Text → Text → Bool
unfolding strip_prefix separator
is_below p path root = elim (strip_prefix root path) [
  | none ↦ false
  | some rest ↦ elim rest [ [] ↦ false | c ∷ s ↦ c == separator p ]
]

unfoldable pub path_is_under : Platform → Text → Text → Bool
unfolding text_eq is_below
path_is_under p path root = text_eq path root || is_below p path root

-- `is_under_service_directory`
unfoldable pub is_under_service_directory : Platform → Text → Bool
unfolding normalize_windows_path volume_root_prefix path_is_under
is_under_service_directory p path = elim (normalize_windows_path p path) [
  | none ↦ false
  | some normalized ↦ elim (volume_root_prefix p normalized) [
    | none ↦ false
    | some root ↦ path_is_under p normalized (root ++ service_directory_name)
  ]
]

abbrev on_drive : ℕ → ProtectedPathKind → List Text → List (Text × ProtectedPathKind)
on_drive drive kind names = map (λ name. (drive ∷ codes ":\\" ++ name, kind)) names

-- `QuarantineGuard::windows_volume`
unfoldable pub windows_volume : ℕ → QuarantineGuard
unfolding is_ascii_alphabetic lower
windows_volume volume =
    if not (is_ascii_alphabetic volume) then record { protected_roots = [] } else record {
      protected_roots =
          on_drive (lower volume) system (
            codes "windows"
            ∷ codes "programdata"
            ∷ codes "$recycle.bin"
            ∷ codes "system volume information"
            ∷ codes "recovery"
            ∷ [])
          ++ on_drive (lower volume) applications
              (codes "program files" ∷ codes "program files (x86)" ∷ [])
          ++ on_drive (lower volume) trash_radar (service_directory_name ∷ []);
    }

-- `QuarantineGuard::unix_roots`
unfoldable pub unix_roots : QuarantineGuard
unix_roots = record {
  protected_roots =
      map (λ root. (root, system))
        (codes "/bin"
          ∷ codes "/sbin"
          ∷ codes "/boot"
          ∷ codes "/dev"
          ∷ codes "/etc"
          ∷ codes "/lib"
          ∷ codes "/lib32"
          ∷ codes "/lib64"
          ∷ codes "/proc"
          ∷ codes "/run"
          ∷ codes "/sys"
          ∷ codes "/usr"
          ∷ codes "/var"
          ∷ codes "/system"
          ∷ codes "/private"
          ∷ codes "/library"
          ∷ codes "/volumes"
          ∷ [])
      ++ map (λ root. (root, applications))
          (codes "/applications" ∷ codes "/opt" ∷ codes "/snap" ∷ [])
      ++ (codes "/" ++ service_directory_name, trash_radar) ∷ [];
}

-- `QuarantineGuard::for_current_platform`
unfoldable pub for_current_platform : Platform → ℕ → QuarantineGuard
unfolding is_windows windows_volume unix_roots
for_current_platform p volume = if is_windows p then windows_volume volume else unix_roots

unfoldable pub own_roots : Platform → List Text → List (Text × ProtectedPathKind)
unfolding normalize_windows_path
own_roots p [] = []
own_roots p (root ∷ roots) = elim (normalize_windows_path p root) [
  | none ↦ own_roots p roots
  | some path ↦ (path, trash_radar) ∷ own_roots p roots
]

-- `QuarantineGuard::with_trashradar_roots`
unfoldable pub with_trashradar_roots : Platform → QuarantineGuard → List Text → QuarantineGuard
unfolding own_roots
with_trashradar_roots p self roots = record {
  protected_roots = self.protected_roots ++ own_roots p roots;
}

-- `find_map` of `classify`.
unfoldable pub find_root :
    Platform → Text → List (Text × ProtectedPathKind) → Option ProtectedPathKind
unfolding path_is_under
find_root p normalized [] = none
find_root p normalized ((root, kind) ∷ roots) =
    if path_is_under p normalized root then some kind else find_root p normalized roots

-- `classify` of a path that is normalised.
unfoldable pub classify_normalized : Platform → QuarantineGuard → Text → Option ProtectedPathKind
unfolding volume_root_prefix find_root
classify_normalized p self normalized = elim (volume_root_prefix p normalized) [
  | none ↦ some unsupported_location
  | some root ↦ find_root p normalized self.protected_roots
]

-- `QuarantineGuard::classify`
unfoldable pub classify : Platform → QuarantineGuard → Text → Option ProtectedPathKind
unfolding normalize_windows_path classify_normalized
classify p self candidate_path = elim (normalize_windows_path p candidate_path) [
  | none ↦ none
  | some normalized ↦ classify_normalized p self normalized
]

-- `QuarantineGuard::validate`
unfoldable pub validate : Platform → QuarantineGuard → Text → Result (Unit {0})
unfolding normalize_windows_path classify
validate p self candidate_path = elim (normalize_windows_path p candidate_path) [
  | none ↦ err invalid_argument
  | some _ ↦ elim (classify p self candidate_path) [ none ↦ ok tt | some kind ↦ err path_protected ]
]
