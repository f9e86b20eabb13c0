-- ===== src/Tests/Guarding.antt =====
-- Examples for the guard.
use file_reaper.Prelude.{◌≡◌, ◌↔◌, refl, true, false, some, ◌∷◌, ◌++◌, arith}
use file_reaper.Prelude.Text.{Text, codes}
use file_reaper.Platform.{windows, linux}
use file_reaper.PathKey.{separator}
use file_reaper.Outcome.{ok, err, path_protected}
use file_reaper.Quarantine.Guard.{
  normalize_windows_path, windows_volume, unix_roots, path_is_under, validate, has_doubled,
  collapse,
}
use file_reaper.Quarantine.Guard.Normal.{collapse-has_doubled}
use file_reaper.Quarantine.Guard.Protected.{IsMovable, validate_lem, path_is_under-append}

validate_runs :
    (validate windows (windows_volume b'C') (codes "C:/Windows//System32/") ≡ err path_protected)
    × (validate windows (windows_volume b'C') (codes "C:\\Windowsill\\a") ≡ ok tt)
    × (validate windows (windows_volume b'C') (codes "\\\\server\\share") ≡ err path_protected)
    × (validate linux unix_roots (codes "/usr/bin") ≡ err path_protected)
    × (validate linux unix_roots (codes "/home/u/.cache") ≡ ok tt)
unfolding validate windows_volume unix_roots
validate_runs = (refl, refl, refl, refl, refl)

validate_lem_example : (validate windows (windows_volume b'C') (codes "C:\\a") ≡ ok tt) ↔ (
    (normalized : Text) × (normalize_windows_path windows (codes "C:\\a") ≡ some normalized)
    × IsMovable windows (windows_volume b'C') normalized)
validate_lem_example = validate_lem windows (windows_volume b'C') (codes "C:\\a")

path_is_under-append_example :
    path_is_under windows
      (codes "c:\\windows\\temp" ++ separator windows ∷ codes "a")
      (codes "c:\\windows")
    ≡ true
unfolding path_is_under
path_is_under-append_example =
    path_is_under-append windows (codes "c:\\windows\\temp") (codes "c:\\windows") (codes "a") refl

collapse-has_doubled_example : has_doubled b'/' (collapse 5 b'/' (codes "a///b")) ≡ false
collapse-has_doubled_example = collapse-has_doubled 5 b'/' (codes "a///b") (omega arith)
