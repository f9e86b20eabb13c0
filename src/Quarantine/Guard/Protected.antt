-- ===== src/Quarantine/Guard/Protected.antt =====
-- `QuarantineGuard::validate`: what it accepts, and that what lies below a protected root is refused.
use mathlib.Core.Path.{subst}
use file_reaper.Prelude.{
  ◌≡◌, ◌↔◌, refl, ap, sym, inl, inr, true, false, none, some, List, [], ◌∷◌, ◌++◌, All, arith,
  Bool-cases, Option-cases, ==_refl,
}
use file_reaper.Prelude.Text.{Text, text_eq, text_eq_iff}
use file_reaper.Platform.{Platform}
use file_reaper.PathKey.{separator}
use file_reaper.Outcome.{ok}
use file_reaper.Quarantine.Guard.{
  ProtectedPathKind, QuarantineGuard, strip_prefix, is_below, path_is_under, normalize_windows_path,
  volume_root_prefix, find_root, classify_normalized, classify, validate,
}

-- The path is not a protected root and does not lie below one.
abbrev pub IsOutside : Platform → Text → Text × ProtectedPathKind → Type 0
IsOutside p normalized root = path_is_under p normalized root.0 ≡ false

-- A path of a volume, outside of every protected root.
abbrev pub IsMovable : Platform → QuarantineGuard → Text → Type 0
IsMovable p self normalized =
    ((prefix : Text) × (volume_root_prefix p normalized ≡ some prefix))
    × All (IsOutside p normalized) self.protected_roots

find_root-none :
    (p : Platform) (normalized : Text) (roots : List (Text × ProtectedPathKind))
    → (find_root p normalized roots ≡ none) ↔ All (IsOutside p normalized) roots
unfolding find_root
find_root-none p normalized [] = (λ _. tt, λ _. refl)
find_root-none p normalized ((root, kind) ∷ roots) =
    let rest = find_root-none p normalized roots in
    elim (Bool-cases (path_is_under p normalized root)) [
      | inl under ↦
          (λ h. absurd (ground (arith, under, h)), λ h. absurd (ground (arith, under, h.0)))
      | inr outside ↦ (
        λ h. (outside, rest.0 (ground (arith, outside, h))),
        λ h. ground (arith, outside, rest.1 h.1),
      )
    ]

-- The guard accepts a path exactly when it has a normal form, which stands on a volume and outside
-- of every protected root.
pub validate_lem :
    (p : Platform) (self : QuarantineGuard) (path : Text)
    → (validate p self path ≡ ok tt) ↔ (
        (normalized : Text) × (normalize_windows_path p path ≡ some normalized)
        × IsMovable p self normalized)
unfolding validate classify classify_normalized
validate_lem p self path = elim (Option-cases (normalize_windows_path p path)) [
  | inl none_left ↦
      (λ h. absurd (ground (arith, none_left, h)), λ h. absurd (ground (arith, none_left, h.1)))
  | inr (n, normal) ↦ elim (Option-cases (volume_root_prefix p n)) [
    | inl nowhere ↦ (
      λ h. absurd (ground (arith, normal, nowhere, h)),
      λ (m, e, (at, out)).
          let same : m ≡ n = ground (arith, normal, e) in
          absurd (ground (arith, nowhere, at.1, ap (volume_root_prefix p) same)),
    )
    | inr (prefix, somewhere) ↦ (
      λ h. (
        n,
        normal,
        (
          (prefix, somewhere),
          (find_root-none p n self.protected_roots).0 (ground (arith, normal, somewhere, h)),
        ),
      ),
      λ (m, e, (at, out)).
          let same : m ≡ n = ground (arith, normal, e) in
          let free = (find_root-none p n self.protected_roots).1 (rw same at out) in
          ground (arith, normal, somewhere, free),
    )
  ]
]

strip_prefix-append :
    (root path rest more : Text)
    → strip_prefix root path ≡ some rest
    → strip_prefix root (path ++ more) ≡ some (rest ++ more)
unfolding strip_prefix
strip_prefix-append [] path rest more h = ground (arith, h)
strip_prefix-append (a ∷ root) [] rest more h = absurd (ground (arith, h))
strip_prefix-append (a ∷ root) (c ∷ path) rest more h =
    ground (arith, h, strip_prefix-append root path rest more)

strip_prefix_refl : (root : Text) → strip_prefix root root ≡ some []
unfolding strip_prefix
strip_prefix_refl [] = refl
strip_prefix_refl (a ∷ root) = ground (arith, ==_refl a, strip_prefix_refl root)

-- What lies below a path that a root protects is protected by it too.
pub path_is_under-append :
    (p : Platform) (path root name : Text)
    → path_is_under p path root ≡ true
    → path_is_under p (path ++ separator p ∷ name) root ≡ true
unfolding path_is_under is_below
path_is_under-append p path root name h = elim (Bool-cases (text_eq path root)) [
  | inl same ↦
      let here =
        subst (λ s. strip_prefix root s ≡ some []) (sym ((text_eq_iff path root).0 same))
          (strip_prefix_refl root) in
      ground
        (arith, strip_prefix-append root path [] (separator p ∷ name) here, ==_refl (separator p))
  | inr other ↦ elim (Option-cases (strip_prefix root path)) [
    | inl elsewhere ↦ absurd (ground (arith, other, elsewhere, h))
    | inr (rest, below) ↦
        ground
          (arith, other, h, below, strip_prefix-append root path rest (separator p ∷ name) below)
  ]
]
