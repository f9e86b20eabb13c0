-- ===== src/Index/Memory/Removal.antt =====
-- core/infra/index-memory/src/lib.rs: which files `remove_paths` takes out of the index.
use file_reaper.Prelude.{
  suc, ◌+◌, ◌≤◌, ◌≡◌, refl, ap, sym, ◌∙◌, All, Bool, true, not, List, [], ◌∷◌, map, length, keep_if,
  arith, inl, inr, Bool-cases,
}
use file_reaper.Prelude.Text.{Text}
use file_reaper.Platform.{Platform}
use file_reaper.PathKey.{
  path_key, fold_case, to_ascii_lowercase, case_insensitive, normalize_separators,
}
use file_reaper.Index.Packing.{FileRecord, CompactFileRecord, unpack}
use file_reaper.Index.Memory.{
  StdPath, InMemoryIndexInner, resolve_path, unpacked, get_all, has_text, is_kept, remove_paths,
}

-- Its path is written with the separators of the platform.
abbrev pub IsNormal : Platform → FileRecord → Type 0
IsNormal p r = normalize_separators p r.path ≡ r.path

-- The file is not one of the paths, by the key under which the program compares paths.
unfoldable pub is_other : Platform → List Text → FileRecord → Bool
unfolding has_text path_key
is_other p paths r = not (has_text (map (path_key p) paths) (path_key p r.path))

map-keep_if :
    {A B : Type 0} (f : A → B) (p : A → Bool) (q : B → Bool) (xs : List A)
    → All (λ x. p x ≡ q (f x)) xs
    → map f (keep_if p xs) ≡ keep_if q (map f xs)
unfolding keep_if
map-keep_if f p q [] h = refl
map-keep_if f p q (x ∷ xs) h = elim (Bool-cases (p x)) [
  | inl kept ↦ (rw kept (rw (sym h.0 ∙ kept) (ap (λ l. f x ∷ l) (map-keep_if f p q xs h.1))))
  | inr left ↦ (rw left (rw (sym h.0 ∙ left) (map-keep_if f p q xs h.1)))
]

path_key-lower :
    (p : Platform) (s : Text)
    → case_insensitive p ≡ true
    → normalize_separators p s ≡ s
    → path_key p s ≡ to_ascii_lowercase s
unfolding path_key fold_case
path_key-lower p s insensitive normal = rw insensitive (ap to_ascii_lowercase normal)

is_kept-is_other :
    (p : Platform) (P : StdPath) (paths : List Text) (inner : InMemoryIndexInner)
    (c : CompactFileRecord)
    → case_insensitive p ≡ true
    → IsNormal p (unpacked P inner c)
    → is_kept p P paths inner c ≡ is_other p paths (unpacked P inner c)
unfolding is_kept is_other unpacked unpack
is_kept-is_other p P paths inner c insensitive normal =
    ap (λ t. not (has_text (map (path_key p) paths) t))
      (sym (path_key-lower p (resolve_path P inner c) insensitive normal))

keep_if-length : {A : Type 0} (p : A → Bool) (xs : List A) → length (keep_if p xs) ≤ length xs
unfolding keep_if
keep_if-length p [] = omega arith
keep_if-length p (x ∷ xs) = elim (Bool-cases (p x)) [
  | inl kept ↦ rw kept omega (arith, keep_if-length p xs)
  | inr left ↦ rw left omega (arith, keep_if-length p xs)
]

kept_others :
    (p : Platform) (P : StdPath) (paths : List Text) (inner : InMemoryIndexInner)
    (cs : List CompactFileRecord)
    → case_insensitive p ≡ true
    → All (IsNormal p) (map (unpacked P inner) cs)
    → All (λ c. is_kept p P paths inner c ≡ is_other p paths (unpacked P inner c)) cs
kept_others p P paths inner [] insensitive h = tt
kept_others p P paths inner (c ∷ cs) insensitive h = (
  is_kept-is_other p P paths inner c insensitive h.0,
  kept_others p P paths inner cs insensitive h.1,
)

keep_if-true :
    {A : Type 0} (p : A → Bool) (xs : List A) → ((x : A) → p x ≡ true) → keep_if p xs ≡ xs
unfolding keep_if
keep_if-true p [] h = refl
keep_if-true p (x ∷ xs) h = rw (h x) (ap (λ l. x ∷ l) (keep_if-true p xs h))

is_other-nil : (p : Platform) (r : FileRecord) → is_other p [] r ≡ true
unfolding is_other has_text
is_other-nil p r = refl

length-map : {A B : Type 0} (f : A → B) (xs : List A) → length (map f xs) ≡ length xs
length-map f [] = refl
length-map f (x ∷ xs) = ap suc (length-map f xs)

-- On a platform that does not tell upper from lower case, `remove_paths` leaves in the index exactly
-- the files that are none of the given paths by the platform's key of paths, in their order, and it
-- returns how many files are gone, when the paths in the index have the separators of the platform.
pub remove_paths-get_all :
    (p : Platform) (P : StdPath) (paths : List Text) (inner : InMemoryIndexInner)
    → case_insensitive p ≡ true
    → All (IsNormal p) (get_all P inner)
    → let r = remove_paths p P paths inner in
      (get_all P r.1 ≡ keep_if (is_other p paths) (get_all P inner))
      × (r.0 + length (get_all P r.1) ≡ length (get_all P inner))
unfolding remove_paths get_all unpacked
remove_paths-get_all p P [] inner insensitive h =
    (sym (keep_if-true (is_other p []) _ (is_other-nil p)), omega arith)
remove_paths-get_all p P (path ∷ paths) inner insensitive h =
    let kept = keep_if (is_kept p P (path ∷ paths) inner) inner.records in
    (
      map-keep_if (unpacked P inner) (is_kept p P (path ∷ paths) inner) (is_other p (path ∷ paths))
          inner.records (kept_others p P (path ∷ paths) inner inner.records insensitive h),
      omega (
        arith,
        keep_if-length (is_kept p P (path ∷ paths) inner) inner.records,
        length-map (unpacked P inner) inner.records,
        length-map (unpacked P inner) kept,
      ),
    )
