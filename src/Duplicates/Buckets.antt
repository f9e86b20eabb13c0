-- ===== src/Duplicates/Buckets.antt =====
-- The buckets: what stands in the bucket of a key once the loop has read a list of files.
use file_reaper.Prelude.{
  ℕ, ◌≡◌, ◌∙◌, refl, sym, inl, inr, false, ◌&&◌, List, [], ◌∷◌, ◌++◌, All, arith, Bool-cases,
  if◌then◌else◌, ◌==◌,
}
use mathlib.Core.List.{append-nil, append_assoc}
use file_reaper.Prelude.Text.{Text, text_eq, text_eq_iff}
use file_reaper.Duplicates.{HashKey, HashGroup, has_key, push, buckets}

-- The identifiers of the files of a size and a hash, in their order.
abbrev pub ids_of : List HashKey → ℕ → Text → List ℕ
unfolding text_eq
ids_of [] size hash = []
ids_of (f ∷ fs) size hash =
    if size == f.size && text_eq hash f.hash
    then f.candidate_id ∷ ids_of fs size hash
    else ids_of fs size hash

-- The members of the first bucket of a key.
abbrev pub bucket_of : List HashGroup → ℕ → Text → List ℕ
bucket_of [] size hash = []
bucket_of (g ∷ gs) size hash = if has_key size hash g then g.members else bucket_of gs size hash

bucket_of-push :
    (f : HashKey) (gs : List HashGroup) (size : ℕ) (hash : Text)
    → bucket_of (push f gs) size hash ≡ (
        if size == f.size && text_eq hash f.hash
        then bucket_of gs size hash ++ f.candidate_id ∷ []
        else bucket_of gs size hash)
unfolding push has_key
bucket_of-push f [] size hash = ground arith
bucket_of-push f (g ∷ gs) size hash = ground (
  arith,
  bucket_of-push f gs size hash,
  text_eq_iff f.hash g.hash,
  text_eq_iff hash g.hash,
  text_eq_iff hash f.hash,
)

-- Two keys that differ.
abbrev pub OtherKey : HashGroup → HashGroup → Type 0
OtherKey g h = has_key g.size g.hash h ≡ false

abbrev pub HasDistinctKeys : List HashGroup → Type 0
HasDistinctKeys [] = Unit
HasDistinctKeys (g ∷ gs) = All (OtherKey g) gs × HasDistinctKeys gs

OtherKey-push :
    (g : HashGroup) (f : HashKey) (gs : List HashGroup)
    → has_key f.size f.hash g ≡ false
    → All (OtherKey g) gs
    → All (OtherKey g) (push f gs)
unfolding push has_key
OtherKey-push g f [] other h =
    (ground (arith, other, text_eq_iff g.hash f.hash, text_eq_iff f.hash g.hash), tt)
OtherKey-push g f (k ∷ gs) other h = elim (Bool-cases (has_key f.size f.hash k)) [
  | inl this ↦ rw (this, push) (h.0, h.1)
  | inr that ↦ rw (that, push) (h.0, OtherKey-push g f gs other h.1)
]

push-HasDistinctKeys :
    (f : HashKey) (gs : List HashGroup) → HasDistinctKeys gs → HasDistinctKeys (push f gs)
unfolding push
push-HasDistinctKeys f [] h = (tt, tt)
push-HasDistinctKeys f (g ∷ gs) h = elim (Bool-cases (has_key f.size f.hash g)) [
  | inl this ↦ rw (this, push) (h.0, h.1)
  | inr that ↦ rw (that, push) (OtherKey-push g f gs that h.0, push-HasDistinctKeys f gs h.1)
]

abbrev pub IsNonempty : HashGroup → Type 0
IsNonempty g = (g.size == 0) ≡ false

push-IsNonempty :
    (f : HashKey) (gs : List HashGroup)
    → (f.size == 0) ≡ false
    → All IsNonempty gs
    → All IsNonempty (push f gs)
unfolding push
push-IsNonempty f [] some_size h = (some_size, tt)
push-IsNonempty f (g ∷ gs) some_size h = elim (Bool-cases (has_key f.size f.hash g)) [
  | inl this ↦ rw (this, push) (h.0, h.1)
  | inr that ↦ rw (that, push) (h.0, push-IsNonempty f gs some_size h.1)
]

pub bucket_of-buckets :
    (fs : List HashKey) (gs : List HashGroup) (size : ℕ) (hash : Text)
    → (size == 0) ≡ false
    → bucket_of (buckets fs gs) size hash ≡ bucket_of gs size hash ++ ids_of fs size hash
unfolding buckets
bucket_of-buckets [] gs size hash some_size = sym (append-nil (bucket_of gs size hash))
bucket_of-buckets (f ∷ fs) gs size hash some_size = elim (Bool-cases (f.size == 0)) [
  | inl empty ↦
      rw (empty, buckets)
        (ground (arith, some_size, empty, bucket_of-buckets fs gs size hash some_size))
  | inr filled ↦
      rw (filled, buckets)
        (elim (Bool-cases (size == f.size && text_eq hash f.hash)) [
          | inl this ↦
              bucket_of-buckets fs (push f gs) size hash some_size
              ∙ rw (bucket_of-push f gs size hash, this)
                  (append_assoc (bucket_of gs size hash) (f.candidate_id ∷ [])
                    (ids_of fs size hash))
          | inr that ↦
              bucket_of-buckets fs (push f gs) size hash some_size
              ∙ rw (bucket_of-push f gs size hash, that) refl
        ])
]

pub buckets-IsNonempty :
    (fs : List HashKey) (gs : List HashGroup) → All IsNonempty gs → All IsNonempty (buckets fs gs)
unfolding buckets
buckets-IsNonempty [] gs h = h
buckets-IsNonempty (f ∷ fs) gs h = elim (Bool-cases (f.size == 0)) [
  | inl empty ↦ rw (empty, buckets) (buckets-IsNonempty fs gs h)
  | inr filled ↦
      rw (filled, buckets) (buckets-IsNonempty fs (push f gs) (push-IsNonempty f gs filled h))
]

pub buckets-HasDistinctKeys :
    (fs : List HashKey) (gs : List HashGroup) → HasDistinctKeys gs → HasDistinctKeys (buckets fs gs)
unfolding buckets
buckets-HasDistinctKeys [] gs h = h
buckets-HasDistinctKeys (f ∷ fs) gs h = elim (Bool-cases (f.size == 0)) [
  | inl empty ↦ rw (empty, buckets) (buckets-HasDistinctKeys fs gs h)
  | inr filled ↦
      rw (filled, buckets) (buckets-HasDistinctKeys fs (push f gs) (push-HasDistinctKeys f gs h))
]
