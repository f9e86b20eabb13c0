-- ===== src/Index/Interner/Pool.antt =====
-- What an interner promises: a list of strings without repetition, whose identifiers are their
-- positions.
use file_reaper.Prelude.{
  ℕ, ap, sym, ◌∙◌, suc, zero, ◌+◌, ◌-◌, ◌≡◌, refl, Bool, true, false, Option, none, some, List, [],
  ◌∷◌, ◌++◌, length, inl, inr, Bool-cases, arith, length-append, drop-append, take-append,
  if◌then◌else◌, take,
}
use mathlib.Core.Option
use mathlib.Core.Path.{subst}
use mathlib.Core.List.{append-nil, append_assoc}
use file_reaper.Prelude.Text.{Text, text_eq}
use file_reaper.Index.Interner.{get_elem?, resolve}

-- What `resolve` reads.
abbrev pub slice : List ℕ → Text → ℕ → Option Text
slice offsets buffer id = resolve (record { buffer = buffer; offsets = offsets; lookup = [] }) id

-- The first position of a string.
unfoldable pub index_of : Text → List Text → Option ℕ
unfolding text_eq
index_of s [] = none
index_of s (t ∷ ts) = if text_eq s t then some 0 else Option.map suc (index_of s ts)

-- To intern a string: its position, at the end where it is new.
unfoldable pub intern_pool : Text → List Text → ℕ × List Text
unfolding index_of
intern_pool s strings = elim (index_of s strings) [
  | some id ↦ (id, strings)
  | none ↦ (length strings, strings ++ s ∷ [])
]

-- No string of the second list stands in the first, or before itself.
abbrev pub IsFresh : List Text → List Text → Type 0
IsFresh seen [] = Unit
IsFresh seen (s ∷ ss) = (index_of s seen ≡ none) × IsFresh (seen ++ s ∷ []) ss

-- The strings in one buffer, and where each one ends.
unfoldable pub concat : List Text → Text
concat [] = []
concat (s ∷ ss) = s ++ concat ss

unfoldable pub ends : ℕ → List Text → List ℕ
ends start [] = []
ends start (s ∷ ss) = (start + length s) ∷ ends (start + length s) ss

-- Where a string stands that may come next.
abbrev pub or_next : Option ℕ → Bool → ℕ → Option ℕ
or_next (some id) same n = some id
or_next none same n = if same then some n else none

or_next-map :
    (o : Option ℕ) (b : Bool) (n : ℕ)
    → Option.map suc (or_next o b n) ≡ or_next (Option.map suc o) b (suc n)
or_next-map (some id) b n = refl
or_next-map none true n = refl
or_next-map none false n = refl

pub index_of-append :
    (s t : Text) (ss : List Text)
    → index_of s (ss ++ t ∷ []) ≡ or_next (index_of s ss) (text_eq s t) (length ss)
unfolding index_of
index_of-append s t [] = elim (Bool-cases (text_eq s t)) [ inl h ↦ rw h refl | inr h ↦ rw h refl ]
index_of-append s t (u ∷ ss) = elim (Bool-cases (text_eq s u)) [
  | inl here ↦ rw here refl
  | inr there ↦ rw there (
      ap (Option.map suc) (index_of-append s t ss)
      ∙ or_next-map (index_of s ss) (text_eq s t) (length ss))
]

pub IsFresh-append :
    (seen ss : List Text) (t : Text)
    → IsFresh seen ss
    → index_of t (seen ++ ss) ≡ none
    → IsFresh seen (ss ++ t ∷ [])
IsFresh-append seen [] t f h = (subst (λ l. index_of t l ≡ none) (append-nil seen) h, tt)
IsFresh-append seen (s ∷ ss) t f h = (
  f.0,
  IsFresh-append (seen ++ s ∷ []) ss t f.1
      (subst (λ l. index_of t l ≡ none) (sym (append_assoc seen (s ∷ []) ss)) h),
)

pub concat-append : (ss : List Text) (t : Text) → concat (ss ++ t ∷ []) ≡ concat ss ++ t
unfolding concat
concat-append [] t = append-nil t
concat-append (s ∷ ss) t =
    ap (λ l. s ++ l) (concat-append ss t) ∙ sym (append_assoc s (concat ss) t)

pub ends-append :
    (n : ℕ) (ss : List Text) (t : Text)
    → ends n (ss ++ t ∷ []) ≡ ends n ss ++ (n + length (concat ss ++ t)) ∷ []
unfolding ends concat
ends-append n [] t = refl
ends-append n (s ∷ ss) t =
    ap (λ l. (n + length s) ∷ l)
      (ends-append (n + length s) ss t
        ∙ ap (λ m. ends (n + length s) ss ++ m ∷ [])
            (omega
              (arith, ap length (append_assoc s (concat ss) t), length-append s (concat ss ++ t))))

pub length-ends : (n : ℕ) (ss : List Text) → length (ends n ss) ≡ length ss
unfolding ends
length-ends n [] = refl
length-ends n (s ∷ ss) = ap suc (length-ends (n + length s) ss)

-- What stands between two ends.
pub slice-ends :
    (n id : ℕ) (before : Text) (ss : List Text)
    → length before ≡ n
    → slice (n ∷ ends n ss) (before ++ concat ss) id ≡ get_elem? ss id
unfolding resolve ends concat get_elem?
slice-ends n zero before [] h = refl
slice-ends n (suc id) before [] h = refl
slice-ends n zero before (s ∷ ss) h = ap some (
    ap (take (n + length s - n)) (drop-append n before (s ++ concat ss) h)
    ∙ take-append (n + length s - n) s (concat ss) (omega arith))
slice-ends n (suc id) before (s ∷ ss) h =
    subst (λ b. slice ((n + length s) ∷ ends (n + length s) ss) b id ≡ get_elem? ss id)
      (append_assoc before s (concat ss))
      (slice-ends (n + length s) id (before ++ s) ss (omega (arith, length-append before s, h)))
