-- ===== src/Index/Interner/Refinement.antt =====
-- core/infra/index-memory/src/lib.rs: `PathInterner` is a pool of strings without repetition.
use mathlib.Core.Path.{subst}
use file_reaper.Prelude.{
  ℕ, ◌+◌, ◌^◌, ◌<◌, ◌≡◌, refl, ap, sym, ◌∙◌, false, Option, none, some, List, [], ◌∷◌, ◌++◌, length,
  ◌⊎◌, inl, inr, Bool-cases, Option-cases, arith, length-append,
}
use file_reaper.Prelude.Text.{Text, text_eq, text_eq→≡}
use file_reaper.Index.Interner.{
  PathInterner, Lookup, new, get, as_u32, len, push, intern, get_elem?, resolve, shrink_to_fit,
}
use file_reaper.Index.Interner.Pool.{
  index_of, intern_pool, IsFresh, concat, ends, or_next, index_of-append, IsFresh-append,
  concat-append, ends-append, length-ends, slice, slice-ends,
}

-- The lookup gives the position of every string.
abbrev pub Finds : Lookup → List Text → Type 0
Finds lookup strings = (s : Text) → get s lookup ≡ index_of s strings

pub record Represents (strings : List Text) (i : PathInterner) : Type 0 where
  pub buffer : i.buffer ≡ concat strings
  pub offsets : i.offsets ≡ 0 ∷ ends 0 strings
  pub fresh : IsFresh [] strings
  pub lookup : (i.lookup ≡ []) ⊎ Finds i.lookup strings

-- Identifiers and offsets are `u32`.
abbrev pub Fits : List Text → Type 0
Fits strings = (length (concat strings) < 2 ^ 32) × (length strings < 2 ^ 32)

-- What an identifier resolves to is the string at that position, or nothing.
pub resolve-get_elem? :
    (strings : List Text) (i : PathInterner) (id : ℕ)
    → Represents strings i
    → resolve i id ≡ get_elem? strings id
unfolding resolve
resolve-get_elem? strings i id r =
    ap (λ o. slice o i.buffer id) r.offsets
    ∙ ap (λ b. slice (0 ∷ ends 0 strings) b id) r.buffer
    ∙ slice-ends 0 id [] strings refl

pub len-length :
    (strings : List Text) (i : PathInterner) → Represents strings i → len i ≡ length strings
unfolding len
len-length strings i r = omega (arith, ap length r.offsets, length-ends 0 strings)

or_next-other : (o : Option ℕ) (n : ℕ) → or_next o false n ≡ o
or_next-other (some id) n = refl
or_next-other none n = refl

pub wrap-id : (m n : ℕ) → m ≡ n → n < 2 ^ 32 → as_u32 m ≡ n
unfolding as_u32
wrap-id m n e lt = omega arith

-- One more string is found, at the next position.
pub Finds-cons :
    (lookup : Lookup) (strings : List Text) (s : Text)
    → Finds lookup strings
    → index_of s strings ≡ none
    → Finds ((s, length strings) ∷ lookup) (strings ++ s ∷ [])
unfolding get
Finds-cons lookup strings s f h t = elim (Bool-cases (text_eq t s)) [
  | inl same ↦
      let none_yet = subst (λ u. index_of u strings ≡ none) (sym (text_eq→≡ t s same)) h in
      rw same (sym (index_of-append t s strings ∙ rw (none_yet, same) refl))
  | inr other ↦ rw other (
      f t
      ∙ sym (
          index_of-append t s strings
          ∙ rw other (or_next-other (index_of t strings) (length strings))))
]

-- What a string that is new makes of the pool.
Represents-push :
    (strings : List Text) (i : PathInterner) (s : Text)
    → Represents strings i
    → Finds i.lookup strings
    → index_of s strings ≡ none
    → Fits (strings ++ s ∷ [])
    → Represents (strings ++ s ∷ []) (push s i) × Finds (push s i).lookup (strings ++ s ∷ [])
unfolding push as_u32
Represents-push strings i s r f h fits =
    let buffer = ap (λ b. b ++ s) r.buffer ∙ sym (concat-append strings s) in
    let found =
      subst (λ n. Finds ((s, n) ∷ i.lookup) (strings ++ s ∷ []))
        (sym (
          wrap-id (len i) (length strings) (len-length strings i r)
            (omega (arith, fits.1, length-append strings (s ∷ [])))))
        (Finds-cons i.lookup strings s f h) in
    (
      record {
        buffer = buffer;
        offsets =
            ap (λ o. o ++ as_u32 (length (i.buffer ++ s)) ∷ []) r.offsets
            ∙ ap (λ n. 0 ∷ (ends 0 strings ++ n ∷ []))
                (wrap-id _ (0 + length (concat strings ++ s))
                  (omega (arith, ap (λ b. length (b ++ s)) r.buffer))
                  (omega (arith, fits.0, ap length (concat-append strings s))))
            ∙ ap (λ o. 0 ∷ o) (sym (ends-append 0 strings s));
        fresh = IsFresh-append [] strings s r.fresh h;
        lookup = inr found;
      },
      found,
    )

intern-some :
    (s : Text) (i : PathInterner) (id : ℕ) → get s i.lookup ≡ some id → intern s i ≡ (id, i)
unfolding intern
intern-some s i id e = rw (e, intern) refl

intern-none :
    (s : Text) (i : PathInterner) → get s i.lookup ≡ none → intern s i ≡ (as_u32 (len i), push s i)
unfolding intern
intern-none s i e = rw (e, intern) refl

pub pool-some :
    (s : Text) (ss : List Text) (id : ℕ) → index_of s ss ≡ some id → intern_pool s ss ≡ (id, ss)
unfolding intern_pool
pool-some s ss id e = rw (e, intern_pool) refl

pub pool-none :
    (s : Text) (ss : List Text)
    → index_of s ss ≡ none
    → intern_pool s ss ≡ (length ss, ss ++ s ∷ [])
unfolding intern_pool
pool-none s ss e = rw (e, intern_pool) refl

-- The identifier is the one of the pool, and the interner represents the pool, with a complete lookup.
abbrev pub Implements : ℕ × PathInterner → ℕ × List Text → Type 0
Implements r pool = (r.0 ≡ pool.0) × Represents pool.1 r.1 × Finds r.1.lookup pool.1

-- To intern a string in a pool whose lookup is complete gives it its position, and the pool of the
-- strings with it, whose lookup is complete.
pub intern-Represents :
    (strings : List Text) (i : PathInterner) (s : Text)
    → Represents strings i
    → Finds i.lookup strings
    → Fits (intern_pool s strings).1
    → Implements (intern s i) (intern_pool s strings)
intern-Represents strings i s r f fits = elim (Option-cases (index_of s strings)) [
  | inl new_one ↦
      let pool = pool-none s strings new_one in
      let pushed = Represents-push strings i s r f new_one (subst (λ p. Fits p.1) pool fits) in
      subst (Implements (intern s i)) (sym pool) (
        subst (λ x. Implements x (length strings, strings ++ s ∷ []))
          (sym (intern-none s i (f s ∙ new_one)))
          (
            wrap-id (len i) (length strings) (len-length strings i r) (
                omega (arith, (subst (λ p. Fits p.1) pool fits).1, length-append strings (s ∷ []))),
            pushed.0,
            pushed.1,
          ))
  | inr (id, known) ↦ subst (Implements (intern s i)) (sym (pool-some s strings id known)) (
      subst (λ x. Implements x (id, strings)) (sym (intern-some s i id (f s ∙ known))) (refl, r, f))
]

pub get_elem?-length :
    (seen rest : List Text) (s : Text) → get_elem? (seen ++ s ∷ rest) (length seen) ≡ some s
unfolding get_elem?
get_elem?-length [] rest s = refl
get_elem?-length (t ∷ seen) rest s = get_elem?-length seen rest s

pub new-Represents : Represents [] new × Finds new.lookup []
unfolding concat ends get index_of
new-Represents =
    (record { buffer = refl; offsets = refl; fresh = tt; lookup = inl refl }, λ s. refl)

pub shrink-Represents :
    (strings : List Text) (i : PathInterner)
    → Represents strings i
    → Represents strings (shrink_to_fit i)
unfolding shrink_to_fit
shrink-Represents strings i r = record {
  buffer = r.buffer;
  offsets = r.offsets;
  fresh = r.fresh;
  lookup = inl refl;
}
