-- ===== src/Index/Memory/Pools.antt =====
-- core/infra/index-memory/src/lib.rs: the positions in the pools, which grow as records are added.
use mathlib.Core.Path.{subst}
use file_reaper.Prelude.{
  Option-cases, Bool-cases, inl, inr, ℕ, suc, zero, ◌≡◌, ap, sym, some, List, [], ◌∷◌, ◌++◌, arith,
}
use file_reaper.Prelude.Text.{Text, text_eq, text_eq→≡}
use file_reaper.Index.Interner.{get_elem?}
use file_reaper.Index.Interner.Pool.{intern_pool, index_of}
use file_reaper.Index.Interner.Refinement.{get_elem?-length, pool-some, pool-none}

pub get_elem?-append :
    (xs ys : List Text) (n : ℕ) (x : Text)
    → get_elem? xs n ≡ some x
    → get_elem? (xs ++ ys) n ≡ some x
unfolding get_elem?
get_elem?-append [] ys n x h = absurd (ground (arith, h))
get_elem?-append (y ∷ xs) ys zero x h = h
get_elem?-append (y ∷ xs) ys (suc n) x h = get_elem?-append xs ys n x h

pub get_elem?-index_of :
    (s : Text) (ss : List Text) (id : ℕ) → index_of s ss ≡ some id → get_elem? ss id ≡ some s
unfolding get_elem? index_of
get_elem?-index_of s [] id h = absurd (ground (arith, h))
get_elem?-index_of s (t ∷ ss) id h = elim (Bool-cases (text_eq s t)) [
  | inl same ↦
      let first : id ≡ 0 = ground (arith, same, h) in
      subst (λ n. get_elem? (t ∷ ss) n ≡ some s) (sym first) (ap some (sym (text_eq→≡ s t same)))
  | inr other ↦ elim (Option-cases (index_of s ss)) [
    | inl missing ↦ absurd (ground (arith, missing, other, h))
    | inr (k, found) ↦
        let next : id ≡ suc k = ground (arith, found, other, h) in
        subst (λ n. get_elem? (t ∷ ss) n ≡ some s) (sym next) (get_elem?-index_of s ss k found)
  ]
]

-- What interning does to the positions of a pool.
pub intern_pool-keeps :
    (s : Text) (ss : List Text) (n : ℕ) (x : Text)
    → get_elem? ss n ≡ some x
    → get_elem? (intern_pool s ss).1 n ≡ some x
intern_pool-keeps s ss n x h = elim (Option-cases (index_of s ss)) [
  | inl new_one ↦
      subst (λ p. get_elem? p.1 n ≡ some x) (sym (pool-none s ss new_one))
        (get_elem?-append ss (s ∷ []) n x h)
  | inr (id, known) ↦ subst (λ p. get_elem? p.1 n ≡ some x) (sym (pool-some s ss id known)) h
]

pub intern_pool-finds :
    (s : Text) (ss : List Text) → get_elem? (intern_pool s ss).1 (intern_pool s ss).0 ≡ some s
intern_pool-finds s ss = elim (Option-cases (index_of s ss)) [
  | inl new_one ↦
      subst (λ p. get_elem? p.1 p.0 ≡ some s) (sym (pool-none s ss new_one))
        (get_elem?-length ss [] s)
  | inr (id, known) ↦
      subst (λ p. get_elem? p.1 p.0 ≡ some s) (sym (pool-some s ss id known))
        (get_elem?-index_of s ss id known)
]
