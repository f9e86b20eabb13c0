-- ===== src/Index/Memory/Growth.antt =====
-- core/infra/index-memory/src/lib.rs: the pools of an index fit a `u32` at every step if they do at the end.
use mathlib.Core.List.{append-nil, append_assoc}
use mathlib.Core.Path.{subst}
use file_reaper.Prelude.{
  Option-cases, inl, inr, ◌≤◌, ◌≡◌, ap, sym, ◌∙◌, List, [], ◌∷◌, ◌++◌, length, arith, length-append,
}
use file_reaper.Prelude.Text.{Text}
use file_reaper.Index.Interner.Pool.{intern_pool, index_of, concat}
use file_reaper.Index.Interner.Refinement.{Fits, pool-some, pool-none}

-- Whether a pool can grow to another one.
-- The strings of a pool, after more are interned.
unfoldable pub intern_all : List Text → List Text → List Text
unfolding intern_pool
intern_all [] strings = strings
intern_all (s ∷ ss) strings = intern_all ss (intern_pool s strings).1

intern_all-grows :
    (ss strings : List Text) → (more : List Text) × (intern_all ss strings ≡ strings ++ more)
unfolding intern_all
intern_all-grows [] strings = ([], sym (append-nil strings))
intern_all-grows (s ∷ ss) strings =
    let rest = intern_all-grows ss (intern_pool s strings).1 in
    elim (Option-cases (index_of s strings)) [
      | inl new_one ↦ (
        s ∷ rest.0,
        rest.1
            ∙ ap (λ p. p.1 ++ rest.0) (pool-none s strings new_one)
            ∙ append_assoc strings (s ∷ []) rest.0,
      )
      | inr (id, known) ↦ (rest.0, rest.1 ∙ ap (λ p. p.1 ++ rest.0) (pool-some s strings id known))
    ]

length-concat : (ss more : List Text) → length (concat ss) ≤ length (concat (ss ++ more))
unfolding concat
length-concat [] more = omega arith
length-concat (s ∷ ss) more = omega (
  arith,
  length-concat ss more,
  length-append s (concat ss),
  length-append s (concat (ss ++ more)),
)

pub Fits-before : (ss strings : List Text) → Fits (intern_all ss strings) → Fits strings
Fits-before ss strings fits =
    let grown = intern_all-grows ss strings in
    let f = subst Fits grown.1 fits in
    (
      omega (arith, f.0, length-concat strings grown.0),
      omega (arith, f.1, length-append strings grown.0),
    )
