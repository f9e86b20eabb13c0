-- ===== src/Index/Interner/Rebuild.antt =====
-- core/infra/index-memory/src/lib.rs: `rebuild_lookup` completes the lookup of an interner.
use mathlib.Core.List.{append-nil, append_assoc}
use mathlib.Core.Path.{subst}
use file_reaper.Prelude.{
  ltb, ℕ, suc, ◌+◌, ◌^◌, ◌<◌, ◌≡◌, refl, ap, sym, ◌∙◌, true, false, some, List, [], ◌∷◌, ◌++◌,
  length, inl, inr, arith, length-append,
}
use file_reaper.Prelude.Text.{Text}
use file_reaper.Index.Interner.{
  PathInterner, Lookup, get, as_u32, len, resolve, rebuild_from, rebuild_lookup, add_resolved,
}
use file_reaper.Index.Interner.Pool.{index_of, IsFresh, length-ends}
use file_reaper.Index.Interner.Refinement.{
  Represents, Finds, resolve-get_elem?, get_elem?-length, wrap-id, Finds-cons, len-length,
}

rebuild_from-suc :
    (i : PathInterner) (n id : ℕ) (s : Text) (lookup : Lookup)
    → as_u32 id ≡ id
    → resolve i id ≡ some s
    → rebuild_from i (suc n) id lookup ≡ rebuild_from i n (id + 1) ((s, id) ∷ lookup)
unfolding rebuild_from
rebuild_from-suc i n id s lookup e r =
    ap (λ m. rebuild_from i n (id + 1) (add_resolved (resolve i m) m lookup)) e
    ∙ ap (λ o. rebuild_from i n (id + 1) (add_resolved o id lookup)) r

-- The loop of `rebuild_lookup` finds the strings that it has passed.
rebuild_from-Finds :
    (i : PathInterner) (seen rest : List Text) (lookup : Lookup)
    → Represents (seen ++ rest) i
    → length (seen ++ rest) < 2 ^ 32
    → IsFresh seen rest
    → Finds lookup seen
    → Finds (rebuild_from i (length rest) (length seen) lookup) (seen ++ rest)
unfolding rebuild_from
rebuild_from-Finds i seen [] lookup r lt fresh f = subst (Finds lookup) (sym (append-nil seen)) f
rebuild_from-Finds i seen (s ∷ rest) lookup r lt fresh f =
    let assoc = append_assoc seen (s ∷ []) rest in
    let resolved =
      resolve-get_elem? (seen ++ s ∷ rest) i (length seen) r ∙ get_elem?-length seen rest s in
    let small =
      wrap-id (length seen) (length seen) refl (omega (arith, lt, length-append seen (s ∷ rest))) in
    let next =
      rebuild_from-Finds i (seen ++ s ∷ []) rest ((s, length seen) ∷ lookup)
        (subst (λ ss. Represents ss i) (sym assoc) r)
        (subst (λ ss. length ss < 2 ^ 32) (sym assoc) lt) fresh.1
        (Finds-cons lookup seen s f fresh.0) in
    subst (λ l. Finds l (seen ++ s ∷ rest))
      (sym (rebuild_from-suc i (length rest) (length seen) s lookup small resolved))
      (subst
        (λ n. Finds (rebuild_from i (length rest) n ((s, length seen) ∷ lookup)) (seen ++ s ∷ rest))
        (length-append seen (s ∷ []))
        (subst
          (Finds
            (rebuild_from i (length rest) (length (seen ++ s ∷ [])) ((s, length seen) ∷ lookup)))
          assoc next))

rebuild-full :
    (i : PathInterner) (e : Text × ℕ) (es : Lookup) → i.lookup ≡ e ∷ es → rebuild_lookup i ≡ i
unfolding rebuild_lookup
rebuild-full i e es h = rw (h, rebuild_lookup) cc

rebuild-some :
    (i : PathInterner)
    → i.lookup ≡ []
    → ltb 1 (length i.offsets) ≡ true
    → rebuild_lookup i ≡ record i { lookup = rebuild_from i (len i) 0 [] }
unfolding rebuild_lookup
rebuild-some i h g = rw (h, rebuild_lookup) rw g refl

rebuild-none :
    (i : PathInterner) → i.lookup ≡ [] → ltb 1 (length i.offsets) ≡ false → rebuild_lookup i ≡ i
unfolding rebuild_lookup
rebuild-none i h g = rw (h, rebuild_lookup) rw g cc

abbrev Completed : List Text → PathInterner → Type 0
Completed strings i = Represents strings i × Finds i.lookup strings

Finds-nil : Finds [] []
unfolding get index_of
Finds-nil s = refl

rebuild-cases :
    (strings : List Text) (i : PathInterner) (lookup : Lookup)
    → i.lookup ≡ lookup
    → Represents strings i
    → length strings < 2 ^ 32
    → Completed strings (rebuild_lookup i)
rebuild-cases strings i (e ∷ es) h r lt = elim r.lookup [
  | inl empty ↦ absurd (ground (arith, sym empty ∙ h))
  | inr f ↦ subst (Completed strings) (sym (rebuild-full i e es h)) (r, f)
]
rebuild-cases [] i [] h r lt =
    subst (Completed [])
      (sym (rebuild-none i h (ground (arith, ap length r.offsets, length-ends 0 []))))
      (r, subst (λ l. Finds l []) (sym h) Finds-nil)
rebuild-cases (s ∷ ss) i [] h r lt =
    let f =
      subst (λ n. Finds (rebuild_from i n 0 []) (s ∷ ss)) (sym (len-length (s ∷ ss) i r))
        (rebuild_from-Finds i [] (s ∷ ss) [] r lt r.fresh Finds-nil) in
    subst (Completed (s ∷ ss))
      (sym (rebuild-some i h (ground (arith, ap length r.offsets, length-ends 0 (s ∷ ss)))))
      (record { buffer = r.buffer; offsets = r.offsets; fresh = r.fresh; lookup = inr f }, f)

-- `rebuild_lookup` completes the lookup, also after `shrink_to_fit`, and the pool stays.
pub rebuild-Represents :
    (strings : List Text) (i : PathInterner)
    → Represents strings i
    → length strings < 2 ^ 32
    → Represents strings (rebuild_lookup i) × Finds (rebuild_lookup i).lookup strings
rebuild-Represents strings i r lt = rebuild-cases strings i i.lookup refl r lt
