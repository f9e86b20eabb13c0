-- ===== src/Index/Interner.antt =====
-- core/infra/index-memory/src/lib.rs: `PathInterner`, a pool of strings in one buffer. A string is
-- here the list of its bytes, and the `HashMap` of the lookup is a list with the last insertion
-- first. A slice out of range, on which the code panics, is cut short: no slice is, in a pool that
-- represents its strings.
pub mod Pool
pub mod Refinement
pub mod Rebuild
use file_reaper.Prelude.{
  ℕ, suc, zero, ◌+◌, ◌-◌, ◌%◌, ◌^◌, Bool, true, false, ◌&&◌, Option, none, some, List, [], ◌∷◌,
  ◌++◌, ltb, ◌==◌, length, take, drop, if◌then◌else◌,
}
use file_reaper.Prelude.Text.{Text, text_eq}

-- The strings that have an identifier.
abbrev pub Lookup : Type 0
Lookup = List (Text × ℕ)

pub record PathInterner : Type 0 where
  pub buffer : Text
  pub offsets : List ℕ
  pub lookup : Lookup

-- `PathInterner::new`
abbrev pub new : PathInterner
new = record { buffer = []; offsets = 0 ∷ []; lookup = [] }

-- `self.lookup.get(s)`
unfoldable pub get : Text → Lookup → Option ℕ
unfolding text_eq
get s [] = none
get s (e ∷ es) = let rest = get s es in if text_eq s e.0 then some e.1 else rest

-- `as u32`
unfoldable pub as_u32 : ℕ → ℕ
as_u32 n = n % 2 ^ 32

-- `PathInterner::len`
unfoldable pub len : PathInterner → ℕ
len self = length self.offsets - 1

-- `PathInterner::is_empty`
unfoldable pub is_empty : PathInterner → Bool
is_empty self = length self.offsets == 1

-- A string that is new gets the next identifier.
unfoldable pub push : Text → PathInterner → PathInterner
unfolding as_u32 len
push s self = record {
  buffer = self.buffer ++ s;
  offsets = self.offsets ++ as_u32 (length (self.buffer ++ s)) ∷ [];
  lookup = (s, as_u32 (len self)) ∷ self.lookup;
}

-- `PathInterner::intern`
unfoldable pub intern : Text → PathInterner → ℕ × PathInterner
unfolding get push as_u32 len
intern s self = elim (get s self.lookup) [
  | some id ↦ (id, self)
  | none ↦ (as_u32 (len self), push s self)
]

-- `self.offsets.get(id)`
unfoldable pub get_elem? {ℓ} : {A : Type ℓ} → List A → ℕ → Option A
get_elem? [] n = none
get_elem? (x ∷ xs) zero = some x
get_elem? (x ∷ xs) (suc n) = get_elem? xs n

-- `PathInterner::resolve`
unfoldable pub resolve : PathInterner → ℕ → Option Text
unfolding get_elem?
resolve self id = elim (get_elem? self.offsets id) [
  | none ↦ none
  | some start ↦ elim (get_elem? self.offsets (suc id)) [
    | none ↦ none
    | some end ↦ some (take (end - start) (drop start self.buffer))
  ]
]

-- `PathInterner::shrink_to_fit`, as far as it can be seen.
unfoldable pub shrink_to_fit : PathInterner → PathInterner
shrink_to_fit self = record self { lookup = [] }

-- `if let Some(s) = self.resolve(id as u32) { self.lookup.insert(s.to_string(), id as u32) }`
unfoldable pub add_resolved : Option Text → ℕ → Lookup → Lookup
add_resolved none id lookup = lookup
add_resolved (some s) id lookup = (s, id) ∷ lookup

-- The loop of `rebuild_lookup`, from an identifier on, for so many of them.
unfoldable pub rebuild_from : PathInterner → ℕ → ℕ → Lookup → Lookup
unfolding resolve as_u32 add_resolved
rebuild_from self zero id lookup = lookup
rebuild_from self (suc n) id lookup =
    rebuild_from self n (id + 1) (add_resolved (resolve self (as_u32 id)) (as_u32 id) lookup)

-- `PathInterner::rebuild_lookup`
unfoldable pub rebuild_lookup : PathInterner → PathInterner
unfolding rebuild_from len
rebuild_lookup self = elim self.lookup [
  | e ∷ es ↦ self
  | [] ↦
      if ltb 1 (length self.offsets)
      then record self { lookup = rebuild_from self (len self) 0 [] }
      else self
]

-- `PathInterner::lookup_id`
unfoldable pub lookup_id : PathInterner → Text → Option ℕ
unfolding get
lookup_id self s = get s self.lookup
