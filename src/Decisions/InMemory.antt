-- ===== src/Decisions/InMemory.antt =====
-- A decision over the index of core/infra/index-memory/src/lib.rs, whose `for_each_mut` unpacks one
-- record after the other and packs it again.
use mathlib.Core.List.{append-nil, append_assoc}
use file_reaper.Prelude.{
  ◌≡◌, refl, ap, sym, ◌∙◌, inl, inr, false, List, [], ◌∷◌, ◌++◌, map, All, Bool-cases,
}
use file_reaper.Platform.{Platform}
use file_reaper.Outcome.{ok}
use file_reaper.Aggregate.{Decision}
use file_reaper.Index.Packing.{FileRecord, CompactFileRecord, pack, unpack}
use file_reaper.Index.Packing.RoundTrip.{IsStorable, unpack-pack}
use file_reaper.Index.Memory
use file_reaper.Index.Memory.{
  StdPath, InMemoryIndexInner, resolve_path, unpacked, update_records, get_all,
}
use file_reaper.Decisions.{
  DecisionSelector, HotIndex, is_empty, matches, decided, apply_decision_to_records, decide_one,
  apply_decision_hot,
}

-- The index in memory, as far as the decisions use it.
abbrev pub in_memory : StdPath → HotIndex
in_memory P = record {
  State = InMemoryIndexInner;
  for_each_mut =
      λ f captured inner. let r = Memory.for_each_mut P f captured inner in (ok r.0, r.1);
}

same_cons : {A : Type 0} {x y : A} {xs ys : List A} → x ≡ y → xs ≡ ys → (x ∷ xs) ≡ (y ∷ ys)
same_cons {x = x} {ys = ys} h g = ap (λ l. x ∷ l) g ∙ ap (λ z. z ∷ ys) h

module _ (p : Platform) (P : StdPath) (selector : DecisionSelector) (decision : Decision) where
  IsStorable-decided : (r : FileRecord) → IsStorable r → IsStorable (decided decision r)
  IsStorable-decided r h = record {
    created = h.created;
    modified = h.modified;
    accessed = h.accessed;
    no_detector = h.no_detector;
    no_explanation = h.no_explanation;
    flags = h.flags;
  }

  -- A record that is packed again under its identifiers is handed out as it was packed.
  unpacked-pack :
      (inner : InMemoryIndexInner) (c : CompactFileRecord) (r : FileRecord)
      → IsStorable r
      → r.path ≡ resolve_path P inner c
      → unpacked P inner (pack r c.dir_id c.filename_id) ≡ r
  unfolding unpacked resolve_path pack
  unpacked-pack inner c r h path =
      ap (unpack (pack r c.dir_id c.filename_id)) (sym path)
      ∙ unpack-pack r c.dir_id c.filename_id h

  update_records-decide_one :
      (inner : InMemoryIndexInner) (cs : List CompactFileRecord) (updated : List FileRecord)
      → All IsStorable (map (unpacked P inner) cs)
      → let t = update_records P (decide_one p selector decision) inner cs updated in
        let u = apply_decision_to_records p selector decision (map (unpacked P inner) cs) in
        (map (unpacked P inner) t.0 ≡ u.0) × (t.1 ≡ updated ++ u.1)
  unfolding update_records decide_one apply_decision_to_records
  update_records-decide_one inner [] updated h = (refl, sym (append-nil updated))
  update_records-decide_one inner (c ∷ cs) updated h =
      let r = unpacked P inner c in
      elim (Bool-cases (matches p selector r)) [
        | inl selected ↦
            let rest =
              update_records-decide_one inner cs (updated ++ decided decision r ∷ []) h.1 in
            rw selected (
              same_cons (unpacked-pack inner c (decided decision r) (IsStorable-decided r h.0) refl)
                  rest.0,
              rest.1
                  ∙ append_assoc updated (decided decision r ∷ [])
                      (apply_decision_to_records p selector decision (map (unpacked P inner) cs)).1,
            )
        | inr other ↦
            let rest = update_records-decide_one inner cs updated h.1 in
            rw other (same_cons (unpacked-pack inner c r h.0 refl) rest.0, rest.1)
      ]

  -- Over the index in memory, whose records survive packing, `apply_decision_hot` on a selector that
  -- is not empty returns the updated records of `apply_decision_to_records` on all records of the
  -- index, and leaves the index with the records that it makes of them.
  pub apply_decision_hot-get_all :
      (inner : InMemoryIndexInner)
      → is_empty selector ≡ false
      → All IsStorable (get_all P inner)
      → let t = apply_decision_hot (in_memory P) p selector decision inner in
        let u = apply_decision_to_records p selector decision (get_all P inner) in
        (t.0 ≡ ok u.1) × (get_all P t.1 ≡ u.0)
  unfolding apply_decision_hot Memory.for_each_mut get_all
  apply_decision_hot-get_all inner some_selector h =
      let run = update_records-decide_one inner inner.records [] h in
      rw some_selector (ap ok run.1, run.0)
