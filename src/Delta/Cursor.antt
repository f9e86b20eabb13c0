-- ===== src/Delta/Cursor.antt =====
-- core/app/src/usn_fallback.rs: the cursor of the journal moves only when the delta was taken in.
use mathlib.Core.Path.{subst}
use file_reaper.Prelude.{true, ℕ, ◌≡◌, refl, ◌∙◌, Option, none, some, List, [], ◌∷◌}
use file_reaper.Prelude.Text.{Text}
use file_reaper.Platform.{Platform}
use file_reaper.Outcome.{Result, ok, err, is_ok, Exec, continue, pure, ◌>>=◌}
use file_reaper.Quarantine.Rows.{Commits}
use file_reaper.Delta.{FileProbe, UsnApplyStats, seed_volume_root}
use file_reaper.Gate.{upper}
use file_reaper.Delta.Planning.{Planning}
use file_reaper.Delta.Plan.{plan_usn_mutations}
use file_reaper.Delta.Ports.{
  UsnCursor, UsnReadOutcome, changes, journal_stale, DeltaIndex, IndexStore, Cursors, set_cursor,
  KeepsCursors,
}
use file_reaper.Delta.Sync.{
  DeltaWorld, on_index, on_store, with_cache, apply_mutations_to_hot_index, removed_paths,
  delete_removed, prepare_full_rescan_after_stale, carry_out, plan_and_carry_out, apply_changes,
  process_usn_sync, next_candidate_id_from_index, applied, full_rescan_required, FullRescanRequest,
  from_stale_reason,
}

-- What an outcome makes of the cursor of its volume.
unfoldable pub cursor_after : UsnReadOutcome → Option UsnCursor
cursor_after (changes delta next_cursor) = some next_cursor
cursor_after (journal_stale info reason) = none

module _ (I : DeltaIndex) (S : IndexStore) (K : KeepsCursors S) where
  abbrev seen : DeltaWorld I S → Cursors
  seen w = K.cursors w.store

  -- An operation that takes the cursors to a target where it succeeds, and leaves them else.
  abbrev Does : {A : Type 0} → Cursors → Cursors → Exec (DeltaWorld I S) A → Type 0
  Does before target m =
      (w : DeltaWorld I S) → seen w ≡ before → Commits (m w).0 before target (seen (m w).1)

  continue-Does :
      {A B : Type 0} (before target : Cursors) (r : Result A) (w : DeltaWorld I S)
      (n : A → Exec (DeltaWorld I S) B)
      → seen w ≡ before
      → ((a : A) → Does before target (n a))
      → Commits (continue r n w).0 before target (seen (continue r n w).1)
  continue-Does before target (ok a) w n e h = h a w e
  continue-Does before target (err x) w n e h = e

  -- What leaves the cursors may come first.
  bind-Does :
      {A B : Type 0} (before target : Cursors) (m : Exec (DeltaWorld I S) A)
      (n : A → Exec (DeltaWorld I S) B)
      → ((w : DeltaWorld I S) → seen (m w).1 ≡ seen w)
      → ((a : A) → Does before target (n a))
      → Does before target (m >>= n)
  bind-Does before target m n keeps h w e =
      continue-Does before target (m w).0 (m w).1 n (keeps w ∙ e) h

  -- What cannot fail, and leaves the cursors, may come last.
  total-Does :
      {A B : Type 0} (before target : Cursors) (m : Exec (DeltaWorld I S) A)
      (n : A → Exec (DeltaWorld I S) B)
      → Does before target m
      → ((a : A) (v : DeltaWorld I S) → (is_ok (n a v).0 ≡ true) × (seen (n a v).1 ≡ seen v))
      → Does before target (m >>= n)
  total-Does {A} before target m n h total w e = last (m w).0 (m w).1 (h w e)
    where
      last :
          (r : Result A) (v : DeltaWorld I S)
          → Commits r before target (seen v)
          → Commits (continue r n v).0 before target (seen (continue r n v).1)
      last (ok a) v c = rw (total a v).0 ((total a v).1 ∙ c)
      last (err x) v c = c

  delete_removed-cursors :
      (paths : List Text) (s : S.State) → K.cursors (delete_removed S paths s).1 ≡ K.cursors s
  unfolding delete_removed
  delete_removed-cursors [] s = refl
  delete_removed-cursors (path ∷ paths) s =
      next (S.delete_file_records_by_path path s).0 (S.delete_file_records_by_path path s).1
        (λ v. delete_removed-cursors paths v)
      ∙ K.cursors-delete path s
    where
      next :
          (r : Result ℕ) (v : S.State)
          → ((v : S.State) → K.cursors (delete_removed S paths v).1 ≡ K.cursors v)
          → K.cursors (continue r (λ n. delete_removed S paths) v).1 ≡ K.cursors v
      next (ok n) v h = h v
      next (err x) v h = refl

  module _ (p : Platform) (parent : Text → Text) (probe : ℕ → Text → Option FileProbe) where
    carry_out-Does :
        (before : Cursors) (volume : ℕ) (next_cursor : UsnCursor) (s : Planning)
        → Does before
            (set_cursor volume (some next_cursor) before)
            (carry_out I S p parent probe volume next_cursor s)
    unfolding carry_out
    carry_out-Does before volume next_cursor s =
        let target = set_cursor volume (some next_cursor) before in
        let set : Exec (DeltaWorld I S) (Unit {0}) =
          on_store I S (S.set_usn_cursor volume next_cursor) in
        let finish : Exec (DeltaWorld I S) UsnApplyStats = set >>= λ d. pure s.stats in
        let delete : Exec (DeltaWorld I S) (Unit {0}) =
          on_store I S (delete_removed S (removed_paths s.mutations)) in
        let apply : Exec (DeltaWorld I S) (Unit {0}) =
          on_index I S (apply_mutations_to_hot_index I s.mutations) in
        bind-Does before target (with_cache I S s.cache)
          (λ a. apply >>= λ b. delete >>= λ c. finish) (λ w. refl)
          (λ a.
            bind-Does before target apply (λ b. delete >>= λ c. finish) (λ w. refl)
              (λ b.
                bind-Does before target delete (λ c. finish)
                  (λ w. delete_removed-cursors (removed_paths s.mutations) w.store)
                  (λ c.
                    total-Does before target set (λ d. pure s.stats)
                      (λ w e.
                        subst
                          (λ k.
                            Commits (S.set_usn_cursor volume next_cursor w.store).0 k
                              (set_cursor volume (some next_cursor) k)
                              (K.cursors (S.set_usn_cursor volume next_cursor w.store).1))
                          e (K.cursors-set volume next_cursor w.store))
                      (λ d v. (refl, refl)))))

    -- When `process_usn_sync` succeeds, the cursor of the volume, by its letter in either case, is the
    -- next one of the delta, or there is none if the journal is stale; when it fails, on whatever step,
    -- all cursors are as before. No other cursor changes.
    pub process_usn_sync-cursors :
        (outcome : UsnReadOutcome) (volume : ℕ) (w : DeltaWorld I S)
        → let r = process_usn_sync I S p parent probe outcome volume w in
          Commits r.0 (seen w) (set_cursor volume (cursor_after outcome) (seen w)) (seen r.1)
    unfolding process_usn_sync apply_changes plan_and_carry_out prepare_full_rescan_after_stale
        cursor_after
    process_usn_sync-cursors (changes delta next_cursor) volume w =
        let target = set_cursor volume (some next_cursor) (seen w) in
        let next_id : Exec (DeltaWorld I S) ℕ = on_index I S (next_candidate_id_from_index I) in
        let take_in : Exec (DeltaWorld I S) UsnApplyStats =
          apply_changes I S p parent probe volume delta next_cursor in
        total-Does (seen w) target take_in (λ stats. pure (applied stats))
          (bind-Does (seen w) target next_id
            (plan_and_carry_out I S p parent probe volume delta next_cursor) (λ v. refl)
            (λ id v e.
              carry_out-Does (seen w) volume next_cursor
                (plan_usn_mutations p parent probe delta v.cache id) v e))
          (λ stats v. (refl, refl)) w refl
    process_usn_sync-cursors (journal_stale info reason) volume w =
        let target = set_cursor volume none (seen w) in
        let clear : Exec (DeltaWorld I S) (Unit {0}) = on_store I S (S.clear_usn_cursor volume) in
        let request : FullRescanRequest = record {
          volume = volume;
          reason = from_stale_reason reason;
          journal = info;
        } in
        let forget_paths : Exec (DeltaWorld I S) (Unit {0}) =
          with_cache I S (seed_volume_root (upper volume) []) in
        let answer : Exec (DeltaWorld I S) FullRescanRequest = forget_paths >>= λ a. pure request in
        total-Does (seen w) target (clear >>= λ a. answer) (λ r. pure (full_rescan_required r))
          (total-Does (seen w) target clear (λ a. answer)
            (λ v e.
              subst
                (λ k.
                  Commits (S.clear_usn_cursor volume v.store).0 k (set_cursor volume none k)
                    (K.cursors (S.clear_usn_cursor volume v.store).1))
                e (K.cursors-clear volume v.store))
            (λ a v. (refl, refl)))
          (λ r v. (refl, refl)) w refl
