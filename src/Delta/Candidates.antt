-- ===== src/Delta/Candidates.antt =====
-- core/app/src/usn_apply.rs: what the planned mutations are. Nothing in the service directory of the
-- program becomes a candidate, and the statistics count the mutations.
use mathlib.Core.Path.{subst}
use file_reaper.Prelude.{
  All, ℕ, ◌+◌, ◌%◌, ◌^◌, ◌≡◌, refl, ap, Bool, true, false, Option, none, some, List, [], ◌∷◌, ◌++◌,
  arith,
}
use file_reaper.Prelude.Text.{Text}
use file_reaper.Platform.{Platform}
use file_reaper.Quarantine.Guard.{is_under_service_directory}
use file_reaper.Usn.{UsnChange}
use file_reaper.Delta.{
  UsnChangeClass, create, delete, rename_old, rename_new, modify, ignore, FileProbe, PathMap, find,
  below_parent, resolve_change_path, upsert, remove,
}
use file_reaper.Delta.Planning.{
  Planning, build_record, push_remove, count_created, count_modified, count_deleted,
  count_directory,
}
use file_reaper.Delta.Plan.{
  push_upsert, place_directory, remember_old, plan_directory, plan_delete, plan_rename_old,
  leave_old, plan_moved, plan_rename_new, plan_written, plan_write, plan_file, plan_change,
  plan_changes, remove_left, plan_usn_mutations, beginning,
}
use file_reaper.Delta.Counts.{
  IsCandidate, upserts, removes, upserts-append, removes-append, All-append, IsPlan,
}

module _ (p : Platform) (parent : Text → Text) (probe : ℕ → Text → Option FileProbe)
    (first : ℕ) where
  -- What is counted otherwise, or cached, is no mutation.
  unchanged :
      {s t : Planning}
      → s.mutations ≡ t.mutations
      → s.stats.created ≡ t.stats.created
      → s.stats.modified ≡ t.stats.modified
      → s.stats.deleted ≡ t.stats.deleted
      → s.stats.renamed ≡ t.stats.renamed
      → s.next_candidate_id ≡ t.next_candidate_id
      → IsPlan p first s
      → IsPlan p first t
  unchanged {s} {t} m c o d r n h = record {
    candidates = subst (All (IsCandidate p)) m h.candidates;
    written = omega (arith, h.written, c, o, r, ap upserts m);
    gone = omega (arith, h.gone, d, r, ap removes m);
    identifiers = omega (arith, h.identifiers, n, ap upserts m);
  }

  removed :
      (path : Text) (s : Planning)
      → IsPlan p first s
      → IsPlan p first (count_deleted (push_remove path s))
  removed path s h = record {
    candidates = All-append (IsCandidate p) s.mutations (remove path) h.candidates tt;
    written = omega (arith, h.written, upserts-append s.mutations (remove path ∷ []));
    gone = omega (arith, h.gone, removes-append s.mutations (remove path ∷ []));
    identifiers = omega (arith, h.identifiers, upserts-append s.mutations (remove path ∷ []));
  }

  -- What an upsert of a candidate makes of the plan, before it is counted.
  record IsAhead (s : Planning) : Type 0 where
    candidates : All (IsCandidate p) s.mutations
    written : 1 + (s.stats.created + s.stats.modified + s.stats.renamed) ≡ upserts s.mutations
    gone : s.stats.deleted + s.stats.renamed ≡ removes s.mutations
    identifiers : s.next_candidate_id % 2 ^ 64 ≡ (first + upserts s.mutations) % 2 ^ 64

  upserted :
      (change : UsnChange) (path : Text) (s : Planning)
      → is_under_service_directory p path ≡ false
      → IsPlan p first s
      → IsAhead (push_upsert p parent probe change path s)
  unfolding push_upsert build_record
  upserted change path s outside h = record {
    candidates = All-append (IsCandidate p) s.mutations _ h.candidates (path, outside, refl);
    written = omega (arith, h.written, upserts-append s.mutations (upsert _ ∷ []));
    gone = omega (arith, h.gone, removes-append s.mutations (upsert _ ∷ []));
    identifiers = omega (arith, h.identifiers, upserts-append s.mutations (upsert _ ∷ []));
  }

  IsPlan-remember :
      (change : UsnChange) (o : Option Text) (s : Planning)
      → IsPlan p first s
      → IsPlan p first (count_directory (remember_old p parent probe change o s))
  unfolding remember_old
  IsPlan-remember change none s h = unchanged {s = s} refl refl refl refl refl refl h
  IsPlan-remember change (some path) s h = unchanged {s = s} refl refl refl refl refl refl h

  IsPlan-place :
      (change : UsnChange) (path old : Option Text) (s : Planning)
      → IsPlan p first s
      → IsPlan p first (count_directory (place_directory p parent probe change path old s))
  unfolding place_directory
  IsPlan-place change (some path) old s h = unchanged {s = s} refl refl refl refl refl refl h
  IsPlan-place change none none s h = unchanged {s = s} refl refl refl refl refl refl h
  IsPlan-place change none (some old) s h = unchanged {s = s} refl refl refl refl refl refl h

  IsPlan-directory :
      (c : UsnChangeClass) (change : UsnChange) (s : Planning)
      → IsPlan p first s
      → IsPlan p first (plan_directory p parent probe c change s)
  unfolding plan_directory
  IsPlan-directory delete change s h = unchanged {s = s} refl refl refl refl refl refl h
  IsPlan-directory rename_old change s h =
      IsPlan-remember change (resolve_change_path p s.cache change) s h
  IsPlan-directory rename_new change s h =
      IsPlan-place change (below_parent p s.cache change) (find change.file_ref s.rename_old_paths)
        s h
  IsPlan-directory create change s h =
      IsPlan-place change (below_parent p s.cache change) (find change.file_ref s.rename_old_paths)
        s h
  IsPlan-directory modify change s h = unchanged {s = s} refl refl refl refl refl refl h
  IsPlan-directory ignore change s h = unchanged {s = s} refl refl refl refl refl refl h

  IsPlan-delete :
      (change : UsnChange) (o : Option Text) (s : Planning)
      → IsPlan p first s
      → IsPlan p first (plan_delete p parent probe change o s)
  unfolding plan_delete
  IsPlan-delete change none s h = unchanged {s = s} refl refl refl refl refl refl h
  IsPlan-delete change (some path) s h =
      removed path _ (unchanged {s = s} refl refl refl refl refl refl h)

  IsPlan-moved :
      (change : UsnChange) (path : Text) (b : Bool) (old : Option Text) (s : Planning)
      → is_under_service_directory p path ≡ b
      → IsPlan p first s
      → IsPlan p first (plan_moved p parent probe change path b old s)
  unfolding plan_moved leave_old push_upsert build_record
  IsPlan-moved change path true none s e h = unchanged {s = s} refl refl refl refl refl refl h
  IsPlan-moved change path true (some old) s e h =
      unchanged {s = count_deleted (push_remove old s)} refl refl refl refl refl refl
        (removed old s h)
  IsPlan-moved change path false none s e h =
      let a = upserted change path s e h in
      record {
        candidates = a.candidates;
        written = omega (arith, a.written);
        gone = a.gone;
        identifiers = a.identifiers;
      }
  IsPlan-moved change path false (some old) s e h =
      let t = s.mutations ++ remove old ∷ [] in
      record {
        candidates =
            All-append (IsCandidate p) t _
              (All-append (IsCandidate p) s.mutations (remove old) h.candidates tt) (path, e, refl);
        written = omega (
          arith,
          h.written,
          upserts-append t (upsert _ ∷ []),
          upserts-append s.mutations (remove old ∷ []),
        );
        gone = omega (
          arith,
          h.gone,
          removes-append t (upsert _ ∷ []),
          removes-append s.mutations (remove old ∷ []),
        );
        identifiers = omega (
          arith,
          h.identifiers,
          upserts-append t (upsert _ ∷ []),
          upserts-append s.mutations (remove old ∷ []),
        );
      }

  IsPlan-rename_old :
      (change : UsnChange) (o : Option Text) (s : Planning)
      → IsPlan p first s
      → IsPlan p first (plan_rename_old p parent probe change o s)
  unfolding plan_rename_old
  IsPlan-rename_old change none s h = unchanged {s = s} refl refl refl refl refl refl h
  IsPlan-rename_old change (some path) s h = unchanged {s = s} refl refl refl refl refl refl h

  IsPlan-rename_new :
      (change : UsnChange) (o : Option Text) (s : Planning)
      → IsPlan p first s
      → IsPlan p first (plan_rename_new p parent probe change o s)
  unfolding plan_rename_new
  IsPlan-rename_new change none s h = unchanged {s = s} refl refl refl refl refl refl h
  IsPlan-rename_new change (some path) s h = IsPlan-moved change path _ _ s refl h

  IsPlan-create :
      (change : UsnChange) (path : Text) (b : Bool) (s : Planning)
      → is_under_service_directory p path ≡ b
      → IsPlan p first s
      → IsPlan p first (plan_written p parent probe count_created change path b s)
        × IsPlan p first (plan_written p parent probe count_modified change path b s)
  unfolding plan_written push_upsert
  IsPlan-create change path true s e h = (
    unchanged {s = s} refl refl refl refl refl refl h,
    unchanged {s = s} refl refl refl refl refl refl h,
  )
  IsPlan-create change path false s e h =
      let a = upserted change path s e h in
      (
        record {
          candidates = a.candidates;
          written = omega (arith, a.written);
          gone = a.gone;
          identifiers = a.identifiers;
        },
        record {
          candidates = a.candidates;
          written = omega (arith, a.written);
          gone = a.gone;
          identifiers = a.identifiers;
        },
      )

  IsPlan-write :
      (change : UsnChange) (o : Option Text) (s : Planning)
      → IsPlan p first s
      → IsPlan p first (plan_write p parent probe count_created change o s)
        × IsPlan p first (plan_write p parent probe count_modified change o s)
  unfolding plan_write
  IsPlan-write change none s h = (
    unchanged {s = s} refl refl refl refl refl refl h,
    unchanged {s = s} refl refl refl refl refl refl h,
  )
  IsPlan-write change (some path) s h = IsPlan-create change path _ s refl h

  IsPlan-file :
      (c : UsnChangeClass) (change : UsnChange) (s : Planning)
      → IsPlan p first s
      → IsPlan p first (plan_file p parent probe c change s)
  unfolding plan_file
  IsPlan-file ignore change s h = unchanged {s = s} refl refl refl refl refl refl h
  IsPlan-file delete change s h = IsPlan-delete change _ s h
  IsPlan-file rename_old change s h = IsPlan-rename_old change _ s h
  IsPlan-file rename_new change s h = IsPlan-rename_new change _ s h
  IsPlan-file create change s h = (IsPlan-write change _ s h).0
  IsPlan-file modify change s h = (IsPlan-write change _ s h).1

  IsPlan-change :
      (b : Bool) (change : UsnChange) (s : Planning)
      → IsPlan p first s
      → IsPlan p first (plan_change p parent probe b change s)
  unfolding plan_change
  IsPlan-change true change s h = IsPlan-directory _ change s h
  IsPlan-change false change s h = IsPlan-file _ change s h

  IsPlan-changes :
      (changes : List UsnChange) (s : Planning)
      → IsPlan p first s
      → IsPlan p first (plan_changes p parent probe changes s)
  unfolding plan_changes
  IsPlan-changes [] s h = h
  IsPlan-changes (change ∷ changes) s h =
      IsPlan-changes changes _ (IsPlan-change change.is_directory change s h)

  IsPlan-left :
      (left : PathMap) (s : Planning)
      → IsPlan p first s
      → IsPlan p first (remove_left p parent probe left s)
  unfolding remove_left
  IsPlan-left [] s h = h
  IsPlan-left (e ∷ es) s h = IsPlan-left es _ (removed e.1 s h)

  -- Whatever the changes, the cache and the probe are: every file that the plan writes to the index
  -- stands for a path outside of the service directory; as many files are written as the statistics
  -- count as created, modified and renamed, and as many paths are removed as they count as deleted
  -- and renamed; and the next identifier has gone on by the number of files that are written, as a
  -- `u64` counts.
  pub plan_usn_mutations-IsPlan :
      (changes : List UsnChange) (cache : PathMap)
      → IsPlan p first (plan_usn_mutations p parent probe changes cache first)
  unfolding plan_usn_mutations
  plan_usn_mutations-IsPlan changes cache =
      let from = beginning p parent probe cache first in
      let none_yet : IsPlan p first from = record {
        candidates = tt;
        written = refl;
        gone = refl;
        identifiers = omega arith;
      } in
      IsPlan-left (plan_changes p parent probe changes from).rename_old_paths _
        (IsPlan-changes changes from none_yet)
