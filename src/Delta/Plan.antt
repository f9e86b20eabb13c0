-- ===== src/Delta/Plan.antt =====
-- core/app/src/usn_apply.rs: `plan_usn_mutations`, from the changes of a journal to the changes of the
-- index. What `probe` answers is a parameter; it is asked once for each identifier that is given.
use file_reaper.Prelude.{
  ℕ, ◌+◌, ◌%◌, ◌^◌, Bool, true, false, Option, none, some, List, [], ◌∷◌, ◌++◌,
}
use file_reaper.Prelude.Text.{Text}
use file_reaper.Platform.{Platform}
use file_reaper.Quarantine.Guard.{is_under_service_directory}
use file_reaper.Usn.{UsnChange}
use file_reaper.Delta.{
  UsnChangeClass, create, delete, rename_old, rename_new, modify, ignore, classify_usn_reason,
  FileProbe, PathMap, find, forget, put, insert, join_child, below_parent, resolve_change_path,
  upsert,
}
use file_reaper.Delta.Planning.{
  no_stats, build_record, Planning, push_remove, count_created, count_modified, count_deleted,
  count_renamed, count_unresolved, count_directory, count_quarantine, count_ignored,
}

-- `probe`, and `Path::parent`, where nothing is the empty string.
module _ (p : Platform) (parent : Text → Text) (probe : ℕ → Text → Option FileProbe) where
  abbrev pub cached : UsnChange → Text → Planning → Planning
  cached change path s = record s { cache = insert p change.file_ref path s.cache }

  -- The file at a path is probed, gets the next identifier, and is written to the index.
  unfoldable pub push_upsert : UsnChange → Text → Planning → Planning
  unfolding insert build_record
  push_upsert change path s = record s {
    cache = insert p change.file_ref path s.cache;
    mutations =
        s.mutations
        ++ upsert (build_record p s.next_candidate_id path (probe s.next_candidate_id path) change)
          ∷ [];
    next_candidate_id = (s.next_candidate_id + 1) % 2 ^ 64;
  }

  -- The new name in the directory of the old path.
  unfoldable pub renamed_in : Text → Text → Text
  unfolding join_child
  renamed_in old name = elim (parent old) [ [] ↦ name | c ∷ cs ↦ join_child p (c ∷ cs) name ]

  -- A directory that is new, or has a new name, has its path in the cache: its path below its
  -- parent, or else beside its old path.
  unfoldable pub place_directory : UsnChange → Option Text → Option Text → Planning → Planning
  unfolding renamed_in forget insert
  place_directory change (some path) old s = cached change path s
  place_directory change none none s = s
  place_directory change none (some old) s =
      cached change (renamed_in old change.name)
        (record s { rename_old_paths = forget change.file_ref s.rename_old_paths })

  unfoldable pub remember_old : UsnChange → Option Text → Planning → Planning
  unfolding put
  remember_old change none s = s
  remember_old change (some path) s = record s {
    rename_old_paths = put change.file_ref path s.rename_old_paths;
  }

  -- A directory changes the cache only.
  unfoldable pub plan_directory : UsnChangeClass → UsnChange → Planning → Planning
  unfolding resolve_change_path below_parent find place_directory remember_old forget
  plan_directory delete change s =
      count_directory (record s { cache = forget change.file_ref s.cache })
  plan_directory rename_old change s =
      count_directory (remember_old change (resolve_change_path p s.cache change) s)
  plan_directory rename_new change s = count_directory (
      place_directory change (below_parent p s.cache change)
        (find change.file_ref s.rename_old_paths) s)
  plan_directory create change s = count_directory (
      place_directory change (below_parent p s.cache change)
        (find change.file_ref s.rename_old_paths) s)
  plan_directory modify change s = count_directory s
  plan_directory ignore change s = count_ignored s

  -- A file that is gone. A path that does not resolve is not in the cache either.
  unfoldable pub plan_delete : UsnChange → Option Text → Planning → Planning
  unfolding forget
  plan_delete change none s = count_unresolved s
  plan_delete change (some path) s =
      count_deleted (push_remove path (record s { cache = forget change.file_ref s.cache }))

  unfoldable pub plan_rename_old : UsnChange → Option Text → Planning → Planning
  unfolding forget put
  plan_rename_old change none s = count_unresolved s
  plan_rename_old change (some path) s = record s {
    cache = forget change.file_ref s.cache;
    rename_old_paths = put change.file_ref path s.rename_old_paths;
  }

  -- The new path of a file: below its parent, or beside its old path.
  unfoldable pub new_path : UsnChange → Option Text → Option Text → Option Text
  unfolding renamed_in
  new_path change (some path) old = some path
  new_path change none none = none
  new_path change none (some old) = some (renamed_in old change.name)

  -- The old path goes out of the index, and is no longer waited for.
  unfoldable pub leave_old : UsnChange → Text → Planning → Planning
  unfolding forget
  leave_old change old s =
      push_remove old (record s { rename_old_paths = forget change.file_ref s.rename_old_paths })

  -- A file that has a new path, which lies in the service directory or not, and an old one or none.
  unfoldable pub plan_moved : UsnChange → Text → Bool → Option Text → Planning → Planning
  unfolding leave_old insert push_upsert
  plan_moved change path true none s = count_quarantine (cached change path s)
  plan_moved change path true (some old) s =
      count_quarantine (cached change path (count_deleted (leave_old change old s)))
  plan_moved change path false none s = count_created (push_upsert change path s)
  plan_moved change path false (some old) s =
      count_renamed (push_upsert change path (leave_old change old s))

  unfoldable pub plan_rename_new : UsnChange → Option Text → Planning → Planning
  unfolding is_under_service_directory find plan_moved
  plan_rename_new change none s = count_unresolved s
  plan_rename_new change (some path) s =
      plan_moved change path (is_under_service_directory p path)
        (find change.file_ref s.rename_old_paths) s

  -- A file that was created or modified, outside of the service directory or in it.
  unfoldable pub plan_written :
      (Planning → Planning) → UsnChange → Text → Bool → Planning → Planning
  unfolding insert push_upsert
  plan_written count change path true s = count_quarantine (cached change path s)
  plan_written count change path false s = count (push_upsert change path s)

  -- Where the path does not resolve, no parent makes it either.
  unfoldable pub plan_write : (Planning → Planning) → UsnChange → Option Text → Planning → Planning
  unfolding is_under_service_directory plan_written
  plan_write count change none s = count_unresolved s
  plan_write count change (some path) s =
      plan_written count change path (is_under_service_directory p path) s

  unfoldable pub plan_file : UsnChangeClass → UsnChange → Planning → Planning
  unfolding resolve_change_path below_parent find new_path plan_delete plan_rename_old
      plan_rename_new plan_write
  plan_file ignore change s = count_ignored s
  plan_file delete change s = plan_delete change (resolve_change_path p s.cache change) s
  plan_file rename_old change s = plan_rename_old change (resolve_change_path p s.cache change) s
  plan_file rename_new change s =
      plan_rename_new change
        (new_path change (below_parent p s.cache change) (find change.file_ref s.rename_old_paths))
        s
  plan_file create change s =
      plan_write count_created change (resolve_change_path p s.cache change) s
  plan_file modify change s =
      plan_write count_modified change (resolve_change_path p s.cache change) s

  -- One turn of the loop.
  unfoldable pub plan_change : Bool → UsnChange → Planning → Planning
  unfolding classify_usn_reason plan_directory plan_file
  plan_change true change s = plan_directory (classify_usn_reason change.reason) change s
  plan_change false change s = plan_file (classify_usn_reason change.reason) change s

  -- The loop of `plan_usn_mutations`
  unfoldable pub plan_changes : List UsnChange → Planning → Planning
  unfolding plan_change
  plan_changes [] s = s
  plan_changes (change ∷ changes) s =
      plan_changes changes (plan_change change.is_directory change s)

  -- The old paths that no new name came for are removed.
  unfoldable pub remove_left : PathMap → Planning → Planning
  remove_left [] s = s
  remove_left (e ∷ es) s = remove_left es (count_deleted (push_remove e.1 s))

  -- Before the first change.
  abbrev pub beginning : PathMap → ℕ → Planning
  beginning cache next_candidate_id = record {
    cache = cache;
    rename_old_paths = [];
    mutations = [];
    stats = no_stats;
    next_candidate_id = next_candidate_id;
  }

  -- `plan_usn_mutations`, from a cache and the next identifier.
  unfoldable pub plan_usn_mutations : List UsnChange → PathMap → ℕ → Planning
  unfolding plan_changes remove_left
  plan_usn_mutations changes cache next_candidate_id =
      let s = plan_changes changes (beginning cache next_candidate_id) in
      remove_left s.rename_old_paths s
