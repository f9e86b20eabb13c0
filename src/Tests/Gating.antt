-- ===== src/Tests/Gating.antt =====
-- A gate of two reads at one time, with callers on the volume C.
use file_reaper.Prelude.{◌≡◌, refl, false, none, some, [], ◌∷◌}
use file_reaper.Prelude.Text.{codes}
use file_reaper.Outcome.{ok}
use file_reaper.Gate.{Volumes, new, acquire_turn, put_state, acquire, Chance, volume_from_path}
use file_reaper.Gate.Callers.{Callers, permits_after, turn, Reach, start, later}
use file_reaper.Gate.Bound.{IsSound, Reach-IsSound}
use file_reaper.Gate.Waiting.{after_drop, acquire-returns}

abbrev two_readers : Callers
two_readers = record {
  inner = (acquire_turn 2 b'C' false (acquire_turn 2 b'C' false (λ v. none)).1).1;
  permits = b'C' ∷ b'C' ∷ [];
}

two_readers-Reach : Reach 2 two_readers
unfolding new permits_after acquire_turn put_state
two_readers-Reach = later (later start (turn b'C' false _)) (turn b'C' false _)

Reach-IsSound_example : IsSound 2 two_readers
unfolding new
Reach-IsSound_example = Reach-IsSound {asked = 2} {s = two_readers} two_readers-Reach

-- The caller finds the gate full at first.
abbrev full_gate : Chance
full_gate = record { is_cancelled = false; found = two_readers.inner }

acquire-returns_example :
    (inner : Volumes) × (acquire 2 b'C' (full_gate ∷ after_drop b'C' two_readers ∷ [])
      ≡ some (ok tt, inner))
unfolding new
acquire-returns_example =
    acquire-returns {asked = 2} {s = two_readers} b'C' (b'C' ∷ []) [] (full_gate ∷ []) []
      two_readers-Reach refl (refl, tt)

volume_from_verbatim : volume_from_path (codes " \\\\?\\e:\\foo") ≡ b'E'
unfolding volume_from_path
volume_from_verbatim = refl
