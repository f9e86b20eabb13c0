-- ===== src/Gate/Callers.antt =====
-- core/app/src/duplicates/volume_limit.rs with its callers: the permits that are alive, and the
-- steps in which callers take turns, drop permits and reset the statistics, in any order.
use file_reaper.Prelude.{ℕ, ◌+◌, ◌≡◌, Bool, List, [], ◌∷◌, ◌++◌, ◌==◌, if◌then◌else◌}
use file_reaper.Gate.{
  Volumes, new, Turn, granted, refused, waits, acquire_turn, release, reset_stats,
}

-- The map, and the volume of each `VolumeIoPermit` that is alive.
pub record Callers : Type 0 where
  pub inner : Volumes
  pub permits : List ℕ

unfoldable pub count : ℕ → List ℕ → ℕ
count v [] = 0
count v (w ∷ ws) = (if w == v then 1 else 0) + count v ws

-- A caller that was granted its turn has a permit.
unfoldable pub permits_after : Turn → ℕ → List ℕ → List ℕ
permits_after granted volume permits = volume ∷ permits
permits_after refused volume permits = permits
permits_after waits volume permits = permits

pub data Step (max_per_volume : ℕ) : Callers → Callers → Type 0 where
  turn :
      (volume : ℕ) (is_cancelled : Bool) (s : Callers)
      → Step max_per_volume s (record {
        inner = (acquire_turn max_per_volume volume is_cancelled s.inner).1;
        permits =
            permits_after
              (acquire_turn max_per_volume volume is_cancelled s.inner).0
              volume
              s.permits;
      })
  drop :
      (volume : ℕ) (before after : List ℕ) (s : Callers)
      → s.permits ≡ before ++ volume ∷ after
      → Step max_per_volume s (record { inner = release volume s.inner; permits = before ++ after })
  reset :
      (s : Callers)
      → Step max_per_volume s (record { inner = reset_stats s.inner; permits = s.permits })

-- What is reached from a new gate, whose limit was asked for.
pub data Reach (asked : ℕ) : Callers → Type 0 where
  start : Reach asked (record { inner = (new asked).inner; permits = [] })
  later : {s t : Callers} → Reach asked s → Step (new asked).max_per_volume s t → Reach asked t
