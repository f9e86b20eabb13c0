-- ===== src/Gate.antt =====
-- core/app/src/duplicates/volume_limit.rs: the limit of reads at one time on one volume. The map
-- from volumes to their counters is a function, and a volume is the code of its letter. The mutex
-- makes one turn of the loop in `acquire`, and each other operation, one step; between two turns
-- the caller waits, and finds what the other callers have left.
pub mod Callers
pub mod Bound
pub mod Waiting
use file_reaper.Prelude.{
  ℕ, ◌+◌, ◌-◌, Bool, true, false, ◌&&◌, Option, none, some, List, [], ◌∷◌, ltb, leb, ◌==◌,
  if◌then◌else◌,
}
use file_reaper.Prelude.Text.{Text, codes}
use file_reaper.Outcome.{Result, ok, err, cancelled}
use file_reaper.Platform.{is_ascii_alphabetic}
use file_reaper.Quarantine.Guard.{strip_prefix, trim}

-- `UNKNOWN_VOLUME`
abbrev pub unknown_volume : ℕ
unknown_volume = b'?'

-- `to_ascii_uppercase` of a letter.
unfoldable pub upper : ℕ → ℕ
upper c = if leb b'a' c && leb c b'z' then c - 32 else c

unfoldable pub volume_from_drive_prefix : Text → ℕ
unfolding is_ascii_alphabetic upper
volume_from_drive_prefix (letter ∷ colon ∷ rest) =
    if colon == b':' && is_ascii_alphabetic letter then upper letter else unknown_volume
volume_from_drive_prefix _ = unknown_volume

unfoldable pub volume_from_path : Text → ℕ
unfolding volume_from_drive_prefix strip_prefix trim
volume_from_path path =
    let p = trim path in
    elim (strip_prefix (codes "\\\\?\\") p) [
      | some rest ↦ volume_from_drive_prefix rest
      | none ↦ elim (strip_prefix (codes "\\\\.\\") p) [
        | some rest ↦ volume_from_drive_prefix rest
        | none ↦ volume_from_drive_prefix p
      ]
    ]

pub record VolumeState : Type 0 where
  pub active : ℕ
  pub peak : ℕ

-- The guarded map.
abbrev pub Volumes : Type 0
Volumes = ℕ → Option VolumeState

pub record VolumeIoGate : Type 0 where
  pub max_per_volume : ℕ
  pub inner : Volumes

-- `VolumeIoGate::new`, where `max_per_volume.max(1)` is the limit.
unfoldable pub new : ℕ → VolumeIoGate
new max_per_volume = record {
  max_per_volume = if ltb max_per_volume 1 then 1 else max_per_volume;
  inner = λ volume. none;
}

-- What one turn of the loop in `acquire` comes to: it returns, or it waits.
pub data Turn : Type 0 where
  granted refused waits : Turn

unfoldable pub put_state : ℕ → VolumeState → Volumes → Volumes
put_state volume state inner v = if volume == v then some state else inner v

-- `entry(volume).or_insert(VolumeState { active: 0, peak: 0 })`
unfoldable pub state_or_insert : Option VolumeState → VolumeState
state_or_insert none = record { active = 0; peak = 0 }
state_or_insert (some state) = state

-- `state.active += 1`, with the peak that follows.
unfoldable pub raise_active : VolumeState → VolumeState
raise_active state =
    let active = state.active + 1 in
    record { active = active; peak = if ltb state.peak active then active else state.peak }

-- One turn of `acquire`, with the answer of `is_cancelled`.
unfoldable pub acquire_turn : ℕ → ℕ → Bool → Volumes → Turn × Volumes
unfolding state_or_insert put_state raise_active
acquire_turn max_per_volume volume is_cancelled inner =
    if is_cancelled
    then (refused, inner)
    else let state = state_or_insert (inner volume) in
      if ltb state.active max_per_volume
      then (granted, put_state volume (raise_active state) inner)
      else (waits, put_state volume state inner)

-- A turn of a caller: what `is_cancelled` answers, and the map that the caller finds.
pub record Chance : Type 0 where
  pub is_cancelled : Bool
  pub found : Volumes

-- After a turn, `acquire` returns, or its other turns tell.
unfoldable pub after_turn :
    Turn → Volumes → Option (Result (Unit {0}) × Volumes) → Option (Result (Unit {0}) × Volumes)
after_turn granted inner later = some (ok tt, inner)
after_turn refused inner later = some (err cancelled, inner)
after_turn waits inner later = later

-- `acquire`, for the turns that the caller gets; there is no result while it still waits.
unfoldable pub acquire : ℕ → ℕ → List Chance → Option (Result (Unit {0}) × Volumes)
unfolding acquire_turn after_turn
acquire max_per_volume volume [] = none
acquire max_per_volume volume (chance ∷ chances) =
    let t = acquire_turn max_per_volume volume chance.is_cancelled chance.found in
    after_turn t.0 t.1 (acquire max_per_volume volume chances)

-- `acquire_for_path`
unfoldable pub acquire_for_path : ℕ → Text → List Chance → Option (Result (Unit {0}) × Volumes)
unfolding acquire volume_from_path
acquire_for_path max_per_volume path = acquire max_per_volume (volume_from_path path)

-- `release`, which the drop of a permit calls; `saturating_sub` is the subtraction of ℕ.
unfoldable pub release : ℕ → Volumes → Volumes
unfolding put_state
release volume inner = elim (inner volume) [
  | none ↦ inner
  | some state ↦ put_state volume (record state { active = state.active - 1 }) inner
]

unfoldable pub peak_for : ℕ → Volumes → ℕ
peak_for volume inner = elim (inner volume) [ none ↦ 0 | some state ↦ state.peak ]

unfoldable pub active_for : ℕ → Volumes → ℕ
active_for volume inner = elim (inner volume) [ none ↦ 0 | some state ↦ state.active ]

-- `state.peak = state.active`
unfoldable pub reset_state : Option VolumeState → Option VolumeState
reset_state none = none
reset_state (some state) = some (record state { peak = state.active })

unfoldable pub reset_stats : Volumes → Volumes
unfolding reset_state
reset_stats inner v = reset_state (inner v)
