-- ===== src/Gate/Waiting.antt =====
-- core/app/src/duplicates/volume_limit.rs: when a caller of `acquire` waits, and when it returns.
use file_reaper.Prelude.{
  ℕ, ◌∙◌, ap, All, ◌≤◌, ◌<◌, ◌≡◌, ◌↔◌, ◌⊎◌, inl, inr, Bool-cases, true, false, Option, none, some,
  List, [], ◌∷◌, ◌++◌, ltb, arith,
}
use file_reaper.Outcome.{ok}
use file_reaper.Gate.{
  Volumes, VolumeState, new, granted, acquire_turn, state_or_insert, release, after_turn, acquire,
  Chance,
}
use file_reaper.Gate.Callers.{Callers, count, drop, Reach}
use file_reaper.Gate.Bound.{
  Counts, Reach-IsSound, acquire_turn-granted, acquire_turn-waits, Step-IsSound, count-here,
}

Counts-max : (max : ℕ) (o : Option VolumeState) (n : ℕ) → Counts max o n → n ≤ max
Counts-max max none n h = omega (arith, h)
Counts-max max (some state) n h = omega (arith, h.0, h.1, h.2)

active-count :
    (max : ℕ) (o : Option VolumeState) (n : ℕ) → Counts max o n → (state_or_insert o).active ≡ n
unfolding state_or_insert
active-count max none n h = ground (arith, h)
active-count max (some state) n h = h.0

-- In every state that callers of a new gate reach, a turn that is not cancelled is granted exactly
-- when fewer permits of the volume are alive than the limit.
pub Reach-granted :
    {asked : ℕ} {s : Callers} (volume : ℕ)
    → Reach asked s
    → ((acquire_turn (new asked).max_per_volume volume false s.inner).0 ≡ granted)
      ↔ (count volume s.permits < (new asked).max_per_volume)
Reach-granted {asked} {s} volume r =
    let max = (new asked).max_per_volume in
    let h = Reach-IsSound r in
    let n = active-count max (s.inner volume) (count volume s.permits) (h volume) in
    elim (Bool-cases (ltb (state_or_insert (s.inner volume)).active max)) [
      | inl free ↦ (
        λ e. ground (arith, n, free),
        λ lt. ap (λ t. t.0) (acquire_turn-granted max volume s.inner free),
      )
      | inr full ↦ (
        λ e. absurd (ground (arith, acquire_turn-waits max volume s.inner full, e)),
        λ lt. absurd (ground (arith, n, full, lt)),
      )
    ]

-- A caller that does not give up, and what it comes to once it gets to see the map that a drop of
-- a permit of its volume leaves behind.
abbrev pub IsPatient : Chance → Type 0
IsPatient chance = chance.is_cancelled ≡ false

-- The turn of such a caller right after a permit of the volume was dropped.
abbrev pub after_drop : ℕ → Callers → Chance
after_drop volume s = record { is_cancelled = false; found = release volume s.inner }

drop-free :
    {asked : ℕ} {s : Callers} (volume : ℕ) (before after : List ℕ)
    → Reach asked s
    → s.permits ≡ before ++ volume ∷ after
    → ltb (state_or_insert (release volume s.inner volume)).active (new asked).max_per_volume ≡ true
drop-free {asked} {s} volume before after r p =
    let max = (new asked).max_per_volume in
    let sound = Reach-IsSound r volume in
    let dropped = Step-IsSound (drop volume before after s p) (Reach-IsSound r) volume in
    let n = active-count max (s.inner volume) (count volume s.permits) sound in
    ground (
      arith,
      active-count max (release volume s.inner volume) (count volume (before ++ after)) dropped,
      n,
      count-here volume before after,
      Counts-max max (s.inner volume) _ sound,
      ap (count volume) p,
    )

acquire-cons :
    (max volume : ℕ) (chance : Chance) (chances : List Chance)
    → chance.is_cancelled ≡ false
    → ((inner : Volumes) × (acquire max volume (chance ∷ chances) ≡ some (ok tt, inner)))
      ⊎ (acquire max volume (chance ∷ chances) ≡ acquire max volume chances)
unfolding acquire after_turn
acquire-cons max volume chance chances patient =
    let r = acquire max volume chances in
    rw patient elim (Bool-cases (ltb (state_or_insert (chance.found volume)).active max)) [
      | inl free ↦
          inl
            (_, ap (λ t. after_turn t.0 t.1 r) (acquire_turn-granted max volume chance.found free))
      | inr full ↦
          inr (ap (λ t. after_turn t.0 t.1 r) (acquire_turn-waits max volume chance.found full))
    ]

-- Where the limit was asked for, the callers of the gate have reached a state with a permit of the
-- volume, that permit is dropped, and a caller of `acquire` that is never cancelled then gets a turn,
-- `acquire` returns with a permit, in whatever states its turns before found the gate.
pub acquire-returns :
    {asked : ℕ} {s : Callers} (volume : ℕ) (before after : List ℕ) (earlier next : List Chance)
    → Reach asked s
    → s.permits ≡ before ++ volume ∷ after
    → All IsPatient earlier
    → (inner : Volumes) × (acquire
          (new asked).max_per_volume
          volume
          (earlier ++ after_drop volume s ∷ next)
        ≡ some (ok tt, inner))
unfolding acquire after_turn
acquire-returns {asked} {s} volume before after [] next r p patient =
    let max = (new asked).max_per_volume in
    (
      _,
      ap (λ t. after_turn t.0 t.1 (acquire max volume next))
          (acquire_turn-granted max volume (release volume s.inner)
            (drop-free volume before after r p)),
    )
acquire-returns {asked} {s} volume before after (chance ∷ earlier) next r p patient =
    let max = (new asked).max_per_volume in
    let rest = earlier ++ after_drop volume s ∷ next in
    let returned = acquire-returns volume before after earlier next r p patient.1 in
    elim (acquire-cons max volume chance rest patient.0) [
      | inl done ↦ done
      | inr waited ↦ (returned.0, waited ∙ returned.1)
    ]
