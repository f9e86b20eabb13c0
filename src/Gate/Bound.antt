-- ===== src/Gate/Bound.antt =====
-- core/app/src/duplicates/volume_limit.rs: what the counters of a gate tell of its callers.
use mathlib.Core.Path.{subst}
use file_reaper.Prelude.{
  ℕ, inl, inr, Bool-cases, sym, ==_iff, ==_refl, ◌+◌, ◌-◌, ◌≤◌, ◌≡◌, refl, Bool, true, false,
  Option, none, some, List, [], ◌∷◌, ◌++◌, ltb, ◌==◌, arith, if◌then◌else◌,
}
use file_reaper.Gate.{
  Volumes, VolumeState, new, Turn, granted, waits, acquire_turn, put_state, state_or_insert,
  raise_active, release, reset_stats, reset_state,
}
use file_reaper.Gate.Callers.{
  Callers, count, permits_after, Step, turn, drop, reset, Reach, start, later,
}

-- The counters of one volume, when so many permits of it are alive.
abbrev pub Counts : ℕ → Option VolumeState → ℕ → Type 0
Counts max none alive = alive ≡ 0
Counts max (some state) alive =
    (state.active ≡ alive) × (state.active ≤ state.peak) × (state.peak ≤ max)

-- The counters of every volume are true, and none exceeds the limit.
abbrev pub IsSound : ℕ → Callers → Type 0
IsSound max s = (v : ℕ) → Counts max (s.inner v) (count v s.permits)

count-append : (v : ℕ) (xs ys : List ℕ) → count v (xs ++ ys) ≡ count v xs + count v ys
unfolding count
count-append v [] ys = omega arith
count-append v (x ∷ xs) ys = omega (arith, count-append v xs ys)

count-remove :
    (v w : ℕ) (xs ys : List ℕ)
    → count v (xs ++ w ∷ ys) ≡ (if w == v then 1 else 0) + count v (xs ++ ys)
unfolding count
count-remove v w xs ys = omega (arith, count-append v xs ys, count-append v xs (w ∷ ys))

Counts-keep :
    (max : ℕ) (o : Option VolumeState) (n : ℕ)
    → Counts max o n
    → Counts max (some (state_or_insert o)) n
unfolding state_or_insert
Counts-keep max none n h = ground (arith, h)
Counts-keep max (some state) n h = h

Counts-raise :
    (max : ℕ) (o : Option VolumeState) (n : ℕ)
    → Counts max o n
    → ltb (state_or_insert o).active max ≡ true
    → Counts max (some (raise_active (state_or_insert o))) (1 + n)
unfolding state_or_insert raise_active
Counts-raise max none n h g = ground (arith, h, g)
Counts-raise max (some state) n h g = ground (arith, h, g)

-- It is enough to look at the volume that is written, and at each of the others.
Counts-put :
    {max : ℕ} (volume : ℕ) (state : VolumeState) (inner : Volumes) (alive : ℕ → ℕ)
    → Counts max (some state) (alive volume)
    → ((v : ℕ) → (volume == v) ≡ false → Counts max (inner v) (alive v))
    → (v : ℕ) → Counts max (put_state volume state inner v) (alive v)
unfolding put_state
Counts-put {max} volume state inner alive here there v = elim (Bool-cases (volume == v)) [
  | inl same ↦
      subst (λ w. Counts max (if w == v then some state else inner v) (alive v))
        (sym ((==_iff volume v).0 same))
        (rw (==_refl v)
          (subst (λ w. Counts max (some state) (alive w)) ((==_iff volume v).0 same) here))
  | inr other ↦ rw other (there v other)
]

pub acquire_turn-granted :
    (max volume : ℕ) (inner : Volumes)
    → ltb (state_or_insert (inner volume)).active max ≡ true
    → acquire_turn max volume false inner
      ≡ (granted, put_state volume (raise_active (state_or_insert (inner volume))) inner)
unfolding acquire_turn
acquire_turn-granted max volume inner free = rw free refl

pub acquire_turn-waits :
    (max volume : ℕ) (inner : Volumes)
    → ltb (state_or_insert (inner volume)).active max ≡ false
    → acquire_turn max volume false inner
      ≡ (waits, put_state volume (state_or_insert (inner volume)) inner)
unfolding acquire_turn
acquire_turn-waits max volume inner full = rw full refl

abbrev After : ℕ → ℕ → List ℕ → Turn × Volumes → Type 0
After max volume permits t =
    (v : ℕ) → Counts max (t.1 v) (count v (permits_after t.0 volume permits))

IsSound-turn :
    (max volume : ℕ) (b : Bool) (s : Callers)
    → IsSound max s
    → After max volume s.permits (acquire_turn max volume b s.inner)
unfolding acquire_turn permits_after count
IsSound-turn max volume true s h = h
IsSound-turn max volume false s h =
    elim (Bool-cases (ltb (state_or_insert (s.inner volume)).active max)) [
      | inl free ↦
          subst (After max volume s.permits) (sym (acquire_turn-granted max volume s.inner free)) (
            Counts-put volume _ s.inner (λ v. count v (volume ∷ s.permits))
              (rw (==_refl volume) (Counts-raise max (s.inner volume) _ (h volume) free))
              (λ v other. ground (arith, other, h v)))
      | inr full ↦
          subst (After max volume s.permits) (sym (acquire_turn-waits max volume s.inner full)) (
            Counts-put volume _ s.inner (λ v. count v s.permits)
              (Counts-keep max (s.inner volume) _ (h volume)) (λ v other. h v))
    ]

pub count-here :
    (volume : ℕ) (before after : List ℕ)
    → count volume (before ++ volume ∷ after) ≡ 1 + count volume (before ++ after)
count-here volume before after =
    ground (arith, count-remove volume volume before after, ==_refl volume)

release-some :
    (volume : ℕ) (inner : Volumes) (state : VolumeState)
    → inner volume ≡ some state
    → release volume inner ≡ put_state volume (record state { active = state.active - 1 }) inner
unfolding release
release-some volume inner state e = rw (e, release) refl

-- The permits before and after one of them is dropped.
abbrev Dropped : ℕ → ℕ → List ℕ → List ℕ → Option VolumeState → ℕ → Type 0
Dropped max volume before after o v = Counts max o (count v (before ++ volume ∷ after))

drop_one :
    (max volume : ℕ) (before after : List ℕ) (o : Option VolumeState)
    → Dropped max volume before after o volume
    → (state : VolumeState) × (o ≡ some state)
      × Counts max
          (some (record state { active = state.active - 1 }))
          (count volume (before ++ after))
drop_one max volume before after none h = absurd (omega (arith, h, count-here volume before after))
drop_one max volume before after (some state) h =
    (state, refl, (omega (arith, h.0, count-here volume before after), omega (arith, h.1), h.2))

IsSound-release :
    (max volume : ℕ) (before after : List ℕ) (s : Callers)
    → s.permits ≡ before ++ volume ∷ after
    → IsSound max s
    → (v : ℕ) → Counts max (release volume s.inner v) (count v (before ++ after))
IsSound-release max volume before after s p h =
    let counts = λ (v : ℕ). subst (λ l. Counts max (s.inner v) (count v l)) p (h v) in
    let one = drop_one max volume before after (s.inner volume) (counts volume) in
    subst (λ inner. (v : ℕ) → Counts max (inner v) (count v (before ++ after)))
      (sym (release-some volume s.inner one.0 one.1))
      (Counts-put volume _ s.inner (λ v. count v (before ++ after)) one.2
        (λ v other.
          subst (λ n. Counts max (s.inner v) n)
            (ground (arith, other, count-remove v volume before after)) (counts v)))

Counts-reset :
    (max : ℕ) (o : Option VolumeState) (n : ℕ) → Counts max o n → Counts max (reset_state o) n
unfolding reset_state
Counts-reset max none n h = h
Counts-reset max (some state) n h = (h.0, omega arith, omega (arith, h.1))

pub Step-IsSound : {max : ℕ} {s t : Callers} → Step max s t → IsSound max s → IsSound max t
unfolding reset_stats
Step-IsSound {max} (turn volume b s) h = IsSound-turn max volume b s h
Step-IsSound {max} (drop volume before after s p) h = IsSound-release max volume before after s p h
Step-IsSound {max} (reset s) h = λ v. Counts-reset max (s.inner v) (count v s.permits) (h v)

-- In every state that callers of a new gate reach, the counter of each volume is the number of the
-- permits of it that are alive, and it is at most the peak, which is at most the limit.
pub Reach-IsSound : {asked : ℕ} {s : Callers} → Reach asked s → IsSound (new asked).max_per_volume s
unfolding new count
Reach-IsSound start = λ v. refl
Reach-IsSound {asked} (later r st) = Step-IsSound st (Reach-IsSound r)
