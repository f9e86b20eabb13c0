-- ===== src/Tests/Disk.antt =====
-- A disk in memory, of files only. The script says which of the next operations fail.
use file_reaper.Prelude.{
  ◌≡◌, refl, Bool, true, false, not, ◌||◌, List, [], ◌∷◌, if◌then◌else◌, Bool-cases, inl, inr,
  arith,
}
use file_reaper.Prelude.Text.{Text, text_eq, text_eq_refl, text_eq_sym}
use file_reaper.Outcome.{io, Result, ok, err, Exec, is_ok}
use file_reaper.Quarantine.Ports.{
  QuarantineFs, RestoreMove, restored, destination_occupied, SurrogateState, present,
}
use file_reaper.Quarantine.Gateway.{
  Files, Snapshot, IsMoved, Moves, Restores, Purges, located, text_eq_of_outside, text_eq_of_apart,
}

pub record Disk : Type 0 where
  pub files : Files
  pub bytes : Text → Text
  pub script : List Bool

abbrev pub fails : List Bool → Bool
fails [] = false
fails (b ∷ bs) = b

abbrev pub later : List Bool → List Bool
later [] = []
later (b ∷ bs) = bs

-- A disk that holds files at the paths of a list.
abbrev pub holds : List Text → Files
unfolding text_eq
holds [] path = false
holds (p ∷ ps) path = text_eq p path || holds ps path

abbrev pub shown : Disk → Snapshot
shown s = (s.files, s.bytes)

abbrev pub move_file : Text → Text → Snapshot → Snapshot
move_file source destination v = (
  λ p. if text_eq destination p then true else if text_eq source p then false else v.0 p,
  λ p. if text_eq destination p then v.1 source else v.1 p,
)

abbrev pub delete_file : Text → Snapshot → Snapshot
delete_file path v = (λ p. if text_eq path p then false else v.0 p, v.1)

abbrev next : Disk → Snapshot → Disk
next s v = record { files = v.0; bytes = v.1; script = later s.script }

-- A change that fails by the script or when it is refused.
abbrev pub change : Bool → (Snapshot → Snapshot) → Disk → Result (Unit {0}) × Disk
change refused f s =
    if fails s.script || refused then (err io, next s (shown s)) else (ok tt, next s (f (shown s)))

abbrev pub restore_move : Text → Text → Exec Disk RestoreMove
restore_move surrogate destination s =
    if fails s.script || not (s.files surrogate)
    then (err io, next s (shown s))
    else if s.files destination
    then (ok destination_occupied, next s (shown s))
    else (ok restored, next s (move_file surrogate destination (shown s)))

abbrev pub disk : QuarantineFs
disk = record {
  State = Disk;
  move_into_quarantine = λ source destination identity roots s.
      change (not (s.files source) || s.files destination) (move_file source destination) s;
  restore_from_quarantine = restore_move;
  purge_from_quarantine = λ surrogate s. change (not (s.files surrogate)) (delete_file surrogate) s;
  recovery_location = λ source surrogate s. (ok (located (s.files source) (s.files surrogate)), s);
  surrogate_state =
      λ surrogate s. (ok (if s.files surrogate then present else SurrogateState.missing), s);
}

move_file-IsMoved :
    (source destination : Text) (v : Snapshot)
    → v.0 source ≡ true
    → IsMoved source destination v (move_file source destination v)
move_file-IsMoved source destination v h = record {
  there = h;
  gone = λ other. ground (arith, other, text_eq_sym source destination, text_eq_refl source);
  arrived = ground (arith, text_eq_refl destination);
  bytes = ground (arith, text_eq_refl destination);
  kept = λ path there outside other.
      (ground (arith, other, text_eq_of_outside source path outside), ground (arith, other));
  frame = λ path p q. (
    ground (arith, text_eq_of_apart source path p, text_eq_of_apart destination path q),
    ground (arith, text_eq_of_apart destination path q),
  );
}

pub move_into-Moves :
    (source destination : Text) (s : Disk)
    → let r =
        change (not (s.files source) || s.files destination) (move_file source destination) s in
      Moves r.0 source destination (shown s) (shown r.1)
move_into-Moves source destination s = elim (Bool-cases (fails s.script)) [
  | inl faulty ↦ rw faulty refl
  | inr sound ↦ elim (Bool-cases (s.files source)) [
    | inr gone ↦ rw (sound, gone) refl
    | inl there ↦ elim (Bool-cases (s.files destination)) [
      | inl taken ↦ rw (sound, there, taken) refl
      | inr free ↦ rw (sound, there, free) (move_file-IsMoved source destination (shown s) there)
    ]
  ]
]

pub restore_move-Restores :
    (surrogate destination : Text) (s : Disk)
    → let r = restore_move surrogate destination s in
      Restores r.0 surrogate destination (shown s) (shown r.1)
restore_move-Restores surrogate destination s = elim (Bool-cases (fails s.script)) [
  | inl faulty ↦ rw faulty (λ path h. (refl, refl))
  | inr sound ↦ elim (Bool-cases (s.files surrogate)) [
    | inr gone ↦ rw (sound, gone) (λ path h. (refl, refl))
    | inl there ↦ elim (Bool-cases (s.files destination)) [
      | inl taken ↦ rw (sound, there, taken) (taken, refl)
      | inr free ↦
          rw (sound, there, free) (free, move_file-IsMoved surrogate destination (shown s) there)
    ]
  ]
]

pub purge-Purges :
    (surrogate : Text) (s : Disk)
    → let r = change (not (s.files surrogate)) (delete_file surrogate) s in
      Purges (is_ok r.0) surrogate (shown s) (shown r.1)
purge-Purges surrogate s = record {
  gone = λ done. ground (arith, done, text_eq_refl surrogate);
  makes_none = λ path free. ground (arith, free);
  frame = λ path apart. (ground (arith, text_eq_of_apart surrogate path apart), ground arith);
}
