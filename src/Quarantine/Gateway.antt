-- ===== src/Quarantine/Gateway.antt =====
-- What can be seen of the disk: whether a path names something, and the bytes of a file (none of a
-- folder). A folder moves and disappears with all that stands below it, so that the laws leave open
-- what becomes of the paths below those that an operation is given.
use file_reaper.Prelude.{
  ◌≡◌, refl, ap, ◌∙◌, ◌&&◌, not, Bool, true, false, [], ◌∷◌, ◌==◌, arith, ==_refl, Bool-cases, inl,
  inr, List, if◌then◌else◌,
}
use file_reaper.Prelude.Text.{Text, text_eq, text_eq_iff, text_eq_sym}
use file_reaper.PathKey.{lower, as_separator}
use file_reaper.Outcome.{Result, ok, err, is_ok}
use file_reaper.Quarantine.{FileIdentity}
use file_reaper.Quarantine.Ports.{
  QuarantineFs, RestoreMove, restored, destination_occupied, RecoveryLocation, source_only,
  quarantine_only, both, missing, SurrogateState, present,
}

abbrev pub Files : Type 0
Files = Text → Bool

-- What stands at each path, and its bytes.
abbrev pub Snapshot : Type 0
Snapshot = Files × (Text → Text)

-- One character of a path, where neither the case nor the kind of a separator counts.
abbrev folded : Text → Text
folded [] = []
folded (c ∷ s) = lower (as_separator c) ∷ folded s

abbrev begins_below : Text → Bool
begins_below [] = true
begins_below (c ∷ s) = c == b'\\'

unfoldable is_prefix_path : Text → Text → Bool
unfolding lower as_separator
is_prefix_path [] s = begins_below s
is_prefix_path (r ∷ rs) [] = false
is_prefix_path (r ∷ rs) (c ∷ s) =
    r == c
    && elim rs [ [] ↦ if r == b'\\' then true else begins_below s | q ∷ qs ↦ is_prefix_path rs s ]

-- The path is the other one or stands below it.
unfoldable pub is_at_or_below : Text → Text → Bool
unfolding is_prefix_path
is_at_or_below root path = is_prefix_path (folded root) (folded path)

-- Neither path stands at or below the other.
unfoldable pub are_apart : Text → Text → Bool
unfolding is_at_or_below
are_apart a b = not (is_at_or_below a b) && not (is_at_or_below b a)

is_prefix_path_refl : (s : Text) → is_prefix_path s s ≡ true
unfolding is_prefix_path
is_prefix_path_refl [] = refl
is_prefix_path_refl (c ∷ []) = ground (arith, ==_refl c)
is_prefix_path_refl (c ∷ d ∷ s) = ground (arith, ==_refl c, is_prefix_path_refl (d ∷ s))

-- Only different texts are apart, and only another text does not stand at or below a path.
pub text_eq_of_outside :
    (root path : Text) → is_at_or_below root path ≡ false → text_eq root path ≡ false
unfolding is_at_or_below
text_eq_of_outside root path h = elim (Bool-cases (text_eq root path)) [
  | inr other ↦ other
  | inl same ↦
      absurd (ground (arith, h, (text_eq_iff root path).0 same, is_prefix_path_refl (folded root)))
]

pub text_eq_of_apart : (a b : Text) → are_apart a b ≡ true → text_eq a b ≡ false
unfolding are_apart
text_eq_of_apart a b h = text_eq_of_outside a b (ground (arith, h))

pub are_apart_sym : (a b : Text) → are_apart a b ≡ true → are_apart b a ≡ true
unfolding are_apart
are_apart_sym a b h = ground (arith, h)

-- A path holds what it held.
abbrev pub Same : Snapshot → Snapshot → Text → Type 0
Same a b path = (b.0 path ≡ a.0 path) × (b.1 path ≡ a.1 path)

-- What a move does, where it may replace a file at its destination.
pub record IsMoved (source destination : Text) (a b : Snapshot) : Type 0 where
  pub there : a.0 source ≡ true
  pub gone : text_eq source destination ≡ false → b.0 source ≡ false
  pub arrived : b.0 destination ≡ true
  pub bytes : b.1 destination ≡ a.1 source
  pub kept :
      (path : Text)
      → a.0 path ≡ true
      → is_at_or_below source path ≡ false
      → text_eq destination path ≡ false
      → Same a b path
  pub frame :
      (path : Text)
      → are_apart source path ≡ true
      → are_apart destination path ≡ true
      → Same a b path

abbrev pub Moves : {A : Type 0} → Result A → Text → Text → Snapshot → Snapshot → Type 0
Moves (ok _) source destination a b = IsMoved source destination a b
Moves (err _) source destination a b = b ≡ a

-- What is there is not what is free.
pub text_eq_of_free :
    (files : Files) (destination path : Text)
    → files destination ≡ false
    → files path ≡ true
    → text_eq destination path ≡ false
text_eq_of_free files destination path free h = elim (Bool-cases (text_eq destination path)) [
  | inr other ↦ other
  | inl same ↦ absurd (ground (arith, free, h, ap files ((text_eq_iff destination path).0 same)))
]

module _ {A : Type 0} (source destination : Text) (a b : Snapshot) where
  -- A file that is at its source, with nothing at the destination, moves or stays.
  pub Moves-ends :
      (r : Result A)
      → Moves r source destination a b
      → a.0 source ≡ true
      → a.0 destination ≡ false
      → (b.0 source ≡ not (is_ok r)) × (b.0 destination ≡ is_ok r)
  Moves-ends (ok x) m src dst = (
    m.gone (text_eq_sym source destination ∙ text_eq_of_free a.0 destination source dst src),
    m.arrived,
  )
  Moves-ends (err x) m src dst =
      (ap (λ (v : Snapshot). v.0 source) m ∙ src, ap (λ (v : Snapshot). v.0 destination) m ∙ dst)

  -- Its bytes go with it.
  pub Moves-bytes :
      (r : Result A)
      → Moves r source destination a b
      → (is_ok r ≡ true → b.1 destination ≡ a.1 source)
        × (is_ok r ≡ false → b.1 source ≡ a.1 source)
  Moves-bytes (ok x) m = (λ h. m.bytes, λ h. absurd (ground (arith, h)))
  Moves-bytes (err x) m =
      (λ h. absurd (ground (arith, h)), λ h. ap (λ (v : Snapshot). v.1 source) m)

  pub Moves-done :
      (r : Result A)
      → Moves r source destination a b
      → text_eq source destination ≡ false
      → is_ok r ≡ true
      → (b.0 source ≡ false) × (b.0 destination ≡ true)
  Moves-done (ok x) m other h = (m.gone other, m.arrived)
  Moves-done (err x) m other h = absurd (ground (arith, h))

  pub Moves-frame :
      (r : Result A) (path : Text)
      → Moves r source destination a b
      → are_apart source path ≡ true
      → are_apart destination path ≡ true
      → Same a b path
  Moves-frame (ok x) path m p q = m.frame path p q
  Moves-frame (err x) path m p q =
      (ap (λ (v : Snapshot). v.0 path) m, ap (λ (v : Snapshot). v.1 path) m)

-- What an attempt to restore does: it moves only to a free path, and one that fails may have made
-- folders on the way to its destination.
abbrev pub Restores : Result RestoreMove → Text → Text → Snapshot → Snapshot → Type 0
Restores (ok restored) surrogate destination a b =
    (a.0 destination ≡ false) × IsMoved surrogate destination a b
Restores (ok destination_occupied) surrogate destination a b = (a.0 destination ≡ true) × (b ≡ a)
Restores (err _) surrogate destination a b = (path : Text) → a.0 path ≡ true → Same a b path

-- What a purge does. One that fails may have removed a part of a folder.
pub record Purges (done : Bool) (surrogate : Text) (a b : Snapshot) : Type 0 where
  pub gone : done ≡ true → b.0 surrogate ≡ false
  pub makes_none : (path : Text) → a.0 path ≡ false → b.0 path ≡ false
  pub frame : (path : Text) → are_apart surrogate path ≡ true → Same a b path

abbrev pub located : Bool → Bool → RecoveryLocation
located true false = source_only
located false true = quarantine_only
located true true = both
located false false = missing

-- What the use cases rely on of the gateway: a move happens or does not, and a restoring move
-- overwrites nothing.
pub record IsGateway (F : QuarantineFs) : Type 0 where
  pub files : F.State → Files
  pub bytes : F.State → Text → Text
  pub files-move :
      (source destination : Text) (identity : FileIdentity) (roots : List Text) (s : F.State)
      → let r = F.move_into_quarantine source destination identity roots s in
        Moves r.0 source destination (files s, bytes s) (files r.1, bytes r.1)
  pub files-restore :
      (surrogate destination : Text) (s : F.State)
      → let r = F.restore_from_quarantine surrogate destination s in
        Restores r.0 surrogate destination (files s, bytes s) (files r.1, bytes r.1)
  pub files-purge :
      (surrogate : Text) (s : F.State)
      → let r = F.purge_from_quarantine surrogate s in
        Purges (is_ok r.0) surrogate (files s, bytes s) (files r.1, bytes r.1)
  pub recovery_location-reads :
      (source surrogate : Text) (s : F.State)
      → files (F.recovery_location source surrogate s).1 ≡ files s
  pub recovery_location-files :
      (source surrogate : Text) (s : F.State) (l : RecoveryLocation)
      → (F.recovery_location source surrogate s).0 ≡ ok l
      → l ≡ located (files s source) (files s surrogate)
  pub surrogate_state-reads :
      (surrogate : Text) (s : F.State) → files (F.surrogate_state surrogate s).1 ≡ files s
  pub surrogate_state-files :
      (surrogate : Text) (s : F.State) (v : SurrogateState)
      → (F.surrogate_state surrogate s).0 ≡ ok v
      → (v ≡ present → files s surrogate ≡ true)
        × (v ≡ SurrogateState.missing → files s surrogate ≡ false)

module _ {F : QuarantineFs} (G : IsGateway F) where
  -- What the disk shows.
  abbrev pub seen : F.State → Snapshot
  seen s = (G.files s, G.bytes s)
