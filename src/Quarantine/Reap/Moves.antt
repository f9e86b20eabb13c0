-- ===== src/Quarantine/Reap/Moves.antt =====
-- The loop of `reap_batch` that moves the files: what stands where when it ends.
use file_reaper.Prelude.{
  inl, inr, ◌≡◌, ◌==◌, ◌∙◌, refl, ap, true, false, List, [], ◌∷◌, All, All-imp, All-imp₂, take,
  drop, arith,
}
use file_reaper.Prelude.Text.{Text}
use file_reaper.Outcome.{Result-cases, is_ok}
use file_reaper.Quarantine.Ports.{QuarantineFs}
use file_reaper.Quarantine.Gateway.{
  Same, IsGateway, seen, are_apart, are_apart_sym, Moves-ends, Moves-bytes, Snapshot, Moves-frame,
}
use file_reaper.Quarantine.Reap.{ReapRequest, move_all}

-- Two requests that share no identifier, and no path of one stands at or below one of the other.
abbrev pub Apart : ReapRequest → ReapRequest → Type 0
Apart q r =
    ((r.entry.id == q.entry.id) ≡ false)
    × (are_apart q.entry.original_path r.entry.original_path ≡ true)
    × (are_apart q.destination_path r.entry.original_path ≡ true)
    × (are_apart q.entry.original_path r.destination_path ≡ true)
    × (are_apart q.destination_path r.destination_path ≡ true)

abbrev pub IsSeparate : List ReapRequest → Type 0
IsSeparate [] = Unit
IsSeparate (q ∷ qs) = All (Apart q) qs × IsSeparate qs

-- A request whose file is at its source, or has moved, with the bytes that it had.
abbrev pub AtSource : (Text → Text) → Snapshot → ReapRequest → Type 0
AtSource bytes v q =
    (v.0 q.entry.original_path ≡ true)
    × (v.0 q.destination_path ≡ false)
    × (v.1 q.entry.original_path ≡ bytes q.entry.original_path)

abbrev pub AtDestination : (Text → Text) → Snapshot → ReapRequest → Type 0
AtDestination bytes v q =
    (v.0 q.entry.original_path ≡ false)
    × (v.0 q.destination_path ≡ true)
    × (v.1 q.destination_path ≡ bytes q.entry.original_path)

-- The paths of a request are apart from the path.
abbrev pub Spares : Text → ReapRequest → Type 0
Spares path q =
    (are_apart q.entry.original_path path ≡ true) × (are_apart q.destination_path path ≡ true)

module _ {F : QuarantineFs} (G : IsGateway F) (roots : List Text) where
  pub move_all-Same_of_Spares :
      (qs : List ReapRequest) (s : F.State) (path : Text)
      → All (Spares path) qs
      → Same (seen G s) (seen G (move_all F roots qs s).1) path
  unfolding move_all
  move_all-Same_of_Spares [] s path h = (refl, refl)
  move_all-Same_of_Spares (q ∷ qs) s path h =
      let e = q.entry in
      let r =
        F.move_into_quarantine e.original_path q.destination_path q.expected_identity roots s in
      let now =
        Moves-frame e.original_path q.destination_path (seen G s) (seen G r.1) r.0 path
          (G.files-move e.original_path q.destination_path q.expected_identity roots s) h.0.0
          h.0.1 in
      let later = move_all-Same_of_Spares qs r.1 path h.1 in
      (ground (arith, now.0, later.0), ground (arith, now.1, later.1))

  AtSource-move :
      (bytes : Text → Text) (q r : ReapRequest) (s : F.State)
      → Apart q r
      → AtSource bytes (seen G s) r
      → AtSource bytes
          (seen G
            (F.move_into_quarantine q.entry.original_path q.destination_path q.expected_identity
              roots s).1)
          r
  AtSource-move bytes q r s apart h =
      let t =
        F.move_into_quarantine q.entry.original_path q.destination_path q.expected_identity roots
          s in
      let move =
        G.files-move q.entry.original_path q.destination_path q.expected_identity roots s in
      let same : ((path : Text)
          → are_apart q.entry.original_path path ≡ true
          → are_apart q.destination_path path ≡ true
          → Same (seen G s) (seen G t.1) path) =
        λ path.
          Moves-frame q.entry.original_path q.destination_path (seen G s) (seen G t.1) t.0 path
            move in
      let source = same r.entry.original_path apart.1 apart.2 in
      (source.0 ∙ h.0, (same r.destination_path apart.3 apart.4).0 ∙ h.1, source.1 ∙ h.2)

  Spares-source : (q r : ReapRequest) → Apart q r → Spares q.entry.original_path r
  Spares-source q r a = (are_apart_sym _ _ a.1, are_apart_sym _ _ a.3)

  Spares-destination : (q r : ReapRequest) → Apart q r → Spares q.destination_path r
  Spares-destination q r a = (are_apart_sym _ _ a.2, are_apart_sym _ _ a.4)

  -- The files of the requests before the one that failed are moved, and all others stand where
  -- they were.
  pub files-move_all :
      (bytes : Text → Text) (qs : List ReapRequest) (s : F.State)
      → IsSeparate qs
      → All (AtSource bytes (seen G s)) qs
      → let r = move_all F roots qs s in
        All (AtDestination bytes (seen G r.1)) (take r.0.0 qs)
        × All (AtSource bytes (seen G r.1)) (drop r.0.0 qs)
  unfolding move_all
  files-move_all bytes [] s apart h = (tt, tt)
  files-move_all bytes (q ∷ qs) s apart h =
      let e = q.entry in
      let r =
        F.move_into_quarantine e.original_path q.destination_path q.expected_identity roots s in
      let move = G.files-move e.original_path q.destination_path q.expected_identity roots s in
      let ends =
        Moves-ends e.original_path q.destination_path (seen G s) (seen G r.1) r.0 move h.0.0
          h.0.1 in
      let moved = Moves-bytes e.original_path q.destination_path (seen G s) (seen G r.1) r.0 move in
      let later =
        All-imp₂ (Apart q) (AtSource bytes (seen G s)) (AtSource bytes (seen G r.1))
          (λ t. AtSource-move bytes q t s) qs apart.0 h.1 in
      let rest = files-move_all bytes qs r.1 apart.1 later in
      let at_source =
        move_all-Same_of_Spares qs r.1 e.original_path
          (All-imp (Apart q) (Spares e.original_path) (Spares-source q) qs apart.0) in
      let at_destination =
        move_all-Same_of_Spares qs r.1 q.destination_path
          (All-imp (Apart q) (Spares q.destination_path) (Spares-destination q) qs apart.0) in
      elim (Result-cases r.0) [
        | inl (_, done) ↦
            rw (done, move_all)
              (
                (
                  (
                    ground (arith, done, ends.0, at_source.0),
                    ground (arith, done, ends.1, at_destination.0),
                    at_destination.1 ∙ moved.0 (ap is_ok done) ∙ h.0.2,
                  ),
                  rest.0,
                ),
                rest.1,
              )
        | inr (_, failed) ↦
            rw (failed, move_all)
              (
                tt,
                (
                  (
                    ground (arith, failed, ends.0),
                    ground (arith, failed, ends.1),
                    moved.1 (ap is_ok failed) ∙ h.0.2,
                  ),
                  later,
                ),
              )
      ]
