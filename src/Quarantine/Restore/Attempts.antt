-- ===== src/Quarantine/Restore/Attempts.antt =====
-- The loop of `restore_one`: which path it takes, and that it overwrites nothing.
use file_reaper.Prelude.{
  ℕ, zero, suc, ◌+◌, ◌≤◌, ◌<◌, ◌≡◌, refl, inl, inr, Bool, true, false, ltb, leb, arith, Bool-cases,
  ap, ◌∙◌,
}
use mathlib.Core.Path.{subst}
use native.Mathlib.Decide.{dec_lt}
use file_reaper.Prelude.Text.{Text}
use file_reaper.Outcome.{CoreError, ok, err, Result-cases}
use file_reaper.Quarantine.Ports.{QuarantineFs, restored, destination_occupied}
use file_reaper.Quarantine.Gateway.{Files, IsGateway, IsMoved, Same, Snapshot, seen}
use file_reaper.Quarantine.Destination.{restore_destination, restore_suffix_max_attempts}
use file_reaper.Quarantine.Restore.{restore_attempts}

module _ {F : QuarantineFs} (G : IsGateway F) (original surrogate : Text) where
  -- The attempts from `first` on, up to the one that was free.
  abbrev pub IsFirstFree : Files → ℕ → ℕ → Type 0
  IsFirstFree files first k =
      (first ≤ k)
      × (k < restore_suffix_max_attempts)
      × (files (restore_destination original k) ≡ false)
      × ((j : ℕ) → first ≤ j → j < k → files (restore_destination original j) ≡ true)

  -- A success takes the first free path, and moves the file there.
  pub restore_attempts-ok :
      (left attempt : ℕ) (s : F.State) (out : Text × Bool)
      → left + attempt ≤ restore_suffix_max_attempts
      → let t = restore_attempts F original surrogate left attempt s in
        t.0 ≡ ok out
        → (k : ℕ) × (out ≡ (restore_destination original k, ltb 0 k))
          × IsFirstFree (G.files s) attempt k
          × IsMoved surrogate (restore_destination original k) (seen G s) (seen G t.1)
  unfolding restore_attempts
  restore_attempts-ok zero attempt s out h done = absurd (ground arith)
  restore_attempts-ok (suc left) attempt s out h done =
      let candidate = restore_destination original attempt in
      let r = F.restore_from_quarantine surrogate candidate s in
      let law = G.files-restore surrogate candidate s in
      elim (Result-cases r.0) [
        | inr (_, failed) ↦ absurd (ground (arith, failed, done))
        | inl (restored, e) ↦
            let (free, moved) = rw e at law in
            (
              attempt,
              ground (arith, e, done),
              (omega arith, omega arith, free, λ j p q. absurd (omega arith)),
              rw (e, restore_attempts) moved,
            )
        | inl (destination_occupied, e) ↦
            let (taken, shown) = rw e at law in
            let same = ap (λ (v : Snapshot). v.0) shown in
            elim (Bool-cases (leb restore_suffix_max_attempts (suc attempt))) [
              | inl over ↦ absurd (ground (arith, e, over, done))
              | inr more ↦
                  let (k, is, free, moved) =
                    restore_attempts-ok left (suc attempt) r.1 out (omega arith)
                      (ground (arith, e, more, done)) in
                  let (above, below, empty, before) = free in
                  (
                    k,
                    is,
                    (
                      omega arith,
                      below,
                      rw (← same) empty,
                      λ j p q. elim (dec_lt attempt j) [
                        | yes past ↦ rw (← same) (before j past q)
                        | no now ↦
                            subst (λ m. G.files s (restore_destination original m) ≡ true)
                              (omega arith) taken
                      ],
                    ),
                    rw (e, more, restore_attempts)
                        (subst
                          (λ v. IsMoved surrogate (restore_destination original k) v (
                            seen G
                              (restore_attempts F original surrogate left (suc attempt) r.1).1))
                          shown moved),
                  )
            ]
      ]

  -- A failure leaves every file in its place.
  pub restore_attempts-err :
      (left attempt : ℕ) (s : F.State) (x : CoreError)
      → let t = restore_attempts F original surrogate left attempt s in
        t.0 ≡ err x → (path : Text) → G.files s path ≡ true → Same (seen G s) (seen G t.1) path
  unfolding restore_attempts
  restore_attempts-err zero attempt s x failed path h = (refl, refl)
  restore_attempts-err (suc left) attempt s x failed path h =
      let candidate = restore_destination original attempt in
      let r = F.restore_from_quarantine surrogate candidate s in
      let law = G.files-restore surrogate candidate s in
      elim (Result-cases r.0) [
        | inr (_, e) ↦ rw (e, restore_attempts) ((rw e at law) path h)
        | inl (restored, e) ↦ absurd (ground (arith, e, failed))
        | inl (destination_occupied, e) ↦
            let shown = (rw e at law).1 in
            let files = ap (λ (v : Snapshot). v.0 path) shown in
            let bytes = ap (λ (v : Snapshot). v.1 path) shown in
            elim (Bool-cases (leb restore_suffix_max_attempts (suc attempt))) [
              | inl over ↦ rw (e, over, restore_attempts) (files, bytes)
              | inr more ↦
                  let later =
                    restore_attempts-err left (suc attempt) r.1 x (ground (arith, e, more, failed))
                      path (files ∙ h) in
                  rw (e, more, restore_attempts) (later.0 ∙ files, later.1 ∙ bytes)
            ]
      ]
