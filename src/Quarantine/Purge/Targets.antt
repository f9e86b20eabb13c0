-- ===== src/Quarantine/Purge/Targets.antt =====
-- The loop that both purges share, whatever fails on the way.
use mathlib.Core.List.{append-nil, append_assoc}
use mathlib.Core.Path.{subst}
use file_reaper.Prelude.{
  sym, ℕ, ◌≡◌, ◌==◌, ap, refl, inl, inr, ◌⊎◌, ◌∙◌, some, true, false, List, [], ◌∷◌, ◌++◌, map, All,
  All-imp₂, arith, ==_iff, saturating_add, Bool-cases,
}
use file_reaper.Prelude.Text.{Text}
use file_reaper.Outcome.{CoreError, Result, ok, err, is_ok, Result-cases}
use file_reaper.Quarantine.{
  AuditOperation, AuditActor, QuarantineStatus, is_quarantined, QuarantineEntry,
}
use file_reaper.Quarantine.Ports.{QuarantineFs, QuarantineManifest, World}
use file_reaper.Quarantine.Gateway.{IsGateway}
use file_reaper.Quarantine.Rows.{Rows, IsJournal, set_status, OtherEntry, HasDistinctIds}
use file_reaper.Quarantine.Reap.{confirmation, event_of}
use file_reaper.Quarantine.Purge.{as_purged, purge_one, purge_targets, total_size}

-- The entry is the manifest's own.
abbrev pub IsRow : Rows → QuarantineEntry → Type 0
IsRow rows e = rows e.id ≡ some e

-- A row is as before, or it was a quarantined one with the property and is purged now.
abbrev pub PurgedOrSame {κ} : (QuarantineEntry → Type κ) → Rows → Rows → ℕ → Type κ
PurgedOrSame P before after i =
    (after i ≡ before i)
    ⊎ ((e : QuarantineEntry) × P e
        × (is_quarantined e.status ≡ true)
        × (before i ≡ some e)
        × (after i ≡ some (as_purged e)))

IsRow-set_status :
    (rows : Rows) (st : QuarantineStatus) (e f : QuarantineEntry)
    → OtherEntry e f
    → IsRow rows f
    → IsRow (set_status e.id st rows) f
unfolding set_status
IsRow-set_status rows st e f other h = ground arith

PurgedOrSame-step {κ} :
    (P : QuarantineEntry → Type κ) (before after : Rows) (e : QuarantineEntry) (i : ℕ)
    → P e
    → is_quarantined e.status ≡ true
    → IsRow before e
    → PurgedOrSame P (set_status e.id QuarantineStatus.purged before) after i
    → PurgedOrSame P before after i
unfolding set_status is_quarantined
PurgedOrSame-step P before after e i p q row (inl same) = elim (Bool-cases (e.id == i)) [
  | inl this ↦ inr (
    e,
    p,
    q,
    ground (arith, this, row, ==_iff e.id i),
    ground (arith, this, row, same, ==_iff e.id i),
  )
  | inr other ↦ inl (ground (arith, other, same))
]
PurgedOrSame-step P before after e i p q row (inr (f, pf, qf, was, is)) =
    elim (Bool-cases (e.id == i)) [
      | inl this ↦ absurd (ground (arith, this, row, was, qf, ==_iff e.id i))
      | inr other ↦ inr (f, pf, qf, ground (arith, other, was), is)
    ]

module _ {F : QuarantineFs} {M : QuarantineManifest} (G : IsGateway F) (J : IsJournal M)
    (surrogate_path : QuarantineEntry → Result Text) (operation : AuditOperation)
    (actor : AuditActor) where
  -- The disk after a round is what the gateway leaves.
  purge_one-fs :
      (e : QuarantineEntry) (path : Text) (w : World F M)
      → surrogate_path e ≡ ok path
      → (purge_one F M surrogate_path operation actor e w).1.fs
        ≡ (F.purge_from_quarantine path w.fs).1
  unfolding purge_one
  purge_one-fs e path w resolved = ground (arith, resolved)

  purge_one-gone :
      (e : QuarantineEntry) (path : Text) (w : World F M) {u : Unit {0}}
      → surrogate_path e ≡ ok path
      → (purge_one F M surrogate_path operation actor e w).0 ≡ ok u
      → is_ok (F.purge_from_quarantine path w.fs).0 ≡ true
  unfolding purge_one
  purge_one-gone e path w resolved h = ground (arith, resolved, h)

  -- A round makes no path, whatever its outcome.
  purge_one-makes_none :
      (e : QuarantineEntry) (w : World F M) (path : Text)
      → G.files w.fs path ≡ false
      → G.files (purge_one F M surrogate_path operation actor e w).1.fs path ≡ false
  purge_one-makes_none e w path free = elim (Result-cases (surrogate_path e)) [
    | inr (_, unresolved) ↦ unfold purge_one in ground (arith, unresolved, free)
    | inl (surrogate, resolved) ↦
        rw (purge_one-fs e surrogate w resolved)
          ((G.files-purge surrogate w.fs).makes_none path free)
  ]

  -- What a round does when it succeeds.
  pub purge_one-ok :
      (e : QuarantineEntry) (w : World F M) {u : Unit {0}}
      → (purge_one F M surrogate_path operation actor e w).0 ≡ ok u
      → let w' = (purge_one F M surrogate_path operation actor e w).1 in
        (path : Text) × (surrogate_path e ≡ ok path)
        × (G.files w'.fs path ≡ false)
        × (J.rows w'.manifest ≡ set_status e.id QuarantineStatus.purged (J.rows w.manifest))
        × (J.audit w'.manifest ≡ J.audit w.manifest ++ event_of e operation actor ∷ [])
  unfolding purge_one
  purge_one-ok e w h = elim (Result-cases (surrogate_path e)) [
    | inr (_, unresolved) ↦ absurd (ground (arith, unresolved))
    | inl (path, resolved) ↦
        let c = confirmation e QuarantineStatus.purged operation actor in
        (
          path,
          resolved,
          rw (purge_one-fs e path w resolved)
              ((G.files-purge path w.fs).gone (purge_one-gone e path w resolved h)),
          ground (arith, resolved, J.rows-confirm_with_audit c w.manifest),
          ground (arith, resolved, J.audit-confirm_with_audit c w.manifest),
        )
  ]

  -- A round that fails leaves the manifest as it was. The file may be gone already.
  pub purge_one-err :
      (e : QuarantineEntry) (w : World F M) {x : CoreError}
      → (purge_one F M surrogate_path operation actor e w).0 ≡ err x
      → let w' = (purge_one F M surrogate_path operation actor e w).1 in
        (J.rows w'.manifest ≡ J.rows w.manifest) × (J.audit w'.manifest ≡ J.audit w.manifest)
  unfolding purge_one
  purge_one-err e w h = elim (Result-cases (surrogate_path e)) [
    | inr (_, unresolved) ↦ (ground (arith, unresolved), ground (arith, unresolved))
    | inl (path, resolved) ↦
        let c = confirmation e QuarantineStatus.purged operation actor in
        (
          ground (arith, resolved, J.rows-confirm_with_audit c w.manifest),
          ground (arith, resolved, J.audit-confirm_with_audit c w.manifest),
        )
  ]

  pub purge_targets-PurgedOrSame {κ} :
      (P : QuarantineEntry → Type κ) (es done : List QuarantineEntry) (bytes : ℕ) (w : World F M)
      → HasDistinctIds es
      → All (IsRow (J.rows w.manifest)) es
      → All (λ e. is_quarantined e.status ≡ true) es
      → All P es
      → (i : ℕ)
      → PurgedOrSame P
          (J.rows w.manifest)
          (J.rows (purge_targets F M surrogate_path operation actor es done bytes w).1.manifest)
          i
  unfolding purge_targets
  purge_targets-PurgedOrSame P [] done bytes w distinct rows q p i = inl refl
  purge_targets-PurgedOrSame P (e ∷ es) done bytes w distinct rows q p i =
      let r = purge_one F M surrogate_path operation actor e w in
      elim (Result-cases r.0) [
        | inr (_, failed) ↦
            rw (failed, purge_targets) (inl (ap (λ f. f i) (purge_one-err e w failed).0))
        | inl (_, fine) ↦
            let (_, _, _, set, _) = purge_one-ok e w fine in
            let later =
              All-imp₂ (OtherEntry e) (IsRow (J.rows w.manifest)) (IsRow (J.rows r.1.manifest))
                (λ f other row.
                  rw set
                    (IsRow-set_status (J.rows w.manifest) QuarantineStatus.purged e f other row))
                es distinct.0 rows.1 in
            let t =
              purge_targets F M surrogate_path operation actor es (done ++ as_purged e ∷ [])
                (saturating_add bytes e.size) r.1 in
            rw (fine, purge_targets)
              (PurgedOrSame-step P (J.rows w.manifest) (J.rows t.1.manifest) e i p.0 q.0 rows.0 (
                rw set at (
                  purge_targets-PurgedOrSame P es (done ++ as_purged e ∷ [])
                    (saturating_add bytes e.size) r.1 distinct.1 later q.1 p.1 i)))
      ]

  -- The loop makes no path, whatever its outcome.
  purge_targets-makes_none :
      (es done : List QuarantineEntry) (bytes : ℕ) (w : World F M) (path : Text)
      → G.files w.fs path ≡ false
      → G.files (purge_targets F M surrogate_path operation actor es done bytes w).1.fs path ≡ false
  unfolding purge_targets
  purge_targets-makes_none [] done bytes w path free = free
  purge_targets-makes_none (e ∷ es) done bytes w path free =
      let r = purge_one F M surrogate_path operation actor e w in
      let now = purge_one-makes_none e w path free in
      elim (Result-cases r.0) [
        | inr (_, failed) ↦ rw (failed, purge_targets) now
        | inl (_, fine) ↦
            rw (fine, purge_targets)
              (purge_targets-makes_none es (done ++ as_purged e ∷ []) (saturating_add bytes e.size)
                r.1 path now)
      ]

  abbrev pub IsGone : F.State → QuarantineEntry → Type 0
  IsGone s e = (path : Text) × (surrogate_path e ≡ ok path) × (G.files s path ≡ false)

  -- When the loop that both purges share ends without an error, the surrogate of every target has
  -- been resolved, and nothing stands there any more.
  pub purge_targets-IsGone :
      (es done : List QuarantineEntry) (bytes : ℕ) (w : World F M) (out : List QuarantineEntry × ℕ)
      → let t = purge_targets F M surrogate_path operation actor es done bytes w in
        t.0 ≡ ok out → All (IsGone t.1.fs) es
  unfolding purge_targets
  purge_targets-IsGone [] done bytes w out h = tt
  purge_targets-IsGone (e ∷ es) done bytes w out h =
      let r = purge_one F M surrogate_path operation actor e w in
      elim (Result-cases r.0) [
        | inr (_, failed) ↦ absurd (ground (arith, failed))
        | inl (_, fine) ↦
            let (path, resolved, gone, _, _) = purge_one-ok e w fine in
            let done' = done ++ as_purged e ∷ [] in
            let bytes' = saturating_add bytes e.size in
            let rest = purge_targets F M surrogate_path operation actor es done' bytes' r.1 in
            let same : rest.1
                ≡ (purge_targets F M surrogate_path operation actor (e ∷ es) done bytes w).1 =
              rw (fine, purge_targets) refl in
            subst (λ (v : World F M). All (IsGone v.fs) (e ∷ es)) same
              (
                (path, resolved, purge_targets-makes_none es done' bytes' r.1 path gone),
                purge_targets-IsGone es done' bytes' r.1 out (rw (fine, purge_targets) at h),
              )
      ]

  -- What a loop that ends returns, and what it has written to the audit.
  pub purge_targets-ok :
      (es done : List QuarantineEntry) (bytes : ℕ) (w : World F M) (out : List QuarantineEntry × ℕ)
      → let t = purge_targets F M surrogate_path operation actor es done bytes w in
        t.0 ≡ ok out
        → (out ≡ (done ++ map as_purged es, total_size bytes es))
          × (J.audit t.1.manifest ≡ J.audit w.manifest ++ map (λ e. event_of e operation actor) es)
  unfolding purge_targets total_size
  purge_targets-ok [] done bytes w out h =
      (rw append-nil (ground (arith, h)), sym (append-nil (J.audit w.manifest)))
  purge_targets-ok (e ∷ es) done bytes w out h =
      let r = purge_one F M surrogate_path operation actor e w in
      elim (Result-cases r.0) [
        | inr (_, failed) ↦ absurd (ground (arith, failed))
        | inl (_, fine) ↦
            let (_, _, _, _, told) = purge_one-ok e w fine in
            let later =
              purge_targets-ok es (done ++ as_purged e ∷ []) (saturating_add bytes e.size) r.1 out
                (rw (fine, purge_targets) at h) in
            (
              rw append_assoc at later.0,
              rw (fine, purge_targets) (later.1 ∙ rw (told, append_assoc)),
            )
      ]
