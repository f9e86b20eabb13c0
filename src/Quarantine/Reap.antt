-- ===== src/Quarantine/Reap.antt =====
-- core/app/src/quarantine.rs: `TransactionalReaper`.
pub mod One
pub mod Moves
pub mod Journal
pub mod Batch
use file_reaper.Prelude.{
  ℕ, suc, ◌+◌, Bool, true, false, ◌||◌, not, Option, none, some, List, [], ◌∷◌, map, take, drop,
  if◌then◌else◌,
}
use file_reaper.Prelude.Text.{Text, text_eq}
use file_reaper.Platform.{Platform, file_name}
use file_reaper.Outcome.{
  CoreError, invalid_argument, Result, ok, err, Exec, pure, raise, lift, ◌>>=◌, ◌>>◌,
}
use file_reaper.Quarantine.{
  AuditOperation, reap, AuditActor, user, QuarantineStatus, in_flight, quarantined, QuarantineEntry,
  DestructiveAuditEvent, FileIdentity,
}
use file_reaper.Quarantine.Ports.{
  QuarantineFs, QuarantineManifest, Confirmation, World, on_fs, on_manifest,
}

pub record ReapRequest : Type 0 where
  pub entry : QuarantineEntry
  pub destination_path : Text
  pub expected_identity : FileIdentity

pub record ReapOutcome : Type 0 where
  pub entry : QuarantineEntry
  pub destination_path : Text

-- The event of an entry, as `confirm_with_audit` and `confirm_reaped` build it.
abbrev pub event_of : QuarantineEntry → AuditOperation → AuditActor → DestructiveAuditEvent
event_of entry operation actor = record {
  entry_id = entry.id;
  batch_id = entry.batch_id;
  operation = operation;
  actor = actor;
  original_path = entry.original_path;
  size = entry.size;
}

abbrev pub confirmation :
    QuarantineEntry → QuarantineStatus → AuditOperation → AuditActor → Confirmation
confirmation entry status operation actor = record {
  entry_id = entry.id;
  status = status;
  event = event_of entry operation actor;
}

unfoldable pub names_surrogate : Option Text → Text → Bool
unfolding text_eq
names_surrogate none name = false
names_surrogate (some destination_name) name = text_eq destination_name name

unfoldable pub is_empty : Text → Bool
is_empty [] = true
is_empty _ = false

unfoldable pub validate_request : Platform → ReapRequest → Result (Unit {0})
unfolding is_empty names_surrogate file_name
validate_request p request =
    if is_empty request.entry.original_path || is_empty request.entry.surrogate_name
    then err invalid_argument
    else if not
        (names_surrogate (file_name p request.destination_path) request.entry.surrogate_name)
    then err invalid_argument
    else ok tt

abbrev pub at_status : QuarantineStatus → ReapRequest → ReapRequest
at_status status request = record request { entry = record request.entry { status = status } }

abbrev pub outcome_of : ReapRequest → ReapOutcome
outcome_of request = record {
  entry = record request.entry { status = quarantined };
  destination_path = request.destination_path;
}

-- The first loop of `reap_batch`: each request is validated before its entry is written to.
unfoldable pub prepare : Platform → ℕ → List ReapRequest → Result (List ReapRequest)
unfolding validate_request
prepare p batch_id [] = ok []
prepare p batch_id (request ∷ requests) = elim (validate_request p request) [
  | err e ↦ err e
  | ok _ ↦ elim (prepare p batch_id requests) [
    | err e ↦ err e
    | ok ready ↦ ok (
        record request {
          entry = record request.entry { batch_id = some batch_id; status = in_flight };
        }
        ∷ ready)
  ]
]

-- The second loop of `reap_batch`: how many moves were made, and the error that ended the loop.
unfoldable pub move_all :
    (F : QuarantineFs) (roots : List Text)
    → List ReapRequest
    → F.State
    → (ℕ × Option CoreError) × F.State
move_all F roots [] s = ((0, none), s)
move_all F roots (request ∷ requests) s =
    let r =
      F.move_into_quarantine request.entry.original_path request.destination_path
        request.expected_identity roots s in
    let rest = move_all F roots requests r.1 in
    elim r.0 [ err e ↦ ((0, some e), r.1) | ok _ ↦ ((suc rest.0.0, rest.0.1), rest.1) ]

module _ (M : QuarantineManifest) where
  -- `TransactionalReaper::confirm_reaped`
  unfoldable pub confirm_reaped : List ReapRequest → Exec M.State (Unit {0})
  confirm_reaped [] = pure tt
  confirm_reaped (request ∷ requests) =
      M.confirm_batch_with_audit
        (map (λ q. confirmation q.entry quarantined reap user) (request ∷ requests))

  unfoldable pub remove_all : List ReapRequest → Exec M.State (Unit {0})
  remove_all [] = pure tt
  remove_all (request ∷ requests) = do M.remove_entry request.entry.id; remove_all requests

  -- What follows the moves: `moved` requests were moved, and `error` ended the loop.
  unfoldable pub settle : List ReapRequest → ℕ → Option CoreError → Exec M.State (List ReapOutcome)
  settle requests moved none = do
    confirm_reaped (take moved requests)
    pure (map outcome_of requests)
  settle requests moved (some error) = do
    confirm_reaped (take moved requests)
    remove_all (drop (suc moved) requests)
    raise error

module _ (F : QuarantineFs) (M : QuarantineManifest) (p : Platform) (roots : List Text) where
  -- `TransactionalReaper::reap_one`
  unfoldable pub reap_one : ReapRequest → Exec (World F M) ReapOutcome
  reap_one given = do
    lift (validate_request p given)
    let request = at_status in_flight given
    on_manifest (M.insert_entry request.entry)
    on_fs (
        F.move_into_quarantine request.entry.original_path request.destination_path
          request.expected_identity roots)
    on_manifest (M.confirm_with_audit (confirmation request.entry quarantined reap user))
    pure (outcome_of request)

  unfoldable pub move_and_settle : List ReapRequest → Exec (World F M) (List ReapOutcome)
  move_and_settle requests w =
      let r = move_all F roots requests w.fs in
      let t = settle M requests r.0.0 r.0.1 w.manifest in (t.0, record { fs = r.1; manifest = t.1 })

  -- One durable write of all entries, then the moves.
  unfoldable pub journal_and_move : List ReapRequest → Exec (World F M) (List ReapOutcome)
  journal_and_move requests = do
    on_manifest (M.insert_entries (map (λ q. q.entry) requests))
    move_and_settle requests

  -- `TransactionalReaper::reap_batch`
  unfoldable pub reap_batch : ℕ → List ReapRequest → Exec (World F M) (List ReapOutcome)
  reap_batch batch_id given = do
    requests ← lift (prepare p batch_id given)
    journal_and_move requests
