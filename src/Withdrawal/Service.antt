-- ===== src/Withdrawal/Service.antt =====
-- `WithdrawalService.transition` and `_circuit` of app/services/operations.py. A
-- method returns its result with the database that is committed; a raise discards the session's
-- pending changes, so the database is then as before. The row locks (`FOR UPDATE`) make a call run
-- alone on its request and its accounts, so the inserts of its ledger calls meet no race.
use arima_executive_os.Common.{
  ℕ, ◌==◌, Bool, true, false, ◌&&◌, ◌||◌, not, Option, none, some, List, [], ◌∷◌, String,
  if◌then◌else◌, find_first, Result, ok, err,
}
use arima_executive_os.Ledger.Tables.{
  Audit, Db, available, reserved, Runtime, LedgerError, Transaction,
}
use arima_executive_os.Ledger.Movements.{Transfer, transfer_bucket}
use arima_executive_os.Identity.{
  User, Workspace, Directory, has_founder_control_access, is_member, find_workspace, resolve,
}
use arima_executive_os.Withdrawal.Tables.{
  State, under_review, approved, rejected, cancelled, failed, blocked, transitions, has_state,
  is_enabled, WithdrawalRequest, CircuitBreaker, Store, OperationsError, not_found,
  workspace_unavailable, context_denied, not_authorized, invalid_transition, founder_required,
  circuit_unavailable, circuit_open, release_failed,
}

-- The texts that the code builds from identifiers and states.
pub record Texts : Type 0 where
  pub show_id : ℕ → String
  pub release_key : ℕ → State → String  -- f"withdrawal-release:{request.id}:{target.value}"
  pub reservation_key : String → String  -- f"withdrawal-reservation:{data.idempotency_key}"

abbrev pub find_request : ℕ → Store → Option WithdrawalRequest
find_request id s = find_first (λ r. r.id == id) s.requests

-- Writes the row of that identifier.
unfoldable pub write_request : WithdrawalRequest → List WithdrawalRequest → List WithdrawalRequest
write_request r [] = []
write_request r (x ∷ xs) =
    let rest = write_request r xs in if x.id == r.id then r ∷ xs else x ∷ rest

abbrev pub find_circuit : ℕ → Store → Option CircuitBreaker
find_circuit ws s = find_first (λ c. c.workspace_id == ws) s.circuits

-- `_circuit(workspace_id)` with no initialisation.
abbrev pub circuit : ℕ → Store → Result OperationsError CircuitBreaker
circuit ws s = elim (find_circuit ws s) [ none ↦ err circuit_unavailable | some c ↦ ok c ]

-- Owner or member, as `_workspace_query` selects.
abbrev pub works_in : Directory → Workspace → ℕ → Bool
works_in d w user = w.owner_id == user || is_member d w.id user

-- Who may move a request at all.
unfoldable pub check_actor :
    Directory → WithdrawalRequest → Workspace → User → Bool → Result OperationsError (Unit {0})
check_actor d r w actor require_context =
    if require_context && elim (resolve d actor w.id r.user_id none) [ ok _ ↦ false | err _ ↦ true ]
    then err context_denied
    else if not (actor.id == r.user_id) && not (has_founder_control_access d actor)
    then err not_authorized
    else if actor.id == r.user_id && not (works_in d w actor.id)
    then err not_authorized
    else ok tt

abbrev pub needs_founder : State → Bool
needs_founder target = has_state target (approved ∷ rejected ∷ blocked ∷ [])

abbrev pub is_reviewed : State → Bool
is_reviewed target = has_state target (under_review ∷ rejected ∷ cancelled ∷ [])

abbrev pub releases : State → Bool
releases target = has_state target (rejected ∷ cancelled ∷ failed ∷ [])

abbrev pub is_approved : State → Bool
is_approved target = has_state target (approved ∷ [])

-- The state machine, the founder's approval and the circuit breaker.
unfoldable pub check_move :
    Store → WithdrawalRequest → State → User → Result OperationsError (Unit {0})
check_move s r target actor =
    if not (has_state target (transitions r.state))
    then err invalid_transition
    else if needs_founder target && not (has_founder_control_access s.directory actor)
    then err founder_required
    else if is_approved target
    then elim (circuit r.workspace_id s) [
      | err e ↦ err e
      | ok c ↦ if is_enabled c.state then ok tt else err circuit_open
    ]
    else ok tt

-- The row as `transition` rewrites it.
abbrev pub moved_request : Runtime → WithdrawalRequest → State → User → String → WithdrawalRequest
moved_request rt r target actor reason = record r {
  state = target;
  state_reason = reason;
  reviewed_by_id = if is_reviewed target then some actor.id else r.reviewed_by_id;
  reviewed_at = if is_reviewed target then some rt.now else r.reviewed_at;
  approved_by_id = if is_approved target then some actor.id else r.approved_by_id;
  approved_at = if is_approved target then some rt.now else r.approved_at;
}

abbrev pub release_transfer : Texts → WithdrawalRequest → State → User → Transfer
release_transfer texts r target actor = record {
  workspace_id = r.workspace_id;
  user_id = r.user_id;
  asset = r.currency;
  amount = r.amount;
  source_bucket = reserved;
  target_bucket = available;
  transaction_type = "withdrawal_reservation_release";
  idempotency_key = texts.release_key r.id target;
  actor_id = some actor.id;
  reference = texts.show_id r.id;
}

abbrev pub transition_event : State → String
transition_event rejected = "WITHDRAWAL_REJECTED"
transition_event cancelled = "WITHDRAWAL_CANCELLED"
transition_event approved = "WITHDRAWAL_APPROVED"
transition_event under_review = "WITHDRAWAL_REVIEWED"
transition_event _ = "WITHDRAWAL_STATUS_CHANGED"

abbrev pub add_audit : Audit → Db → Db
add_audit a db = record db { audits = a ∷ db.audits }

abbrev pub released : Result LedgerError Transaction × Db → Result OperationsError Db
released (ok _, db) = ok db
released (err _, db) = err release_failed

-- The reserved funds go back to the available bucket when the request ends without a payment.
unfoldable pub release :
    Runtime → Texts → WithdrawalRequest → State → User → Db → Result OperationsError Db
release rt texts r target actor db =
    if releases target
    then released (transfer_bucket rt none none (release_transfer texts r target actor) db)
    else ok db

-- The committed store of a move that passed all checks.
abbrev pub moved_store : Runtime → WithdrawalRequest → State → User → String → Db → Store → Store
moved_store rt r target actor reason db s = record s {
  ledger =
      add_audit
        (record { actor_id = actor.id; event_type = transition_event target; entity_id = r.id }) db;
  requests = write_request (moved_request rt r target actor reason) s.requests;
}

unfoldable pub move :
    Runtime
    → Texts
    → WithdrawalRequest
    → State
    → User
    → String
    → Store
    → Result OperationsError WithdrawalRequest × Store
unfolding check_move release
move rt texts r target actor reason s = elim (check_move s r target actor) [
  | err e ↦ (err e, s)
  | ok _ ↦ elim (release rt texts r target actor s.ledger) [
    | err e ↦ (err e, s)
    | ok db ↦
        (ok (moved_request rt r target actor reason), moved_store rt r target actor reason db s)
  ]
]

unfoldable pub transition :
    Runtime
    → Texts
    → ℕ
    → State
    → User
    → String
    → Bool
    → Store
    → Result OperationsError WithdrawalRequest × Store
unfolding check_actor move
transition rt texts id target actor reason require_context s = elim (find_request id s) [
  | none ↦ (err not_found, s)
  | some r ↦ elim (find_workspace r.workspace_id s.directory) [
    | none ↦ (err workspace_unavailable, s)
    | some w ↦ elim (check_actor s.directory r w actor require_context) [
      | err e ↦ (err e, s)
      | ok _ ↦ move rt texts r target actor reason s
    ]
  ]
]
