-- ===== src/Trading/Service.antt =====
-- `QTradeExecutionService.evaluate` of app/services/trading_contracts.py. The risk provider is an
-- argument: the snapshot that it returns, a `RuntimeError` that it raises, or another exception. A
-- raise discards the session's pending row. `digest` is
-- the SHA-256 digest of a request's payload.
use arima_executive_os.Common.{
  Bool, ℕ, ◌+◌, ◌==◌, opt_eq, true, false, ◌&&◌, ◌||◌, not, Option, none, some, List, ◌∷◌, String,
  str_eq, if◌then◌else◌, find_first, is_none, Result, ok, err,
}
use text.Mathlib.Text.{starts_with}
use arima_executive_os.Identity.{
  User, Directory, has_founder_control_access, is_member, find_user, find_workspace, authorize,
}
use arima_executive_os.Withdrawal.Tables.{is_enabled}
use arima_executive_os.Risk.Tables.{
  RiskError, invalid_operation, ResearchSignal, RiskExecutionContext, RiskDecision,
}
use arima_executive_os.Risk.Engine.{validate}
use arima_executive_os.Trading.Tables.{
  BlockReason, DryRun, TradeExecution, Desk, TradeError, Setup, proposed, risk_check, approved,
  blocked, circuit_unavailable, circuit_is, refused, risk_failure, provider_failure,
  execution_disabled, no_result, not_executed, proposal, no_identity, no_account,
  account_not_in_workspace, actor_not_authorized, context_denied, identity_mismatch, legacy_request,
  key_conflict, provider_raised, arithmetic_raised, snapshot, runtime_error, other_error,
}

unfoldable pub execution_request_fingerprint : Setup → ResearchSignal → ℕ → ℕ → String
execution_request_fingerprint setup g tenant actor = setup.digest (record {
  tenant_id = tenant;
  workspace_id = g.workspace_id;
  account_id = g.account_id;
  actor_id = actor;
  signal_id = g.signal_id;
  asset = g.asset;
  strategy = g.strategy;
  entry = g.entry;
  stop = g.stop;
  targets = g.targets;
})

-- `_authorize_execution_context`
unfoldable pub authorize_context : Directory → User → ResearchSignal → Result TradeError (Unit {0})
authorize_context d actor g = elim (find_user g.account_id d) [
  | none ↦ err no_account
  | some account ↦ elim (find_workspace g.workspace_id d) [
    | none ↦ err account_not_in_workspace
    | some w ↦
        if not (w.owner_id == account.id) && not (is_member d w.id account.id)
        then err account_not_in_workspace
        else if not (actor.id == account.id) && not (has_founder_control_access d actor)
        then err actor_not_authorized
        else ok tt
  ]
]

-- Both authorisations and the identity of the signal.
unfoldable pub check_call : Directory → ℕ → User → ResearchSignal → Result TradeError (Unit {0})
unfolding authorize_context
check_call d tenant actor g =
    if is_none g.tenant_id || is_none g.actor_id
    then err no_identity
    else elim (authorize_context d actor g) [
      | err e ↦ err e
      | ok _ ↦ elim (authorize d actor tenant g.workspace_id actor.id g.account_id) [
        | err _ ↦ err context_denied
        | ok _ ↦
            if not (opt_eq (some tenant) g.tenant_id) || not (opt_eq (some actor.id) g.actor_id)
            then err identity_mismatch
            else ok tt
      ]
    ]

abbrev pub find_execution : ℕ → String → List TradeExecution → Option TradeExecution
find_execution ws key xs = find_first (λ x. x.workspace_id == ws && str_eq x.idempotency_key key) xs

abbrev pub answer_existing : String → TradeExecution → Result TradeError TradeExecution
answer_existing fp x =
    if starts_with "legacy-unverified:" x.request_fingerprint
    then err legacy_request
    else if str_eq x.request_fingerprint fp
    then ok x
    else err key_conflict

-- The row as it is first added.
abbrev pub proposed_execution : ℕ → ℕ → ResearchSignal → ℕ → String → String → TradeExecution
proposed_execution id tenant g actor key fp = record {
  id = id;
  tenant_id = tenant;
  workspace_id = g.workspace_id;
  actor_id = actor;
  account_id = g.account_id;
  asset = g.asset;
  strategy = g.strategy;
  signal_id = g.signal_id;
  provider = g.provider;
  quantity = 0;
  idempotency_key = key;
  request_fingerprint = fp;
  state = proposed;
  risk_decision = none;
  circuit_state = none;
  execution_permission = false;
  rejection_reason = none;
  dry_run_result = no_result;
}

-- The row after the risk check, with the reason to block it if there is one.
pub record Checked : Type 0 where
  pub execution : TradeExecution
  pub reason : Option BlockReason
  pub decision : Option RiskDecision

-- `InvalidOperation` is neither a `RiskValidationError` nor a `RuntimeError`.
abbrev pub is_arithmetic : RiskError → Bool
is_arithmetic invalid_operation = true
is_arithmetic _ = false

-- The `try` block: the snapshot, the engine's decision, and the errors that are caught.
unfoldable pub check_risk :
    Setup → ResearchSignal → RiskExecutionContext → TradeExecution → Result TradeError Checked
check_risk setup g c x =
    let r = record x { state = risk_check } in
    elim setup.provided [
      | other_error ↦ err provider_raised
      | runtime_error m ↦
          ok (record { execution = r; reason = some (provider_failure m); decision = none })
      | snapshot s ↦ elim (validate setup.now g s setup.limits c) [
        | err e ↦
            if is_arithmetic e
            then err arithmetic_raised
            else ok (record { execution = r; reason = some (risk_failure e); decision = none })
        | ok d ↦ ok (record {
          execution = record r {
            risk_decision = some d.reason;
            quantity = d.position_size;
            dry_run_result = not_executed;
          };
          reason = if d.allowed then none else some (refused d.reason);
          decision = some d;
        })
      ]
    ]

abbrev pub propose : ResearchSignal → RiskDecision → DryRun
propose g d = proposal g.asset d.position_size d.risk_amount g.entry g.stop g.targets

-- `if reason is None`: the release has execution disabled, and an allowed decision is a dry run.
unfoldable pub disable : ResearchSignal → Checked → Checked
disable g k = elim k.reason [
  | some b ↦ k
  | none ↦ elim k.decision [
    | none ↦ record k { reason = some execution_disabled }
    | some d ↦
        if d.allowed
        then record {
          execution = record (k.execution) { dry_run_result = propose g d };
          reason = some execution_disabled;
          decision = some d;
        }
        else record k { reason = some execution_disabled }
  ]
]

-- The final state, from the reason that is left.
unfoldable pub settle : Checked → TradeExecution
settle k = elim k.reason [
  | some b ↦ record (k.execution) {
    state = blocked;
    rejection_reason = some b;
    execution_permission = false;
  }
  | none ↦ record (k.execution) { state = approved; execution_permission = true }
]

-- A new proposal, up to the row that is committed.
unfoldable pub decide :
    Setup
    → Desk
    → ResearchSignal
    → RiskExecutionContext
    → TradeExecution
    → Result TradeError TradeExecution
decide setup desk g c x = elim (find_first (λ b. b.workspace_id == g.workspace_id) desk.circuits) [
  | none ↦ ok (record x {
    state = blocked;
    rejection_reason = some circuit_unavailable;
    dry_run_result = not_executed;
  })
  | some b ↦
      let y = record x { circuit_state = some b.state } in
      if not (is_enabled b.state)
      then ok (
          settle (
            disable g
              (record { execution = y; reason = some (circuit_is b.state); decision = none })))
      else elim (check_risk setup g c y) [ err e ↦ err e | ok k ↦ ok (settle (disable g k)) ]
]

-- The row of a new proposal, with its digest.
abbrev pub new_row : Setup → ℕ → ResearchSignal → User → String → Desk → TradeExecution
new_row setup tenant g actor key desk =
    proposed_execution desk.next_id tenant g actor.id key
      (execution_request_fingerprint setup g tenant actor.id)

abbrev pub call_context : ℕ → ResearchSignal → User → RiskExecutionContext
call_context tenant g actor = record {
  tenant_id = tenant;
  workspace_id = g.workspace_id;
  actor_id = actor.id;
  account_id = g.account_id;
}

-- The commit of a new execution, with its audit row.
abbrev pub recorded : User → TradeExecution → Desk → Desk
recorded actor x desk = record desk {
  executions = x ∷ desk.executions;
  audits =
      record { actor_id = actor.id; event_type = "QTRADE_EXECUTION_DECISION"; entity_id = x.id }
      ∷ desk.audits;
  next_id = desk.next_id + 1;
}

-- The answer, and the desk after the commit or the rollback.
unfoldable pub evaluate :
    Setup → ℕ → User → ResearchSignal → String → Desk → Result TradeError TradeExecution × Desk
evaluate setup tenant actor g key desk = elim (check_call desk.directory tenant actor g) [
  | err e ↦ (err e, desk)
  | ok _ ↦ elim (find_execution g.workspace_id key desk.executions) [
    | some x ↦ (answer_existing (execution_request_fingerprint setup g tenant actor.id) x, desk)
    | none ↦
        elim (decide setup desk g (call_context tenant g actor)
          (new_row setup tenant g actor key desk)) [
            | err e ↦ (err e, desk)
            | ok x ↦ (ok x, recorded actor x desk)
          ]
  ]
]
