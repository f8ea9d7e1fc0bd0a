-- ===== src/Trading/Tables.antt =====
-- The data of app/services/trading_contracts.py, with the execution row of
-- app/database/models/quant.py.
use arima_executive_os.Common.{ℕ, Bool, Option, List, [], ◌∷◌, String, ℤ}
use arima_executive_os.Ledger.Tables.{Audit}
use arima_executive_os.Identity.{Directory}
use arima_executive_os.Withdrawal.Tables.{CircuitState, CircuitBreaker}
use arima_executive_os.Risk.Tables.{RiskSnapshot, RiskLimits, RiskError, Reason}

pub data ExecutionState : Type 0 where
  proposed risk_check approved blocked submitted partially_filled filled : ExecutionState
  cancelled rejected : ExecutionState

abbrev pub execution_transitions : ExecutionState → List ExecutionState
execution_transitions proposed = risk_check ∷ blocked ∷ []
execution_transitions risk_check = approved ∷ blocked ∷ rejected ∷ []
execution_transitions approved = submitted ∷ cancelled ∷ blocked ∷ []
execution_transitions submitted = partially_filled ∷ filled ∷ cancelled ∷ rejected ∷ []
execution_transitions partially_filled = filled ∷ cancelled ∷ []
execution_transitions filled = []
execution_transitions blocked = []
execution_transitions cancelled = []
execution_transitions rejected = []

-- Why a proposal is blocked.
pub data BlockReason : Type 0 where
  circuit_unavailable : BlockReason
  circuit_is : CircuitState → BlockReason
  refused : Reason → BlockReason
  risk_failure : RiskError → BlockReason
  provider_failure : String → BlockReason
  execution_disabled : BlockReason

-- `dry_run_result`: absent, a bare "NOT_EXECUTED" record, or the proposal of `QTradeDryRunAdapter`.
pub data DryRun : Type 0 where
  no_result not_executed : DryRun
  -- asset, quantity, risk amount, entry, stop, targets
  proposal : String → ℕ → ℤ → ℤ → ℤ → List ℤ → DryRun

pub record TradeExecution : Type 0 where
  pub id : ℕ
  pub tenant_id : ℕ
  pub workspace_id : ℕ
  pub actor_id : ℕ
  pub account_id : ℕ
  pub asset : String
  pub strategy : String
  pub signal_id : ℕ
  pub provider : String
  pub quantity : ℕ
  pub idempotency_key : String
  pub request_fingerprint : String
  pub state : ExecutionState
  pub risk_decision : Option Reason  -- `none` is "not_evaluated"
  pub circuit_state : Option CircuitState  -- `none` is "unavailable"
  pub execution_permission : Bool
  pub rejection_reason : Option BlockReason
  pub dry_run_result : DryRun

pub record Desk : Type 0 where
  pub directory : Directory
  pub circuits : List CircuitBreaker
  pub executions : List TradeExecution
  pub audits : List Audit
  pub next_id : ℕ

pub data TradeError : Type 0 where
  no_identity no_account account_not_in_workspace actor_not_authorized : TradeError
  context_denied identity_mismatch legacy_request key_conflict provider_raised arithmetic_raised :
      TradeError

-- What `execution_request_fingerprint` digests of a call.
pub record ExecutionPayload : Type 0 where
  pub tenant_id : ℕ
  pub workspace_id : ℕ
  pub account_id : ℕ
  pub actor_id : ℕ
  pub signal_id : ℕ
  pub asset : String
  pub strategy : String
  pub entry : ℤ
  pub stop : ℤ
  pub targets : List ℤ

-- What the risk provider does.
pub data Provided : Type 0 where
  snapshot : RiskSnapshot → Provided
  runtime_error : String → Provided
  other_error : Provided

pub record Setup : Type 0 where
  pub now : ℕ
  pub limits : RiskLimits
  pub provided : Provided
  pub digest : ExecutionPayload → String
