-- ===== src/Withdrawal/Tables.antt =====
-- The tables of app/database/models/withdrawal.py, the state machine `TRANSITIONS`, and the
-- exceptions of app/services/operations.py.
use arima_executive_os.Common.{ℕ, Bool, true, false, Option, List, [], ◌∷◌, String, ℤ, any_of}
use arima_executive_os.Ledger.Tables.{Db}
use arima_executive_os.Identity.{Directory}

pub data State : Type 0 where
  requested under_review approved executing completed rejected cancelled failed blocked : State

pub data CircuitState : Type 0 where
  enabled paused emergency_stop : CircuitState

abbrev pub transitions : State → List State
transitions requested = under_review ∷ cancelled ∷ blocked ∷ []
transitions under_review = approved ∷ rejected ∷ cancelled ∷ blocked ∷ []
transitions approved = executing ∷ cancelled ∷ blocked ∷ []
transitions executing = completed ∷ failed ∷ []
transitions completed = []
transitions rejected = []
transitions cancelled = []
transitions failed = []
transitions blocked = under_review ∷ cancelled ∷ []

abbrev pub state_eq : State → State → Bool
state_eq requested requested = true
state_eq under_review under_review = true
state_eq approved approved = true
state_eq executing executing = true
state_eq completed completed = true
state_eq rejected rejected = true
state_eq cancelled cancelled = true
state_eq failed failed = true
state_eq blocked blocked = true
state_eq _ _ = false

abbrev pub has_state : State → List State → Bool
has_state s xs = any_of (λ x. state_eq x s) xs

abbrev pub is_enabled : CircuitState → Bool
is_enabled enabled = true
is_enabled paused = false
is_enabled emergency_stop = false

pub record WithdrawalRequest : Type 0 where
  pub id : ℕ
  pub workspace_id : ℕ
  pub user_id : ℕ
  pub amount : ℤ
  pub currency : String
  pub destination_wallet_address : String
  pub network : String
  pub risk_acknowledged : Bool
  pub idempotency_key : String
  pub request_fingerprint : String
  pub state : State
  pub state_reason : String
  pub reviewed_by_id : Option ℕ
  pub reviewed_at : Option ℕ
  pub approved_by_id : Option ℕ
  pub approved_at : Option ℕ
  pub notification_status : String
  pub notification_error : Option String

pub record CircuitBreaker : Type 0 where
  pub id : ℕ
  pub workspace_id : ℕ
  pub state : CircuitState
  pub reason : Option String
  pub changed_by_id : Option ℕ
  pub changed_at : ℕ

pub record Store : Type 0 where
  pub ledger : Db
  pub directory : Directory
  pub requests : List WithdrawalRequest
  pub circuits : List CircuitBreaker

pub data OperationsError : Type 0 where
  not_found workspace_unavailable context_denied not_authorized : OperationsError
  invalid_transition founder_required circuit_unavailable circuit_open : OperationsError
  release_failed rate_limited identity_mismatch no_workspace ambiguous_workspace : OperationsError
  bound_to_other legacy_request key_conflict balance_unavailable : OperationsError
  insufficient_balance unsafe_request account_unavailable : OperationsError
  database_error : OperationsError

-- The payload of the creating call, and what `withdrawal_request_fingerprint` digests of it.
pub record WithdrawalData : Type 0 where
  pub first_name : String
  pub last_name : String
  pub amount : ℤ
  pub currency : String
  pub destination_wallet_address : String
  pub network : String
  pub risk_acknowledgement : Bool
  pub idempotency_key : String

pub record WithdrawalPayload : Type 0 where
  pub user_id : ℕ
  pub workspace_id : ℕ
  pub amount : ℤ
  pub currency : String
  pub destination_wallet_address : String
  pub network : String
  pub risk_acknowledgement : Bool
  pub first_name : String
  pub last_name : String
