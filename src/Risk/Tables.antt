-- ===== src/Risk/Tables.antt =====
-- The data of app/services/risk_contract.py and the `ResearchSignal` of app/quant/contracts.py.
-- Decimals are integers: amounts and prices in units of 10⁻¹⁸, position sizes in units of 10⁻⁸.
-- Times are seconds.
use arima_executive_os.Common.{
  ℕ, Bool, Option, none, some, List, [], ◌∷◌, String, str_eq, ℤ, if◌then◌else◌,
}

-- A `dict[str, Decimal]`.
abbrev pub Amounts : Type 0
Amounts = List (String × ℤ)

abbrev pub lookup : String → Amounts → Option ℤ
lookup k [] = none
lookup k ((j, v) ∷ m) = if str_eq j k then some v else lookup k m

pub record RiskProvenance : Type 0 where
  pub source : String
  pub calculated_at : ℕ
  pub input_names : List String
  pub valuation_source : Option String
  pub freshness_seconds : Option ℕ
  pub tenant_id : Option ℕ
  pub workspace_id : Option ℕ
  pub account_id : Option ℕ
  pub actor_id : Option ℕ

pub record RiskSnapshot : Type 0 where
  pub tenant_id : Option ℕ
  pub workspace_id : ℕ
  pub account_id : ℕ
  pub actor_id : Option ℕ
  pub total_equity : ℤ
  pub available_capital : ℤ
  pub reserved_capital : ℤ
  pub current_exposure : Option ℤ
  pub asset_exposure : Amounts
  pub concentration : Option Amounts
  pub realized_pnl : Option ℤ
  pub unrealized_pnl : Option ℤ
  pub daily_loss : Option ℤ
  pub strategy_exposure : Option Amounts
  pub provenance : Option RiskProvenance
  pub trusted : Bool

pub record AuthoritativeRiskInputs : Type 0 where
  pub tenant_id : ℕ
  pub workspace_id : ℕ
  pub account_id : ℕ
  pub actor_id : ℕ
  pub total_equity : ℤ
  pub available_capital : ℤ
  pub reserved_capital : ℤ
  pub current_exposure : Option ℤ
  pub asset_exposure : Amounts
  pub concentration : Option Amounts
  pub realized_pnl : Option ℤ
  pub unrealized_pnl : Option ℤ
  pub daily_loss : Option ℤ
  pub strategy_exposure : Option Amounts
  pub provenance : RiskProvenance

-- The fields of a research signal that the engine and the trading service read.
pub record ResearchSignal : Type 0 where
  pub signal_id : ℕ
  pub tenant_id : Option ℕ
  pub workspace_id : ℕ
  pub actor_id : Option ℕ
  pub account_id : ℕ
  pub asset : String
  pub strategy : String
  pub entry : ℤ
  pub stop : ℤ
  pub targets : List ℤ
  pub provider : String  -- `provenance.provider`

pub record RiskExecutionContext : Type 0 where
  pub tenant_id : ℕ
  pub workspace_id : ℕ
  pub actor_id : ℕ
  pub account_id : ℕ

pub record RiskLimits : Type 0 where
  pub maximum_risk : ℤ
  pub maximum_concentration : ℤ
  pub maximum_daily_loss : Option ℤ
  pub maximum_exposure : Option ℤ
  pub maximum_strategy_exposure : Option ℤ

pub data Reason : Type 0 where
  concentration_exceeded daily_loss_exceeded exposure_exceeded strategy_exceeded : Reason
  capital_insufficient passed : Reason

pub record RiskDecision : Type 0 where
  pub allowed : Bool
  pub reason : Reason
  pub position_size : ℕ
  pub risk_amount : ℤ

pub data RiskError : Type 0 where
  -- RiskInputUnavailableError, with the input's name or the name behind its prefix
  unavailable provenance_missing concentration_unknown : String → RiskError
  strategy_exposure_unknown asset_exposure_unknown : String → RiskError
  identity_mismatch invalid_capital inconsistent_capital no_maximum_risk : RiskError
  no_measurable_risk invalid_exposure from_future provenance_mismatch : RiskError
  no_valuation invalid_operation : RiskError
