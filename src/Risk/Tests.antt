-- ===== src/Risk/Tests.antt =====
-- The engine on a trade with entry 100 and stop 90, with the amounts in whole units for 10⁻¹⁸.
use arima_executive_os.Common.{
  ◌*◌, ◌+◌, ◌≤◌, ◌≡◌, refl, true, none, some, [], ◌∷◌, pos, ◌+ℤ◌, ◌-ℤ◌, ◌*ℤ◌, ok,
}
use arima_executive_os.Risk.Tables.{
  RiskProvenance, RiskSnapshot, AuthoritativeRiskInputs, ResearchSignal, RiskExecutionContext,
  RiskLimits, RiskDecision, passed,
}
use arima_executive_os.Decimals.{round_half_even, digits, significant, in_context}
use arima_executive_os.Risk.Engine.{
  size_scale, check_provenance, check_identity, known, check_inputs, check_capital, check_limits,
  check_size, position_size, check_funds, validate, required_inputs,
}
use arima_executive_os.Risk.Builder.{build, trusted_snapshot, build-check_provenance}
use arima_executive_os.Risk.Sizing.{validate_risk}
use arima_executive_os.Risk.Soundness.{IsSafe, validate_sound}

abbrev provenance : RiskProvenance
provenance = record {
  source = "ledger";
  calculated_at = 1000;
  input_names = required_inputs;
  valuation_source = some "feed";
  freshness_seconds = some 60;
  tenant_id = none;
  workspace_id = none;
  account_id = none;
  actor_id = none;
}

abbrev inputs : AuthoritativeRiskInputs
inputs = record {
  tenant_id = 1;
  workspace_id = 7;
  account_id = 5;
  actor_id = 5;
  total_equity = pos 10000;
  available_capital = pos 8000;
  reserved_capital = pos 0;
  current_exposure = some (pos 500);
  asset_exposure = ("BTC", pos 500) ∷ [];
  concentration = some (("BTC", pos 2) ∷ []);
  realized_pnl = some (pos 0);
  unrealized_pnl = some (pos 0);
  daily_loss = some (pos 40);
  strategy_exposure = some (("trend", pos 500) ∷ []);
  provenance = provenance;
}

abbrev pub trusted : RiskSnapshot
trusted = trusted_snapshot inputs

abbrev pub signal : ResearchSignal
signal = record {
  signal_id = 3;
  tenant_id = some 1;
  workspace_id = 7;
  actor_id = some 5;
  account_id = 5;
  asset = "BTC";
  strategy = "trend";
  entry = pos 100;
  stop = pos 90;
  targets = pos 120 ∷ [];
  provider = "desk";
}

abbrev context : RiskExecutionContext
context = record { tenant_id = 1; workspace_id = 7; actor_id = 5; account_id = 5 }

abbrev pub limits : RiskLimits
limits = record {
  maximum_risk = pos 25;
  maximum_concentration = pos 3;
  maximum_daily_loss = some (pos 100);
  maximum_exposure = some (pos 1000);
  maximum_strategy_exposure = none;
}

-- A size of 2.5 puts 25 at risk over a distance of 10.
abbrev allowed : RiskDecision
allowed = record {
  allowed = true;
  reason = passed;
  position_size = 250000000;
  risk_amount = pos 25;
}

built : build 1030 inputs ≡ ok trusted
unfolding build
built = refl

build-check_provenance_example : check_provenance 1030 trusted ≡ ok tt
build-check_provenance_example = build-check_provenance 1030 inputs trusted built

validated : validate 1030 signal trusted limits context ≡ ok allowed
unfolding validate check_provenance check_identity check_inputs known check_capital check_limits
    check_size check_funds position_size round_half_even significant digits in_context ◌+ℤ◌ ◌-ℤ◌
    ◌*ℤ◌
validated = refl

validate_sound_example : IsSafe 1030 signal trusted limits context allowed
validate_sound_example = validate_sound 1030 signal trusted limits context allowed validated refl

validate_risk_example :
    (250000000 * 10 ≤ 25 * size_scale + 10) × (25 * size_scale ≤ 250000000 * 10 + 10)
unfolding ◌-ℤ◌ in_context significant digits round_half_even
validate_risk_example = validate_risk 1030 signal trusted limits context allowed validated refl
