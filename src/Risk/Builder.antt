-- ===== src/Risk/Builder.antt =====
-- `TrustedRiskSnapshotBuilder.build` of app/services/risk_contract.py: the only maker of trusted
-- snapshots, and what the engine finds in one.
use arima_executive_os.Common.{
  ℕ, ◌≡◌, ltb, opt_eq, ==_refl, Bool, true, false, ◌&&◌, ◌||◌, not, none, some, [], ◌∷◌, arith,
  if◌then◌else◌, is_none, is_some, is_empty, Result, ok, err,
}
use arima_executive_os.Risk.Tables.{
  RiskProvenance, RiskSnapshot, AuthoritativeRiskInputs, RiskError, unavailable, from_future,
  provenance_mismatch, no_valuation, provenance_missing,
}
use arima_executive_os.Risk.Engine.{is_stale, missing_input, check_provenance}

-- The provenance, bound to the identity of the inputs.
abbrev pub bound_provenance : AuthoritativeRiskInputs → RiskProvenance
bound_provenance i = record (i.provenance) {
  tenant_id = some i.tenant_id;
  workspace_id = some i.workspace_id;
  account_id = some i.account_id;
  actor_id = some i.actor_id;
}

-- A provenance that already names an identity must name that of the inputs.
abbrev pub other_identity : AuthoritativeRiskInputs → Bool
other_identity i =
    let p = i.provenance in
    (is_some p.tenant_id || is_some p.workspace_id || is_some p.account_id || is_some p.actor_id)
    && not (
        opt_eq p.tenant_id (some i.tenant_id)
        && opt_eq p.workspace_id (some i.workspace_id)
        && opt_eq p.account_id (some i.account_id)
        && opt_eq p.actor_id (some i.actor_id))

-- `len(asset_exposure) > 1 or concentration`, where an empty or missing mapping is false.
abbrev pub is_multi_asset : AuthoritativeRiskInputs → Bool
is_multi_asset i =
    elim i.asset_exposure [ [] ↦ false | _ ∷ rest ↦ not (is_empty rest) ]
    || elim i.concentration [ none ↦ false | some c ↦ not (is_empty c) ]

abbrev pub trusted_snapshot : AuthoritativeRiskInputs → RiskSnapshot
trusted_snapshot i = record {
  tenant_id = some i.tenant_id;
  workspace_id = i.workspace_id;
  account_id = i.account_id;
  actor_id = some i.actor_id;
  total_equity = i.total_equity;
  available_capital = i.available_capital;
  reserved_capital = i.reserved_capital;
  current_exposure = i.current_exposure;
  asset_exposure = i.asset_exposure;
  concentration = i.concentration;
  realized_pnl = i.realized_pnl;
  unrealized_pnl = i.unrealized_pnl;
  daily_loss = i.daily_loss;
  strategy_exposure = i.strategy_exposure;
  provenance = some (bound_provenance i);
  trusted = true;
}

unfoldable pub build : ℕ → AuthoritativeRiskInputs → Result RiskError RiskSnapshot
build now i =
    if other_identity i
    then err provenance_mismatch
    else if ltb now i.provenance.calculated_at
    then err from_future
    else if is_stale now i.provenance
    then err (unavailable "stale_risk_inputs")
    else if is_none i.provenance.valuation_source && is_multi_asset i
    then err no_valuation
    else ok (trusted_snapshot i)

-- At the time it is built, a trusted snapshot passes the engine's provenance check, unless the
-- provenance leaves a required input unnamed: then the check names the first one.
pub build-check_provenance :
    (now : ℕ) (i : AuthoritativeRiskInputs) (s : RiskSnapshot)
    → build now i ≡ ok s
    → check_provenance now s ≡ elim (missing_input i.provenance.input_names) [
      | none ↦ ok tt
      | some name ↦ err (provenance_missing name)
    ]
unfolding build check_provenance
build-check_provenance now i s h =
    let e : s ≡ trusted_snapshot i = ground arith in
    let fresh : is_stale now i.provenance ≡ false = ground arith in
    rw e (
      rw (
        ==_refl i.tenant_id,
        ==_refl i.workspace_id,
        ==_refl i.account_id,
        ==_refl i.actor_id,
        fresh,
      ))
