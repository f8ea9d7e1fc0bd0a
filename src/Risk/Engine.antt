-- ===== src/Risk/Engine.antt =====
-- `RiskEngine.validate` of app/services/risk_contract.py, its checks in their order.
use arima_executive_os.Common.{
  ℕ, ◌+◌, ◌-◌, ◌*◌, ◌^◌, ◌==◌, opt_eq, ltb, Bool, true, false, ◌||◌, not, Option, none, some, List,
  [], ◌∷◌, String, str_eq, ℤ, pos, pos_part, ◌+ℤ◌, ◌-ℤ◌, ◌*ℤ◌, abs, leb_ℤ, ltb_ℤ, if◌then◌else◌,
  any_of, is_none, find_first, Result, ok, err, ◌>>=◌, ◌>>◌, raise_if,
}
use arima_executive_os.Risk.Tables.{
  Amounts, lookup, RiskProvenance, RiskSnapshot, ResearchSignal, RiskExecutionContext, RiskLimits,
  Reason, concentration_exceeded, daily_loss_exceeded, exposure_exceeded, strategy_exceeded,
  capital_insufficient, passed, RiskDecision, RiskError, unavailable, provenance_missing,
  concentration_unknown, strategy_exposure_unknown, asset_exposure_unknown, identity_mismatch,
  invalid_capital, inconsistent_capital, no_maximum_risk, no_measurable_risk, invalid_exposure,
  invalid_operation,
}
use arima_executive_os.Decimals.{precision, round_half_even, digits, significant, in_context}

-- `age > freshness_seconds`
abbrev pub is_stale : ℕ → RiskProvenance → Bool
is_stale now p = elim p.freshness_seconds [ none ↦ false | some f ↦ ltb f (now - p.calculated_at) ]

-- `sorted(REQUIRED_INPUTS)`
abbrev pub required_inputs : List String
required_inputs =
    "concentration" ∷ "current_exposure" ∷ "daily_loss" ∷ "realized_pnl" ∷ "strategy_exposure"
    ∷ "unrealized_pnl" ∷ []

-- The first of the required inputs, in sorted order, that the provenance does not name.
abbrev pub missing_input : List String → Option String
missing_input names = find_first (λ i. not (any_of (λ n. str_eq n i) names)) required_inputs

unfoldable pub check_provenance : ℕ → RiskSnapshot → Result RiskError (Unit {0})
check_provenance now s = elim s.provenance [
  | none ↦ err (unavailable "risk_provenance")
  | some p ↦
      if not s.trusted
      then err (unavailable "risk_provenance")
      else if not (opt_eq p.tenant_id s.tenant_id)
          || not (opt_eq p.workspace_id (some s.workspace_id))
          || not (opt_eq p.account_id (some s.account_id))
          || not (opt_eq p.actor_id s.actor_id)
      then err (unavailable "risk_provenance_identity")
      else if is_stale now p
      then err (unavailable "stale_risk_inputs")
      else elim (missing_input p.input_names) [
        | none ↦ ok tt
        | some name ↦ err (provenance_missing name)
      ]
]

-- Signal, snapshot and context name one tenant, workspace, account and actor.
unfoldable pub check_identity :
    ResearchSignal → RiskSnapshot → RiskExecutionContext → Result RiskError (Unit {0})
check_identity g s c =
    raise_if
      (is_none g.tenant_id
        || is_none g.actor_id
        || is_none s.tenant_id
        || is_none s.actor_id
        || not (opt_eq (some c.tenant_id) g.tenant_id)
        || not (c.workspace_id == g.workspace_id)
        || not (c.account_id == g.account_id)
        || not (opt_eq (some c.actor_id) g.actor_id)
        || not (opt_eq s.tenant_id (some c.tenant_id))
        || not (s.workspace_id == c.workspace_id)
        || not (s.account_id == c.account_id)
        || not (opt_eq s.actor_id (some c.actor_id)))
      identity_mismatch

-- The inputs that the checks below read, once none of the required ones is unknown.
pub record Inputs : Type 0 where
  pub current_exposure : ℤ
  pub concentration : Amounts
  pub daily_loss : ℤ
  pub strategy_exposure : Amounts

unfoldable pub known {ℓ} : {A : Type ℓ} → String → Option A → Result RiskError A
known name none = err (unavailable name)
known name (some a) = ok a

unfoldable pub check_inputs : RiskSnapshot → Result RiskError Inputs
unfolding known
check_inputs s = do
  exposure ← known "current_exposure" s.current_exposure
  concentration ← known "concentration" s.concentration
  realized ← known "realized_pnl" s.realized_pnl
  unrealized ← known "unrealized_pnl" s.unrealized_pnl
  loss ← known "daily_loss" s.daily_loss
  strategies ← known "strategy_exposure" s.strategy_exposure
  ok (record {
    current_exposure = exposure;
    concentration = concentration;
    daily_loss = loss;
    strategy_exposure = strategies;
  })

unfoldable pub check_capital : RiskSnapshot → RiskLimits → Result RiskError (Unit {0})
check_capital s l =
    if leb_ℤ s.total_equity (pos 0)
      || ltb_ℤ s.available_capital (pos 0)
      || ltb_ℤ s.reserved_capital (pos 0)
    then err invalid_capital
    else if ltb_ℤ s.total_equity (in_context (s.available_capital +ℤ s.reserved_capital))
    then err inconsistent_capital
    else if leb_ℤ l.maximum_risk (pos 0)
    then err no_maximum_risk
    else ok tt

abbrev pub refuse : Reason → Result RiskError RiskDecision
refuse reason =
    ok (record { allowed = false; reason = reason; position_size = 0; risk_amount = pos 0 })

-- `limit is not None and value >= limit`
abbrev pub reaches : Option ℤ → ℤ → Bool
reaches none v = false
reaches (some limit) v = leb_ℤ limit v

-- Position sizes are quantized to 8 decimal places.
abbrev pub size_scale : ℕ
size_scale = 100000000

-- `(risk / per_unit).quantize(Decimal("0.00000001"))`: the quotient of 28 digits, with enough places
-- for them, rounded again; `InvalidOperation` when that needs more than 28 digits.
unfoldable pub position_size : ℤ → ℤ → Result RiskError ℕ
position_size risk per_unit =
    let d = pos_part per_unit in
    let scale = 10 ^ (precision + digits 128 d) in
    let size = round_half_even (significant (pos_part risk * scale) d * size_scale) scale in
    if ltb size (10 ^ precision) then ok size else err invalid_operation

-- The cover of a size and the exposure of the asset: the last checks.
unfoldable pub check_funds :
    ResearchSignal → RiskSnapshot → RiskLimits → ℕ → Result RiskError RiskDecision
check_funds g s l size =
    if size == 0 || ltb_ℤ (s.available_capital *ℤ pos size_scale) (in_context (pos size *ℤ g.entry))
    then refuse capital_insufficient
    else elim (lookup g.asset s.asset_exposure) [
      | none ↦ err (asset_exposure_unknown g.asset)
      | some exposure ↦
          if ltb_ℤ exposure (pos 0)
          then err invalid_exposure
          else ok (record {
            allowed = true;
            reason = passed;
            position_size = size;
            risk_amount = l.maximum_risk;
          })
    ]

-- `abs(signal.entry - signal.stop)`
abbrev pub risk_per_unit : ResearchSignal → ℤ
risk_per_unit g = abs (in_context (g.entry -ℤ g.stop))

unfoldable pub check_size :
    ResearchSignal → RiskSnapshot → RiskLimits → Result RiskError RiskDecision
unfolding check_funds
check_size g s l =
    if leb_ℤ (risk_per_unit g) (pos 0)
    then err no_measurable_risk
    else position_size l.maximum_risk (risk_per_unit g) >>= λ size. check_funds g s l size

unfoldable pub check_limits :
    ResearchSignal → RiskSnapshot → RiskLimits → Inputs → Result RiskError RiskDecision
unfolding check_size
check_limits g s l i = elim (lookup g.asset i.concentration) [
  | none ↦ err (concentration_unknown g.asset)
  | some share ↦
      if ltb_ℤ l.maximum_concentration share
      then refuse concentration_exceeded
      else if reaches l.maximum_daily_loss i.daily_loss
      then refuse daily_loss_exceeded
      else if reaches l.maximum_exposure i.current_exposure
      then refuse exposure_exceeded
      else elim (lookup g.strategy i.strategy_exposure) [
        | none ↦ err (strategy_exposure_unknown g.strategy)
        | some used ↦
            if reaches l.maximum_strategy_exposure used
            then refuse strategy_exceeded
            else check_size g s l
      ]
]

unfoldable pub validate :
    ℕ
    → ResearchSignal
    → RiskSnapshot
    → RiskLimits
    → RiskExecutionContext
    → Result RiskError RiskDecision
validate now g s l c = do
  check_provenance now s
  check_identity g s c
  inputs ← check_inputs s
  check_capital s l
  check_limits g s l inputs
