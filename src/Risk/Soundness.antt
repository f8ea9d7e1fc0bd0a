-- ===== src/Risk/Soundness.antt =====
-- What an allowed decision of `RiskEngine.validate` in app/services/risk_contract.py rests on.
use arima_executive_os.Common.{
  ℕ, ◌<◌, ◌≡◌, ◌≢◌, true, false, Option, none, some, inl, inr, Option-cases, Result-cases,
  Unit-result, arith, ℤ, pos, ◌+ℤ◌, ◌*ℤ◌, ◌≤ℤ◌, ◌<ℤ◌, ok,
}
use arima_executive_os.Risk.Tables.{
  lookup, RiskProvenance, RiskSnapshot, ResearchSignal, RiskExecutionContext, RiskLimits,
  RiskDecision,
}
use arima_executive_os.Decimals.{in_context}
use arima_executive_os.Risk.Engine.{
  is_stale, missing_input, check_provenance, check_identity, Inputs, check_inputs, check_capital,
  size_scale, position_size, risk_per_unit, check_funds, check_size, check_limits, reaches,
  validate,
}

missing_none :
    (now : ℕ) (s : RiskSnapshot) (p : RiskProvenance)
    → s.provenance ≡ some p
    → check_provenance now s ≡ ok tt
    → missing_input p.input_names ≡ none
unfolding check_provenance
missing_none now s p e h = elim (Option-cases (missing_input p.input_names)) [
  | inl f ↦ f
  | inr (x, f) ↦ absurd (ground arith)
]

check_provenance_trusted :
    (now : ℕ) (s : RiskSnapshot)
    → check_provenance now s ≡ ok tt
    → (s.trusted ≡ true)
      × ((p : RiskProvenance) × (s.provenance ≡ some p)
          × (is_stale now p ≡ false)
          × (missing_input p.input_names ≡ none))
unfolding check_provenance
check_provenance_trusted now s h = elim (Option-cases s.provenance) [
  | inl e ↦ absurd (ground arith)
  | inr (p, e) ↦
      let known : missing_input p.input_names ≡ none = missing_none now s p e h in
      (ground arith, (p, e, ground arith, known))
]

check_identity_same :
    (g : ResearchSignal) (s : RiskSnapshot) (c : RiskExecutionContext)
    → check_identity g s c ≡ ok tt
    → (g.tenant_id ≡ some c.tenant_id)
      × (s.tenant_id ≡ some c.tenant_id)
      × (g.workspace_id ≡ c.workspace_id)
      × (s.workspace_id ≡ c.workspace_id)
      × (g.account_id ≡ c.account_id)
      × (s.account_id ≡ c.account_id)
      × (g.actor_id ≡ some c.actor_id)
      × (s.actor_id ≡ some c.actor_id)
unfolding check_identity
check_identity_same g s c h = ground arith

check_inputs_known :
    (s : RiskSnapshot) (i : Inputs)
    → check_inputs s ≡ ok i
    → (s.current_exposure ≡ some i.current_exposure)
      × (s.concentration ≡ some i.concentration)
      × (s.daily_loss ≡ some i.daily_loss)
      × (s.strategy_exposure ≡ some i.strategy_exposure)
      × (s.realized_pnl ≢ none)
      × (s.unrealized_pnl ≢ none)
unfolding check_inputs
check_inputs_known s i h = ground arith

check_capital_sound :
    (s : RiskSnapshot) (l : RiskLimits)
    → check_capital s l ≡ ok tt
    → (pos 0 <ℤ s.total_equity)
      × (pos 0 ≤ℤ s.available_capital)
      × (pos 0 ≤ℤ s.reserved_capital)
      × (in_context (s.available_capital +ℤ s.reserved_capital) ≤ℤ s.total_equity)
      × (pos 0 <ℤ l.maximum_risk)
unfolding check_capital
check_capital_sound s l h = ground arith

-- A limit that is set is not reached.
abbrev pub Below : Option ℤ → ℤ → Type 0
Below none v = Unit
Below (some limit) v = v <ℤ limit

pub record IsSized (g : ResearchSignal) (s : RiskSnapshot) (l : RiskLimits) (d : RiskDecision)
    : Type 0 where
  pub size_eq : position_size l.maximum_risk (risk_per_unit g) ≡ ok d.position_size
  pub risk_eq : d.risk_amount ≡ l.maximum_risk
  pub measurable : pos 0 <ℤ risk_per_unit g
  pub some_size : 0 < d.position_size
  pub affordable :
      in_context (pos d.position_size *ℤ g.entry) ≤ℤ s.available_capital *ℤ pos size_scale
  pub exposure : ℤ
  pub exposure_found : lookup g.asset s.asset_exposure ≡ some exposure
  pub exposure_nonneg : pos 0 ≤ℤ exposure

-- What an allowed decision on a size rests on.
record IsCovered (g : ResearchSignal) (s : RiskSnapshot) (l : RiskLimits) (size : ℕ)
    (d : RiskDecision) : Type 0 where
  size_eq : d.position_size ≡ size
  risk_eq : d.risk_amount ≡ l.maximum_risk
  some_size : 0 < size
  affordable : in_context (pos size *ℤ g.entry) ≤ℤ s.available_capital *ℤ pos size_scale
  exposure : ℤ
  exposure_found : lookup g.asset s.asset_exposure ≡ some exposure
  exposure_nonneg : pos 0 ≤ℤ exposure

check_funds_sound :
    (g : ResearchSignal) (s : RiskSnapshot) (l : RiskLimits) (size : ℕ) (d : RiskDecision)
    → check_funds g s l size ≡ ok d
    → d.allowed ≡ true
    → IsCovered g s l size d
unfolding check_funds
check_funds_sound g s l size d h a = elim (Option-cases (lookup g.asset s.asset_exposure)) [
  | inl e ↦ absurd (ground arith)
  | inr (x, e) ↦ record {
    size_eq = ground arith;
    risk_eq = ground arith;
    some_size = ground arith;
    affordable = ground arith;
    exposure = x;
    exposure_found = e;
    exposure_nonneg = ground arith;
  }
]

check_size_sound :
    (g : ResearchSignal) (s : RiskSnapshot) (l : RiskLimits) (d : RiskDecision)
    → check_size g s l ≡ ok d
    → d.allowed ≡ true
    → IsSized g s l d
unfolding check_size
check_size_sound g s l d h a =
    elim (Result-cases (position_size l.maximum_risk (risk_per_unit g))) [
      | inr (r, e) ↦ absurd (ground arith)
      | inl (size, e) ↦
          let k = check_funds_sound g s l size d (ground arith) a in
          record {
            size_eq = rw k.size_eq e;
            risk_eq = k.risk_eq;
            measurable = ground arith;
            some_size = rw k.size_eq k.some_size;
            affordable = rw k.size_eq k.affordable;
            exposure = k.exposure;
            exposure_found = k.exposure_found;
            exposure_nonneg = k.exposure_nonneg;
          }
    ]

-- The exposures that an allowed trade leaves below their limits.
pub record IsWithin (g : ResearchSignal) (l : RiskLimits) (i : Inputs) : Type 0 where
  pub share : ℤ
  pub share_found : lookup g.asset i.concentration ≡ some share
  pub share_within : share ≤ℤ l.maximum_concentration
  pub loss_below : Below l.maximum_daily_loss i.daily_loss
  pub exposure_below : Below l.maximum_exposure i.current_exposure
  pub used : ℤ
  pub used_found : lookup g.strategy i.strategy_exposure ≡ some used
  pub used_below : Below l.maximum_strategy_exposure used

Below-reaches : (o : Option ℤ) (v : ℤ) → reaches o v ≡ false → Below o v
Below-reaches none v h = tt
Below-reaches (some limit) v h = ground arith

check_limits_sound :
    (g : ResearchSignal) (s : RiskSnapshot) (l : RiskLimits) (i : Inputs) (d : RiskDecision)
    → check_limits g s l i ≡ ok d
    → d.allowed ≡ true
    → IsWithin g l i × (check_size g s l ≡ ok d)
unfolding check_limits
check_limits_sound g s l i d h a = elim (Option-cases (lookup g.asset i.concentration)) [
  | inl e ↦ absurd (ground arith)
  | inr (x, e) ↦ elim (Option-cases (lookup g.strategy i.strategy_exposure)) [
    | inl f ↦ absurd (ground arith)
    | inr (y, f) ↦ (
      record {
        share = x;
        share_found = e;
        share_within = ground arith;
        loss_below = Below-reaches l.maximum_daily_loss i.daily_loss (ground arith);
        exposure_below = Below-reaches l.maximum_exposure i.current_exposure (ground arith);
        used = y;
        used_found = f;
        used_below = Below-reaches l.maximum_strategy_exposure y (ground arith);
      },
      ground arith,
    )
  ]
]

-- All that an allowed decision rests on.
pub record IsSafe (now : ℕ) (g : ResearchSignal) (s : RiskSnapshot) (l : RiskLimits)
    (c : RiskExecutionContext) (d : RiskDecision) : Type 0 where
  pub trusted : s.trusted ≡ true
  pub provenance : RiskProvenance
  pub provenance_found : s.provenance ≡ some provenance
  pub fresh : is_stale now provenance ≡ false
  pub complete : missing_input provenance.input_names ≡ none
  pub tenant : (g.tenant_id ≡ some c.tenant_id) × (s.tenant_id ≡ some c.tenant_id)
  pub workspace : (g.workspace_id ≡ c.workspace_id) × (s.workspace_id ≡ c.workspace_id)
  pub account : (g.account_id ≡ c.account_id) × (s.account_id ≡ c.account_id)
  pub actor : (g.actor_id ≡ some c.actor_id) × (s.actor_id ≡ some c.actor_id)
  pub equity :
      (pos 0 <ℤ s.total_equity)
      × (in_context (s.available_capital +ℤ s.reserved_capital) ≤ℤ s.total_equity)
  pub inputs : Inputs
  pub inputs_known : check_inputs s ≡ ok inputs
  pub within : IsWithin g l inputs
  pub sized : IsSized g s l d

validate_stages :
    (now : ℕ) (g : ResearchSignal) (s : RiskSnapshot) (l : RiskLimits) (c : RiskExecutionContext)
    (d : RiskDecision)
    → validate now g s l c ≡ ok d
    → (check_provenance now s ≡ ok tt)
      × (check_identity g s c ≡ ok tt)
      × (check_capital s l ≡ ok tt)
      × ((i : Inputs) × (check_inputs s ≡ ok i) × (check_limits g s l i ≡ ok d))
unfolding validate
validate_stages now g s l c d h = elim (Unit-result (check_provenance now s)) [
  | inr (e, f) ↦ absurd (ground arith)
  | inl e1 ↦ elim (Unit-result (check_identity g s c)) [
    | inr (e, f) ↦ absurd (ground arith)
    | inl e2 ↦ elim (Result-cases (check_inputs s)) [
      | inr (e, f) ↦ absurd (ground arith)
      | inl (i, e3) ↦ elim (Unit-result (check_capital s l)) [
        | inr (e, f) ↦ absurd (ground arith)
        | inl e4 ↦ (e1, e2, e4, (i, e3, ground arith))
      ]
    ]
  ]
]

-- The engine allows a trade only on a trusted, fresh and complete snapshot of the very tenant,
-- workspace, account and actor of the signal and of the call, with consistent capital, with every
-- set limit unreached, and with a size that the available capital pays for, where sums, differences
-- and products are those of 28-digit decimal arithmetic.
pub validate_sound :
    (now : ℕ) (g : ResearchSignal) (s : RiskSnapshot) (l : RiskLimits) (c : RiskExecutionContext)
    (d : RiskDecision)
    → validate now g s l c ≡ ok d
    → d.allowed ≡ true
    → IsSafe now g s l c d
validate_sound now g s l c d h a =
    let (e1, e2, e4, (i, e3, e5)) = validate_stages now g s l c d h in
    let (t, (p, found, fresh, names)) = check_provenance_trusted now s e1 in
    let (gt, st, gw, sw, ga, sa, gx, sx) = check_identity_same g s c e2 in
    let (pos_equity, _, _, buckets, _) = check_capital_sound s l e4 in
    let (inside, size) = check_limits_sound g s l i d e5 a in
    record {
      trusted = t;
      provenance = p;
      provenance_found = found;
      fresh = fresh;
      complete = names;
      tenant = (gt, st);
      workspace = (gw, sw);
      account = (ga, sa);
      actor = (gx, sx);
      equity = (pos_equity, buckets);
      inputs = i;
      inputs_known = e3;
      within = inside;
      sized = check_size_sound g s l d size a;
    }
