-- ===== src/Trading/DryRun.antt =====
-- The dry runs that `evaluate` of app/services/trading_contracts.py records.
use arima_executive_os.Common.{
  ℕ, ◌≡◌, ◌≢◌, refl, ◌==◌, Bool, true, false, ◌⊎◌, none, some, String, inl, inr, find_first,
  Bool-cases, Option-cases, Result-cases, Unit-result, arith, ok,
}
use arima_executive_os.Identity.{User}
use arima_executive_os.Withdrawal.Tables.{is_enabled, CircuitBreaker}
use arima_executive_os.Risk.Tables.{
  RiskSnapshot, ResearchSignal, RiskExecutionContext, RiskDecision,
}
use arima_executive_os.Risk.Engine.{validate}
use arima_executive_os.Trading.Tables.{
  TradeExecution, DryRun, no_result, not_executed, proposal, Desk, Setup, Provided, snapshot,
  runtime_error, other_error, BlockReason, circuit_is,
}
use arima_executive_os.Trading.Service.{
  Checked, check_call, check_risk, disable, settle, decide, find_execution, call_context, new_row,
  propose, evaluate,
}

-- The circuit breaker of the workspace is enabled, and the engine allows the trade on the snapshot
-- that the provider returned.
pub record IsAllowed (setup : Setup) (desk : Desk) (g : ResearchSignal) (c : RiskExecutionContext)
    (y : TradeExecution) : Type 0 where
  pub breaker : CircuitBreaker
  pub found : find_first (λ b. b.workspace_id == g.workspace_id) desk.circuits ≡ some breaker
  pub is_on : is_enabled breaker.state ≡ true
  pub taken : RiskSnapshot
  pub provided : setup.provided ≡ snapshot taken
  pub decision : RiskDecision
  pub allows : validate setup.now g taken setup.limits c ≡ ok decision
  pub allowed : decision.allowed ≡ true
  pub proposes : y.dry_run_result ≡ propose g decision

-- A result that is a proposal.
abbrev pub is_proposal : DryRun → Bool
is_proposal no_result = false
is_proposal not_executed = false
is_proposal (proposal a q r e s t) = true

settle-dry_run_result : (k : Checked) → (settle k).dry_run_result ≡ k.execution.dry_run_result
unfolding settle
settle-dry_run_result k = ground arith

Provided-cases :
    (p : Provided)
    → (p ≡ other_error)
      ⊎ ((m : String) × (p ≡ runtime_error m))
      ⊎ ((s : RiskSnapshot) × (p ≡ snapshot s))
Provided-cases other_error = inl refl
Provided-cases (runtime_error m) = inr (inl (m, refl))
Provided-cases (snapshot s) = inr (inr (s, refl))

-- What has made the checked row a proposal.
disable-proposal :
    (setup : Setup) (g : ResearchSignal) (c : RiskExecutionContext) (x : TradeExecution)
    (k : Checked)
    → x.dry_run_result ≡ no_result
    → check_risk setup g c x ≡ ok k
    → is_proposal (disable g k).execution.dry_run_result ≡ true
    → (s : RiskSnapshot) × ((d : RiskDecision) × (setup.provided ≡ snapshot s)
        × (validate setup.now g s setup.limits c ≡ ok d)
        × (d.allowed ≡ true)
        × ((disable g k).execution.dry_run_result ≡ propose g d))
unfolding check_risk disable
disable-proposal setup g c x k fresh h p = elim (Provided-cases setup.provided) [
  | inl e ↦ absurd (ground arith)
  | inr (inl (m, e)) ↦ absurd (ground arith)
  | inr (inr (s, e)) ↦ elim (Result-cases (validate setup.now g s setup.limits c)) [
    | inr (r, f) ↦ absurd (ground arith)
    | inl (d, f) ↦ (s, (d, e, f, ground arith, ground arith))
  ]
]

stopped-no_proposal :
    (g : ResearchSignal) (k : Checked) (b : BlockReason)
    → k.reason ≡ some b
    → k.execution.dry_run_result ≡ no_result
    → is_proposal (settle (disable g k)).dry_run_result ≢ true
unfolding settle disable
stopped-no_proposal g k b e f h = ground arith

decide-IsAllowed :
    (setup : Setup) (desk : Desk) (g : ResearchSignal) (c : RiskExecutionContext)
    (x y : TradeExecution)
    → x.dry_run_result ≡ no_result
    → decide setup desk g c x ≡ ok y
    → is_proposal y.dry_run_result ≡ true
    → IsAllowed setup desk g c y
unfolding decide
decide-IsAllowed setup desk g c x y fresh h p =
    elim (Option-cases (find_first (λ b. b.workspace_id == g.workspace_id) desk.circuits)) [
      | inl e ↦ absurd (ground arith)
      | inr (b, e) ↦ elim (Bool-cases (is_enabled b.state)) [
        | inr off ↦
            let z = record x { circuit_state = some b.state } in
            let k : Checked = record {
              execution = z;
              reason = some (circuit_is b.state);
              decision = none;
            } in
            let eq : y ≡ settle (disable g k) = ground arith in
            absurd (stopped-no_proposal g k (circuit_is b.state) refl fresh (rw (← eq) p))
        | inl on ↦
            let z = record x { circuit_state = some b.state } in
            elim (Result-cases (check_risk setup g c z)) [
              | inr (r, f) ↦ absurd (ground arith)
              | inl (k, f) ↦
                  let eq : y ≡ settle (disable g k) = ground arith in
                  let result : y.dry_run_result ≡ (disable g k).execution.dry_run_result =
                    rw eq (settle-dry_run_result (disable g k)) in
                  let (s, (d, given, allows, allowed, proposes)) =
                    disable-proposal setup g c z k fresh f (rw (← result) p) in
                  record {
                    breaker = b;
                    found = e;
                    is_on = on;
                    taken = s;
                    provided = given;
                    decision = d;
                    allows = allows;
                    allowed = allowed;
                    proposes = rw result proposes;
                  }
            ]
      ]
    ]

-- A new proposal is recorded as a dry run only where the workspace's circuit breaker is enabled and
-- the engine, given the provider's snapshot, allows the trade with exactly the proposed size and
-- risk.
pub evaluate-IsAllowed :
    (setup : Setup) (tenant : ℕ) (actor : User) (g : ResearchSignal) (key : String)
    (desk after : Desk) (x : TradeExecution)
    → find_execution g.workspace_id key desk.executions ≡ none
    → evaluate setup tenant actor g key desk ≡ (ok x, after)
    → is_proposal x.dry_run_result ≡ true
    → IsAllowed setup desk g (call_context tenant g actor) x
unfolding evaluate
evaluate-IsAllowed setup tenant actor g key desk after x new h p =
    elim (Unit-result (check_call desk.directory tenant actor g)) [
      | inr (e, f) ↦ absurd (ground arith)
      | inl f ↦
          let row = new_row setup tenant g actor key desk in
          elim (Result-cases (decide setup desk g (call_context tenant g actor) row)) [
            | inr (r, d) ↦ absurd (ground arith)
            | inl (y, d) ↦
                let e : x ≡ y = ground arith in
                decide-IsAllowed setup desk g (call_context tenant g actor) row x refl (rw e d) p
          ]
    ]
