-- ===== src/Trading/Replay.antt =====
-- A proposal that is sent again to `evaluate` of app/services/trading_contracts.py.
use arima_executive_os.Common.{
  ℕ, ◌≡◌, refl, ◌∙◌, ◌==◌, ==_refl, eq_refl, if◌then◌else◌, str_eq, false, none, some, String, inl,
  inr, find_first, Bool-cases, Option-cases, Result-cases, Unit-result, arith, ok, err,
}
use text.Mathlib.Text.{starts_with}
use arima_executive_os.Identity.{User}
use arima_executive_os.Withdrawal.Tables.{is_enabled}
use arima_executive_os.Risk.Tables.{ResearchSignal, RiskExecutionContext}
use arima_executive_os.Trading.Tables.{TradeExecution, key_conflict, Desk, Setup, circuit_is}
use arima_executive_os.Trading.Service.{
  execution_request_fingerprint, recorded, Checked, check_call, check_risk, disable, settle, decide,
  find_execution, call_context, new_row, evaluate,
}

-- The columns by which a row is found again.
pub record SameKey (x y : TradeExecution) : Type 0 where
  pub workspace : y.workspace_id ≡ x.workspace_id
  pub key : y.idempotency_key ≡ x.idempotency_key
  pub fingerprint : y.request_fingerprint ≡ x.request_fingerprint

settle-SameKey : (k : Checked) → SameKey k.execution (settle k)
unfolding settle
settle-SameKey k = record {
  workspace = ground arith;
  key = ground arith;
  fingerprint = ground arith;
}

disable-SameKey : (g : ResearchSignal) (k : Checked) → SameKey k.execution (disable g k).execution
unfolding disable
disable-SameKey g k = record {
  workspace = ground arith;
  key = ground arith;
  fingerprint = ground arith;
}

check_risk-SameKey :
    (setup : Setup) (g : ResearchSignal) (c : RiskExecutionContext) (x : TradeExecution)
    (k : Checked)
    → check_risk setup g c x ≡ ok k
    → SameKey x k.execution
unfolding check_risk
check_risk-SameKey setup g c x k h = record {
  workspace = ground arith;
  key = ground arith;
  fingerprint = ground arith;
}

SameKey-trans : {x y z : TradeExecution} → SameKey x y → SameKey y z → SameKey x z
SameKey-trans p q = record {
  workspace = q.workspace ∙ p.workspace;
  key = q.key ∙ p.key;
  fingerprint = q.fingerprint ∙ p.fingerprint;
}

decide-SameKey :
    (setup : Setup) (desk : Desk) (g : ResearchSignal) (c : RiskExecutionContext)
    (x y : TradeExecution)
    → decide setup desk g c x ≡ ok y
    → SameKey x y
unfolding decide
decide-SameKey setup desk g c x y h =
    elim (Option-cases (find_first (λ b. b.workspace_id == g.workspace_id) desk.circuits)) [
      | inl e ↦ record { workspace = ground arith; key = ground arith; fingerprint = ground arith }
      | inr (b, e) ↦
          let z = record x { circuit_state = some b.state } in
          let start : SameKey x z = record { workspace = refl; key = refl; fingerprint = refl } in
          elim (Bool-cases (is_enabled b.state)) [
            | inr off ↦
                let k : Checked = record {
                  execution = z;
                  reason = some (circuit_is b.state);
                  decision = none;
                } in
                let eq : y ≡ settle (disable g k) = ground arith in
                let same : SameKey z y =
                  rw eq (SameKey-trans (disable-SameKey g k) (settle-SameKey (disable g k))) in
                SameKey-trans start same
            | inl on ↦ elim (Result-cases (check_risk setup g c z)) [
              | inr (r, f) ↦ absurd (ground arith)
              | inl (k, f) ↦
                  let eq : y ≡ settle (disable g k) = ground arith in
                  let same : SameKey z y = rw eq (
                    SameKey-trans (check_risk-SameKey setup g c z k f)
                      (SameKey-trans (disable-SameKey g k) (settle-SameKey (disable g k)))) in
                  SameKey-trans start same
            ]
          ]
    ]

-- What a new proposal leaves on the desk.
evaluate-records :
    (setup : Setup) (tenant : ℕ) (actor : User) (g : ResearchSignal) (key : String)
    (desk after : Desk) (x : TradeExecution)
    → find_execution g.workspace_id key desk.executions ≡ none
    → evaluate setup tenant actor g key desk ≡ (ok x, after)
    → (check_call desk.directory tenant actor g ≡ ok tt)
      × (after ≡ recorded actor x desk)
      × SameKey (new_row setup tenant g actor key desk) x
unfolding evaluate
evaluate-records setup tenant actor g key desk after x new h =
    elim (Unit-result (check_call desk.directory tenant actor g)) [
      | inr (e, f) ↦ absurd (ground arith)
      | inl f ↦
          let row = new_row setup tenant g actor key desk in
          elim (Result-cases (decide setup desk g (call_context tenant g actor) row)) [
            | inr (r, d) ↦ absurd (ground arith)
            | inl (y, d) ↦
                let e : x ≡ y = ground arith in
                (
                  f,
                  ground arith,
                  decide-SameKey setup desk g (call_context tenant g actor) row x (rw e d),
                )
          ]
    ]

-- A new proposal that was answered is answered the same when it is sent again with the same key and
-- an equal digest, and is a conflict if the digest is another; the desk does not change again
-- either way. The first digest must not look like the placeholder of a migrated row.
pub evaluate_again :
    (setup later : Setup) (tenant : ℕ) (actor : User) (g : ResearchSignal) (key : String)
    (desk after : Desk) (x : TradeExecution)
    → find_execution g.workspace_id key desk.executions ≡ none
    → evaluate setup tenant actor g key desk ≡ (ok x, after)
    → starts_with "legacy-unverified:" (execution_request_fingerprint setup g tenant actor.id)
      ≡ false
    → evaluate later tenant actor g key after ≡ (
      if str_eq
            (execution_request_fingerprint setup g tenant actor.id)
            (execution_request_fingerprint later g tenant actor.id)
          then ok x
          else err key_conflict,
      after,
    )
unfolding evaluate
evaluate_again setup later tenant actor g key desk after x new h plain =
    let (f, e, same) = evaluate-records setup tenant actor g key desk after x new h in
    let found : find_execution g.workspace_id key after.executions ≡ some x =
      rw (e, same.workspace, same.key, ==_refl g.workspace_id, eq_refl key) refl in
    let fp : x.request_fingerprint ≡ execution_request_fingerprint setup g tenant actor.id =
      same.fingerprint in
    let call : check_call after.directory tenant actor g ≡ ok tt = rw e f in
    rw (call, found, fp, plain, evaluate) refl
