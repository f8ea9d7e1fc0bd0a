-- ===== src/Trading/Safety.antt =====
-- The state that `evaluate` of app/services/trading_contracts.py leaves a proposal in.
use arima_executive_os.Common.{
  ℕ, ◌≡◌, ◌≢◌, refl, ◌==◌, ◌&&◌, str_eq, false, none, some, List, [], ◌∷◌, String, inl, inr,
  find_first, Bool-cases, Option-cases, Result-cases, Unit-result, arith, All, Result, ok, err,
}
use arima_executive_os.Identity.{User}
use arima_executive_os.Withdrawal.Tables.{is_enabled}
use arima_executive_os.Risk.Tables.{ResearchSignal, RiskExecutionContext}
use arima_executive_os.Trading.Tables.{TradeExecution, blocked, TradeError, Desk, Setup, circuit_is}
use arima_executive_os.Trading.Service.{
  execution_request_fingerprint, Checked, check_call, check_risk, disable, settle, decide,
  call_context, new_row, find_execution, answer_existing, evaluate,
}

-- Blocked, with a reason and without the permission to execute.
pub record IsBlocked (x : TradeExecution) : Type 0 where
  pub in_state : x.state ≡ blocked
  pub no_permission : x.execution_permission ≡ false
  pub with_reason : x.rejection_reason ≢ none

disable-reason : (g : ResearchSignal) (k : Checked) → (disable g k).reason ≢ none
unfolding disable
disable-reason g k = ground arith

settle-IsBlocked : (k : Checked) → k.reason ≢ none → IsBlocked (settle k)
unfolding settle
settle-IsBlocked k h = ground arith

-- A proposal that is not permitted yet leaves `decide` blocked, whatever the risk provider does.
decide-IsBlocked :
    (setup : Setup) (desk : Desk) (g : ResearchSignal) (c : RiskExecutionContext)
    (x y : TradeExecution)
    → x.execution_permission ≡ false
    → decide setup desk g c x ≡ ok y
    → IsBlocked y
unfolding decide
decide-IsBlocked setup desk g c x y p h =
    elim (Option-cases (find_first (λ b. b.workspace_id == g.workspace_id) desk.circuits)) [
      | inl e ↦ record {
        in_state = ground arith;
        no_permission = ground arith;
        with_reason = ground arith;
      }
      | inr (b, e) ↦ elim (Bool-cases (is_enabled b.state)) [
        | inl on ↦
            elim (Result-cases (check_risk setup g c (record x { circuit_state = some b.state }))) [
              | inl (k, f) ↦
                  let eq : y ≡ settle (disable g k) = ground arith in
                  rw eq (settle-IsBlocked (disable g k) (disable-reason g k))
              | inr (r, f) ↦ absurd (ground arith)
            ]
        | inr off ↦
            let k : Checked = record {
              execution = record x { circuit_state = some b.state };
              reason = some (circuit_is b.state);
              decision = none;
            } in
            let eq : y ≡ settle (disable g k) = ground arith in
            rw eq (settle-IsBlocked (disable g k) (disable-reason g k))
      ]
    ]

abbrev pub AllBlocked : Desk → Type 0
AllBlocked d = All IsBlocked d.executions

-- Recorded executions that are blocked are answered blocked.
find-IsBlocked :
    (ws : ℕ) (key : String) (xs : List TradeExecution) (x : TradeExecution)
    → All IsBlocked xs
    → find_execution ws key xs ≡ some x
    → IsBlocked x
find-IsBlocked ws key [] x h f = absurd (ground arith)
find-IsBlocked ws key (y ∷ ys) x (h, hs) f =
    elim (Bool-cases (y.workspace_id == ws && str_eq y.idempotency_key key)) [
      | inl t ↦ let e : x ≡ y = ground arith in rw e h
      | inr n ↦ find-IsBlocked ws key ys x hs (ground arith)
    ]

-- An answer with an execution is one with a blocked execution.
abbrev pub AnswerIsBlocked : Result TradeError TradeExecution → Type 0
AnswerIsBlocked (ok x) = IsBlocked x
AnswerIsBlocked (err e) = Unit

answer_existing-AnswerIsBlocked :
    (fp : String) (x : TradeExecution) → IsBlocked x → AnswerIsBlocked (answer_existing fp x)
answer_existing-AnswerIsBlocked fp x h = ground arith

-- Where every recorded execution is blocked, whatever the risk provider, the engine and the circuit
-- breaker do: a proposal that is answered is blocked, has no permission to execute and a reason,
-- and every execution on record stays so.
pub evaluate-AllBlocked :
    (setup : Setup) (tenant : ℕ) (actor : User) (g : ResearchSignal) (key : String) (desk : Desk)
    → AllBlocked desk
    → AnswerIsBlocked (evaluate setup tenant actor g key desk).0
      × AllBlocked (evaluate setup tenant actor g key desk).1
unfolding evaluate
evaluate-AllBlocked setup tenant actor g key desk w =
    elim (Unit-result (check_call desk.directory tenant actor g)) [
      | inr (e, f) ↦ rw (f, evaluate) (tt, w)
      | inl f ↦ elim (Option-cases (find_execution g.workspace_id key desk.executions)) [
        | inr (x, e) ↦
            rw (f, e, evaluate)
              (
                answer_existing-AnswerIsBlocked
                    (execution_request_fingerprint setup g tenant actor.id) x
                    (find-IsBlocked g.workspace_id key desk.executions x w e),
                w,
              )
        | inl e ↦
            elim (Result-cases (
              decide setup desk g (call_context tenant g actor)
                (new_row setup tenant g actor key desk))) [
                  | inr (r, d) ↦ rw (f, e, d, evaluate) (tt, w)
                  | inl (x, d) ↦
                      let b : IsBlocked x =
                        decide-IsBlocked setup desk g (call_context tenant g actor)
                          (new_row setup tenant g actor key desk) x refl d in
                      rw (f, e, d, evaluate) (b, (b, w))
                ]
      ]
    ]
