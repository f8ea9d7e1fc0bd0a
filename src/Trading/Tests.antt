-- ===== src/Trading/Tests.antt =====
-- Proposals for the trade of the risk engine's runs.
use arima_executive_os.Common.{
  ◌≡◌, refl, false, none, some, [], ◌∷◌, str_eq, ◌+ℤ◌, ◌-ℤ◌, ◌*ℤ◌, pos, if◌then◌else◌, ok, err,
}
use arima_executive_os.Identity.{has_founder_control_access, resolve, resolve_members, authorize}
use arima_executive_os.Identity.Tests.{customer, directory}
use arima_executive_os.Withdrawal.Tables.{enabled}
use arima_executive_os.Risk.Tables.{passed}
use arima_executive_os.Decimals.{round_half_even, digits, significant, in_context}
use arima_executive_os.Risk.Engine.{
  check_provenance, check_identity, known, check_inputs, check_capital, check_limits, check_size,
  position_size, check_funds, validate,
}
use arima_executive_os.Risk.Tests.{trusted, signal, limits}
use arima_executive_os.Trading.Tables.{
  TradeExecution, Desk, Setup, snapshot, key_conflict, blocked, proposal, execution_disabled,
}
use arima_executive_os.Trading.Service.{
  execution_request_fingerprint, recorded, authorize_context, check_call, check_risk, disable,
  settle, decide, call_context, evaluate,
}
use arima_executive_os.Trading.Safety.{AllBlocked, AnswerIsBlocked, evaluate-AllBlocked}
use arima_executive_os.Trading.DryRun.{IsAllowed, evaluate-IsAllowed}
use arima_executive_os.Trading.Replay.{evaluate_again}

abbrev setup : Setup
setup = record { now = 1030; limits = limits; provided = snapshot trusted; digest = λ p. "digest" }

abbrev desk : Desk
desk = record {
  directory = directory;
  circuits =
      record {
        id = 15;
        workspace_id = 7;
        state = enabled;
        reason = none;
        changed_by_id = none;
        changed_at = 0;
      }
      ∷ [];
  executions = [];
  audits = [];
  next_id = 20;
}

evaluate-AllBlocked_example :
    AnswerIsBlocked (evaluate setup 1 customer signal "key-1" desk).0
    × AllBlocked (evaluate setup 1 customer signal "key-1" desk).1
evaluate-AllBlocked_example = evaluate-AllBlocked setup 1 customer signal "key-1" desk tt

-- The row that is recorded: allowed by the engine, and blocked all the same.
abbrev blocked_row : TradeExecution
blocked_row = record {
  id = 20;
  tenant_id = 1;
  workspace_id = 7;
  actor_id = 5;
  account_id = 5;
  asset = "BTC";
  strategy = "trend";
  signal_id = 3;
  provider = "desk";
  quantity = 250000000;
  idempotency_key = "key-1";
  request_fingerprint = "digest";
  state = blocked;
  risk_decision = some passed;
  circuit_state = some enabled;
  execution_permission = false;
  rejection_reason = some execution_disabled;
  dry_run_result = proposal "BTC" 250000000 (pos 25) (pos 100) (pos 90) (pos 120 ∷ []);
}

abbrev desk_after : Desk
desk_after = recorded customer blocked_row desk

proposed_trade : evaluate setup 1 customer signal "key-1" desk ≡ (ok blocked_row, desk_after)
unfolding evaluate execution_request_fingerprint check_call authorize_context authorize resolve
    resolve_members has_founder_control_access decide check_risk disable settle validate
    check_provenance check_identity check_inputs known check_capital check_limits check_size
    check_funds position_size round_half_even significant digits in_context ◌+ℤ◌ ◌-ℤ◌ ◌*ℤ◌
proposed_trade = refl

evaluate-IsAllowed_example :
    IsAllowed setup desk signal (call_context 1 signal customer) blocked_row
evaluate-IsAllowed_example =
    evaluate-IsAllowed setup 1 customer signal "key-1" desk desk_after blocked_row refl
      proposed_trade refl

evaluate_again_example :
    evaluate setup 1 customer signal "key-1" desk_after
    ≡ (if str_eq "digest" "digest" then ok blocked_row else err key_conflict, desk_after)
unfolding execution_request_fingerprint
evaluate_again_example =
    evaluate_again setup setup 1 customer signal "key-1" desk desk_after blocked_row refl
      proposed_trade refl
