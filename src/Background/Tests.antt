-- ===== src/Background/Tests.antt =====
-- Jobs of an analyst: one that fails once and then succeeds, and one without permissions.
use arima_executive_os.Common.{
  ℕ, ◌≡◌, refl, ◌==◌, true, false, none, some, [], ◌∷◌, arith, if◌then◌else◌, ok, err, pos, ◌+ℤ◌,
  ◌-ℤ◌,
}
use arima_executive_os.Identity.{User}
use arima_executive_os.Identity.Tests.{customer}
use arima_executive_os.Background.Permissions.{
  read, admin_approval, approved, ApprovalGrant, BackgroundExecutionContext,
  BackgroundPermissionDecision, Reason, approval_required_error, role_permissions, approval,
  evaluate, require,
}
use arima_executive_os.Background.Grants.{IsPermitted, require_sound, require_waits}
use arima_executive_os.Background.Runner.{
  JobError, other, saved, commit_fails, attempt_output, taken_off, logged_by, output_by,
  RetryPolicy, should_retry, Attempt, attempt_result, attempts_from, Monitor, run,
}
use arima_executive_os.Background.Attempts.{run_retries}

abbrev analyst : User
analyst = record customer { roles = "analyst" ∷ [] }

abbrev context : BackgroundExecutionContext
context = record {
  user = analyst;
  agent_is_active = true;
  conversation_owner_id = 5;
  permissions = read ∷ [];
  required_permissions = read ∷ [];
  required_approval_policy = admin_approval;
}

abbrev grant : ApprovalGrant
grant = record {
  policy = admin_approval;
  outcome = approved;
  approved_by = some 9;
  approved_at = some 100;
  completed_stages = 1;
}

abbrev granted : BackgroundPermissionDecision
granted = record {
  allowed = true;
  missing_permissions = [];
  approval_outcome = approved;
  reason = none;
}

let_through : require context (some grant) ≡ ok granted
unfolding require evaluate approval role_permissions
let_through = refl

require_sound_example : IsPermitted context (some grant)
require_sound_example = require_sound context (some grant) granted let_through

abbrev inactive : BackgroundExecutionContext
inactive = record context { user = record analyst { is_active = false }; required_permissions = [] }

require_waits_example :
    (r : Reason) × (require inactive (some grant) ≡ err (approval_required_error (some r)))
require_waits_example = require_waits inactive (some grant) refl refl

abbrev policy : RetryPolicy
policy = record { extra_attempts = 2; is_retryable = λ e. true; is_non_retryable = λ e. false }

abbrev attempt : ℕ → Attempt
attempt n = record {
  cancelled_before = false;
  result = if n == 1 then err (other 0 "busy") else ok "done";
  duration = 5;
  saving = if n == 2 then commit_fails (other 1 "locked") else saved;
}

abbrev monitor : Monitor
monitor = record { active_jobs = pos 1; failed_jobs = 0 }

-- The second attempt's commit fails, and the third one's does not: the run is counted off twice.
three_attempts :
    let r = run policy 300 context (some grant) attempt monitor in
    (r.execution.attempt_count ≡ 3) × (r.monitor.active_jobs ≡ pos 0)
unfolding run require evaluate approval role_permissions attempts_from attempt_result should_retry
    attempt_output taken_off logged_by output_by ◌+ℤ◌ ◌-ℤ◌
three_attempts = (refl, refl)

run_retries_example :
    (e : JobError) × (attempt_result 300 (attempt 1) ≡ err e) × (should_retry policy e 1 ≡ true)
run_retries_example =
    run_retries policy 300 context (some grant) attempt monitor 1 (omega arith)
      (omega (arith, three_attempts))
