-- ===== src/Background/Runner.antt =====
-- `RetryPolicy` of app/background/policies.py and `BackgroundJobRunner.run` of
-- app/background/runner.py. What one attempt comes to - the output of the job's plan or the
-- exception of its validation, its execution or the elapsed time, and what its log and its commit
-- raise - is an argument, `attempt n`, as
-- is the classification of exceptions by `isinstance`. What the log and the commit raise outside of the
-- attempts leaves `run` at once; that is not modelled.
use arima_executive_os.Common.{
  ℕ, zero, suc, ◌+◌, ◌*◌, ltb, Bool, true, false, ◌&&◌, not, Option, none, some, List, [], ◌∷◌,
  String, if◌then◌else◌, Result, ok, err, ◌>>=◌, ◌++◌, map, ℤ, pos, ◌+ℤ◌, ◌-ℤ◌,
}
use arima_executive_os.Background.Permissions.{
  ApprovalGrant, ApprovalOutcome, not_required, pending, denied, BackgroundExecutionContext,
  BackgroundError, permission_denied, approval_required_error, require,
}

pub data BackgroundJobState : Type 0 where
  job_pending scheduled queued running succeeded failed cancelled paused : BackgroundJobState
  blocked waiting_for_approval expired : BackgroundJobState

-- The exceptions that an attempt raises.
pub data JobError : Type 0 where
  cancellation timeout : JobError
  other : ℕ → String → JobError  -- a class and a message

pub record RetryPolicy : Type 0 where
  pub extra_attempts : ℕ  -- `maximum_attempts`, which is positive, less one
  pub is_retryable : JobError → Bool
  pub is_non_retryable : JobError → Bool

abbrev pub maximum_attempts : RetryPolicy → ℕ
maximum_attempts p = suc p.extra_attempts

unfoldable pub should_retry : RetryPolicy → JobError → ℕ → Bool
should_retry p e attempt =
    ltb attempt (maximum_attempts p) && (not (p.is_non_retryable e) && p.is_retryable e)

-- The log of the success and the commit after it, which raise inside the attempt.
pub data Saving : Type 0 where
  saved : Saving
  log_fails commit_fails : JobError → Saving

-- An attempt without its cancellation and time checks.
pub record Attempt : Type 0 where
  pub cancelled_before : Bool
  pub result : Result JobError String
  pub duration : ℕ
  pub saving : Saving

-- `_ensure_not_cancelled`, the job, and the timeout.
unfoldable pub attempt_output : ℕ → Attempt → Result JobError String
attempt_output limit a = if a.cancelled_before then err cancellation else elim a.result [
  | err e ↦ err e
  | ok output ↦ if ltb (limit * 1000) a.duration then err timeout else ok output
]

abbrev pub after_saving : Saving → String → Result JobError String
after_saving saved output = ok output
after_saving (log_fails e) output = err e
after_saving (commit_fails e) output = err e

-- What leaves the `try` block: the output once it is saved, or an exception.
unfoldable pub attempt_result : ℕ → Attempt → Result JobError String
unfolding attempt_output
attempt_result limit a = attempt_output limit a >>= after_saving a.saving

-- `active_jobs -= 1`, which comes before the log and the commit.
unfoldable pub taken_off : ℕ → Attempt → ℕ
unfolding attempt_output
taken_off limit a = elim (attempt_output limit a) [ ok output ↦ 1 | err e ↦ 0 ]

abbrev pub is_logged : Saving → Bool
is_logged (log_fails e) = false
is_logged _ = true

-- The attempts that have logged a success: this one, or none.
unfoldable pub logged_by : ℕ → Attempt → ℕ → List ℕ
unfolding attempt_output
logged_by limit a n = elim (attempt_output limit a) [
  | ok output ↦ if is_logged a.saving then n ∷ [] else []
  | err e ↦ []
]

-- `execution.result_payload = output`, before the log and the commit as well.
unfoldable pub output_by : ℕ → Attempt → Option String
unfolding attempt_output
output_by limit a = elim (attempt_output limit a) [ ok output ↦ some output | err e ↦ none ]

pub record AttemptRow : Type 0 where
  pub attempt_number : ℕ
  pub status : BackgroundJobState
  pub error : Option JobError

abbrev pub is_cancellation : JobError → Bool
is_cancellation cancellation = true
is_cancellation _ = false

abbrev pub failed_row : ℕ → JobError → AttemptRow
failed_row n e = record {
  attempt_number = n;
  status = if is_cancellation e then cancelled else failed;
  error = some e;
}

abbrev pub succeeded_row : ℕ → AttemptRow
succeeded_row n = record { attempt_number = n; status = succeeded; error = none }

-- The rows of the attempts, in their order, the outcome of the last one, how often `active_jobs` has
-- gone down, the attempts that have logged a success, and the latest output.
pub record Looped : Type 0 where
  pub rows : List AttemptRow
  pub last : ℕ
  pub outcome : Result JobError String
  pub downs : ℕ
  pub logged : List ℕ
  pub output : Option String

abbrev pub ended : ℕ → Attempt → ℕ → AttemptRow → Result JobError String → Looped
ended limit a n r outcome = record {
  rows = r ∷ [];
  last = n;
  outcome = outcome;
  downs = taken_off limit a;
  logged = logged_by limit a n;
  output = output_by limit a;
}

abbrev pub or_earlier : Option String → Option String → Option String
or_earlier (some output) earlier = some output
or_earlier none earlier = earlier

abbrev pub after_row : ℕ → Attempt → ℕ → AttemptRow → Looped → Looped
after_row limit a n r l = record {
  rows = r ∷ l.rows;
  last = l.last;
  outcome = l.outcome;
  downs = taken_off limit a + l.downs;
  logged = logged_by limit a n ++ l.logged;
  output = or_earlier l.output (output_by limit a);
}

-- The loop from the attempt `n` on, with `left` more attempts after it.
unfoldable pub attempts_from : RetryPolicy → ℕ → (ℕ → Attempt) → ℕ → ℕ → Looped
attempts_from p limit attempt zero n = elim (attempt_result limit (attempt n)) [
  | ok output ↦ ended limit (attempt n) n (succeeded_row n) (ok output)
  | err e ↦ ended limit (attempt n) n (failed_row n e) (err e)
]
attempts_from p limit attempt (suc left) n =
    let rest = attempts_from p limit attempt left (n + 1) in
    elim (attempt_result limit (attempt n)) [
      | ok output ↦ ended limit (attempt n) n (succeeded_row n) (ok output)
      | err e ↦
          if should_retry p e n
          then after_row limit (attempt n) n (failed_row n e) rest
          else ended limit (attempt n) n (failed_row n e) (err e)
    ]

pub record LifecycleRecord : Type 0 where
  pub from_state : Option BackgroundJobState
  pub to_state : BackgroundJobState
  pub attempt : ℕ
  pub approval_outcome : ApprovalOutcome

pub record Execution : Type 0 where
  pub status : BackgroundJobState
  pub attempt_count : ℕ
  pub rows : List AttemptRow
  pub error : Option JobError
  pub result_payload : Option String

pub record Monitor : Type 0 where
  pub active_jobs : ℤ
  pub failed_jobs : ℕ

-- What a run raises.
pub data RunError : Type 0 where
  not_permitted : BackgroundError → RunError
  retry_exhausted raised : JobError → RunError

-- What a run leaves behind: its answer, its execution row, the lifecycle log and the monitor.
pub record Ran : Type 0 where
  pub answer : Result RunError String
  pub execution : Execution
  pub lifecycle : List LifecycleRecord
  pub monitor : Monitor

abbrev pub step :
    Option BackgroundJobState → BackgroundJobState → ℕ → ApprovalOutcome → LifecycleRecord
step from_state to_state attempt outcome = record {
  from_state = from_state;
  to_state = to_state;
  attempt = attempt;
  approval_outcome = outcome;
}

abbrev pub parked : BackgroundJobState → ApprovalOutcome → BackgroundError → Monitor → Ran
parked state outcome e m = record {
  answer = err (not_permitted e);
  execution = record {
    status = state;
    attempt_count = 0;
    rows = [];
    error = none;
    result_payload = none;
  };
  lifecycle = step none job_pending 1 not_required ∷ step (some job_pending) state 1 outcome ∷ [];
  monitor = m;
}

-- The state that a run ends in, from the outcome of its last attempt.
abbrev pub final_state : Result JobError String → BackgroundJobState
final_state (ok output) = succeeded
final_state (err e) = if is_cancellation e then cancelled else failed

-- `maximum_attempts > 1 and not cancelled`
abbrev pub is_exhausted : RetryPolicy → JobError → Bool
is_exhausted p e = ltb 1 (maximum_attempts p) && not (is_cancellation e)

abbrev pub answer_of : RetryPolicy → Result JobError String → Result RunError String
answer_of p (ok output) = ok output
answer_of p (err e) = if is_exhausted p e then err (retry_exhausted e) else err (raised e)

abbrev pub failures : Result JobError String → ℕ
failures (ok output) = 0
failures (err e) = if is_cancellation e then 0 else 1

abbrev pub error_of : Result JobError String → Option JobError
error_of (ok output) = none
error_of (err e) = some e

-- The final section, which a saved output skips: `active_jobs` goes down there, wherever it went down
-- in the loop.
abbrev pub last_down : Result JobError String → ℕ
last_down (ok output) = 0
last_down (err e) = 1

abbrev pub last_step : Result JobError String → ℕ → ApprovalOutcome → List LifecycleRecord
last_step (ok output) n outcome = []
last_step (err e) n outcome = step (some running) (final_state (err e)) n outcome ∷ []

abbrev pub finished : RetryPolicy → ApprovalOutcome → Monitor → Looped → Ran
finished p outcome m l = record {
  answer = answer_of p l.outcome;
  execution = record {
    status = final_state l.outcome;
    attempt_count = l.last;
    rows = l.rows;
    error = error_of l.outcome;
    result_payload = l.output;
  };
  lifecycle =
      step none job_pending 1 not_required
        ∷ step (some job_pending) running 1 outcome
        ∷ map (λ n. step (some running) succeeded n outcome) l.logged
      ++ last_step l.outcome l.last outcome;
  monitor = record {
    active_jobs = m.active_jobs +ℤ pos 1 -ℤ pos l.downs -ℤ pos (last_down l.outcome);
    failed_jobs = m.failed_jobs + failures l.outcome;
  };
}

unfoldable pub run :
    RetryPolicy
    → ℕ
    → BackgroundExecutionContext
    → Option ApprovalGrant
    → (ℕ → Attempt)
    → Monitor
    → Ran
run p limit c grant attempt m = elim (require c grant) [
  | err (approval_required_error r) ↦
      parked waiting_for_approval pending (approval_required_error r) m
  | err (permission_denied r) ↦ parked blocked denied (permission_denied r) m
  | ok d ↦ finished p d.approval_outcome m (attempts_from p limit attempt p.extra_attempts 1)
]
