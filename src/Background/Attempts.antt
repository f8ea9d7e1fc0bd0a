-- ===== src/Background/Attempts.antt =====
-- The attempts of `BackgroundJobRunner.run` in app/background/runner.py, and the end of a run.
use arima_executive_os.Common.{
  ℕ, zero, suc, ◌+◌, ◌≤◌, ◌<◌, ◌≡◌, ltb, true, false, Option, String, inl, inr, Bool-cases,
  Result-cases, arith, length, Result, ok, err,
}
use arima_executive_os.Background.Permissions.{
  ApprovalGrant, BackgroundExecutionContext, permission_denied, approval_required_error, require,
}
use arima_executive_os.Background.Runner.{
  JobError, RetryPolicy, maximum_attempts, should_retry, Attempt, attempt_output, attempt_result,
  saved, log_fails, commit_fails, last_down, Looped, attempts_from, Execution, Monitor, final_state,
  run,
}

-- An attempt that came to an output, which its log or its commit has refused.
abbrev pub lost_save : ℕ → Attempt → ℕ
lost_save limit a = elim (attempt_output limit a) [
  | err e ↦ 0
  | ok output ↦ elim a.saving [ saved ↦ 0 | log_fails e ↦ 1 | commit_fails e ↦ 1 ]
]

-- Such attempts among the `count` ones from the attempt `n` on.
unfoldable pub lost_saves : ℕ → (ℕ → Attempt) → ℕ → ℕ → ℕ
lost_saves limit attempt zero n = 0
lost_saves limit attempt (suc count) n =
    lost_save limit (attempt n) + lost_saves limit attempt count (n + 1)

-- A loop is over with an output, or with an exception that is not retried.
abbrev pub IsOver : RetryPolicy → ℕ → Result JobError String → Type 0
IsOver p n (ok output) = Unit
IsOver p n (err e) = should_retry p e n ≡ false

pub record IsLooped (p : RetryPolicy) (limit : ℕ) (attempt : ℕ → Attempt) (left n : ℕ) (l : Looped)
    : Type 0 where
  pub not_before : n ≤ l.last
  pub within : l.last ≤ n + left
  pub rows_count : length l.rows + n ≡ l.last + 1
  pub outcome_eq : attempt_result limit (attempt l.last) ≡ l.outcome
  pub over : IsOver p l.last l.outcome
  pub downs_eq : l.downs + last_down l.outcome ≡ lost_saves limit attempt (length l.rows) n + 1

-- Every attempt before the last one has failed with an exception that the policy retries.
attempts_from-retried :
    (p : RetryPolicy) (limit : ℕ) (attempt : ℕ → Attempt) (left n i : ℕ)
    → n ≤ i
    → i < (attempts_from p limit attempt left n).last
    → (e : JobError) × (attempt_result limit (attempt i) ≡ err e) × (should_retry p e i ≡ true)
unfolding attempts_from
attempts_from-retried p limit attempt zero n i h k =
    elim (Result-cases (attempt_result limit (attempt n))) [
      | inl (o, e) ↦ absurd (ground arith)
      | inr (r, e) ↦ absurd (ground arith)
    ]
attempts_from-retried p limit attempt (suc left) n i h k =
    elim (Result-cases (attempt_result limit (attempt n))) [
      | inl (o, e) ↦ absurd (ground arith)
      | inr (r, e) ↦ elim (Bool-cases (should_retry p r n)) [
        | inr f ↦ absurd (ground arith)
        | inl f ↦ elim (Bool-cases (ltb n i)) [
          | inl later ↦
              attempts_from-retried p limit attempt left (n + 1) i (ground arith) (ground arith)
          | inr now ↦ let same : i ≡ n = ground arith in rw same (r, e, f)
        ]
      ]
    ]

-- How the run of a job that may run ends.
pub record IsRun (p : RetryPolicy) (limit : ℕ) (attempt : ℕ → Attempt) (x : Execution)
    : Type 0 where
  pub at_least_once : 1 ≤ x.attempt_count
  pub within : x.attempt_count ≤ maximum_attempts p
  pub rows_count : length x.rows ≡ x.attempt_count
  pub status_eq : x.status ≡ final_state (attempt_result limit (attempt x.attempt_count))
  pub over : IsOver p x.attempt_count (attempt_result limit (attempt x.attempt_count))

-- A job is attempted again only after a failure that the policy retries: every attempt of a run
-- before its last one has raised an exception that `should_retry` accepts.
pub run_retries :
    (p : RetryPolicy) (limit : ℕ) (c : BackgroundExecutionContext) (grant : Option ApprovalGrant)
    (attempt : ℕ → Attempt) (m : Monitor) (i : ℕ)
    → 1 ≤ i
    → i < (run p limit c grant attempt m).execution.attempt_count
    → (e : JobError) × (attempt_result limit (attempt i) ≡ err e) × (should_retry p e i ≡ true)
unfolding run
run_retries p limit c grant attempt m i h k = elim (Result-cases (require c grant)) [
  | inr (permission_denied q, e) ↦ absurd (ground arith)
  | inr (approval_required_error q, e) ↦ absurd (ground arith)
  | inl (d, e) ↦ attempts_from-retried p limit attempt p.extra_attempts 1 i h (ground arith)
]
