-- ===== src/Withdrawal/Retry.antt =====
-- `WithdrawalService.create` and `authorize_request_access` of app/services/operations.py: the
-- creation, tried again where the database driver raises an error that can be retried.
use arima_executive_os.Common.{
  ℕ, suc, zero, ◌+◌, ◌≡◌, ◌∙◌, ◌≤◌, List, [], ◌∷◌, find_first, refl, ◌⊎◌, ◌==◌, Bool, true, false,
  ◌&&◌, not, Option, none, some, inl, inr, Option-cases, arith, if◌then◌else◌, Result, ok, err,
}
use arima_executive_os.Ledger.Tables.{Runtime}
use arima_executive_os.Identity.{User, Directory, has_founder_control_access, find_user, resolve}
use arima_executive_os.Withdrawal.Tables.{
  WithdrawalRequest, Store, OperationsError, not_authorized, account_unavailable, database_error,
  WithdrawalData,
}
use arima_executive_os.Withdrawal.Service.{Texts}
use arima_executive_os.Withdrawal.Create.{Environment, create_once}

-- One attempt: what the code takes from elsewhere, or the driver's error, `some true` if
-- `is_retryable_postgres_error` says that it can be retried.
pub record Attempt : Type 0 where
  pub environment : Environment
  pub driver_error : Option Bool

-- `create` with `left` retries left, at the attempt `n`, counted from 0.
unfoldable pub create_from :
    Runtime
    → Texts
    → (ℕ → Attempt)
    → WithdrawalData
    → ℕ
    → ℕ
    → User
    → Store
    → Result OperationsError WithdrawalRequest × Store
create_from rt texts attempts x zero n user s = elim (attempts n).driver_error [
  | none ↦ create_once rt texts (attempts n).environment x user s
  | some _ ↦ (err database_error, s)
]
create_from rt texts attempts x (suc left) n user s = elim (attempts n).driver_error [
  | none ↦ create_once rt texts (attempts n).environment x user s
  | some retryable ↦
      if not retryable then (err database_error, s) else elim (find_user user.id s.directory) [
        | none ↦ (err account_unavailable, s)
        | some found ↦ create_from rt texts attempts x left (n + 1) found s
      ]
]

-- `_retry_attempt >= 2` ends the retries.
abbrev pub create :
    Runtime
    → Texts
    → (ℕ → Attempt)
    → WithdrawalData
    → User
    → Store
    → Result OperationsError WithdrawalRequest × Store
create rt texts attempts x user s = create_from rt texts attempts x 2 0 user s

unfoldable pub authorize_request_access :
    Directory → WithdrawalRequest → User → Result OperationsError (Unit {0})
authorize_request_access d r actor =
    if not (r.user_id == actor.id) && not (has_founder_control_access d actor)
    then err not_authorized
    else elim (resolve d actor r.workspace_id r.user_id none) [
      | err _ ↦ err not_authorized
      | ok _ ↦ ok tt
    ]

-- The attempt whose result is returned.
pub record IsTried (rt : Runtime) (texts : Texts) (attempts : ℕ → Attempt) (x : WithdrawalData)
    (user : User) (s : Store) (p : Result OperationsError WithdrawalRequest × Store) : Type 0 where
  pub attempt : ℕ
  pub within : attempt ≤ 2
  pub as_user : User
  pub same_user : as_user.id ≡ user.id
  pub no_error : (attempts attempt).driver_error ≡ none
  pub result : p ≡ create_once rt texts (attempts attempt).environment x as_user s

find-user_id : (id : ℕ) (d : Directory) (u : User) → find_user id d ≡ some u → u.id ≡ id
find-user_id id d u h = go d.users h
  where
    go : (us : List User) → find_first (λ v. v.id == id) us ≡ some u → u.id ≡ id
    go [] e = absurd (ground arith)
    go (v ∷ vs) e = ground (arith, go vs)

create_from-IsTried :
    (rt : Runtime) (texts : Texts) (attempts : ℕ → Attempt) (x : WithdrawalData) (left n : ℕ)
    (user : User) (s : Store)
    → left + n ≡ 2
    → IsTried rt texts attempts x user s (create_from rt texts attempts x left n user s)
      ⊎ ((e : OperationsError) × (create_from rt texts attempts x left n user s ≡ (err e, s)))
unfolding create_from
create_from-IsTried rt texts attempts x zero n user s h =
    elim (Option-cases (attempts n).driver_error) [
      | inl e ↦ inl (record {
        attempt = n;
        within = omega arith;
        as_user = user;
        same_user = refl;
        no_error = e;
        result = rw (e, create_from) refl;
      })
      | inr (b, e) ↦ inr (database_error, rw (e, create_from) refl)
    ]
create_from-IsTried rt texts attempts x (suc left) n user s h =
    elim (Option-cases (attempts n).driver_error) [
      | inl e ↦ inl (record {
        attempt = n;
        within = omega arith;
        as_user = user;
        same_user = refl;
        no_error = e;
        result = rw (e, create_from) refl;
      })
      | inr (false, e) ↦ inr (database_error, rw (e, create_from) refl)
      | inr (true, e) ↦ elim (Option-cases (find_user user.id s.directory)) [
        | inl f ↦ inr (account_unavailable, rw (e, f, create_from) refl)
        | inr (found, f) ↦
            let same : found.id ≡ user.id = find-user_id user.id s.directory found f in
            elim (create_from-IsTried rt texts attempts x left (n + 1) found s (omega arith)) [
              | inr (g, r) ↦ inr (g, rw (e, f, create_from) r)
              | inl t ↦ inl (record {
                attempt = t.attempt;
                within = t.within;
                as_user = t.as_user;
                same_user = t.same_user ∙ same;
                no_error = t.no_error;
                result = rw (e, f, create_from) t.result;
              })
            ]
      ]
    ]

-- Whatever errors the driver raises, `create` returns after at most three attempts, either the
-- result of one creation for the same user on the store as it was at first, or an error with that
-- store unchanged.
pub create-IsTried :
    (rt : Runtime) (texts : Texts) (attempts : ℕ → Attempt) (x : WithdrawalData) (user : User)
    (s : Store)
    → IsTried rt texts attempts x user s (create rt texts attempts x user s)
      ⊎ ((e : OperationsError) × (create rt texts attempts x user s ≡ (err e, s)))
create-IsTried rt texts attempts x user s = create_from-IsTried rt texts attempts x 2 0 user s refl
