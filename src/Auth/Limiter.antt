-- ===== src/Auth/Limiter.antt =====
-- `SecurityRateLimiter.enforce` of app/auth/security.py over `RateLimitRepository.increment` of
-- app/database/repositories/security.py. Times are whole seconds; `cut` is `key[:255]`. A `race` is
-- the table that another session has committed when the insert of a bucket fails.
use arima_executive_os.Common.{
  ℕ, ◌+◌, ◌-◌, ◌*◌, ◌/◌, max, ◌==◌, ltb, Bool, ◌&&◌, Option, none, some, List, [], ◌∷◌, String,
  str_eq, if◌then◌else◌, find_first, keep, length, Result, ok, err,
}

pub record Slot : Type 0 where
  pub scope : String
  pub key : String
  pub window_started_at : ℕ

pub record RateLimitBucket : Type 0 where
  pub slot : Slot
  pub count : ℕ

pub data LimitError : Type 0 where
  unsafe_insert : LimitError
  rate_limited : ℕ → LimitError

abbrev pub same_slot : Slot → Slot → Bool
same_slot a b =
    str_eq a.scope b.scope && str_eq a.key b.key && a.window_started_at == b.window_started_at

abbrev pub find_bucket : Slot → List RateLimitBucket → Option RateLimitBucket
find_bucket slot bs = find_first (λ b. same_slot b.slot slot) bs

-- `bucket.count += 1` on the bucket that was found.
unfoldable pub bump : Slot → List RateLimitBucket → List RateLimitBucket
bump slot [] = []
bump slot (b ∷ bs) =
    let rest = bump slot bs in
    if same_slot b.slot slot then record b { count = b.count + 1 } ∷ bs else b ∷ rest

abbrev pub insert_bucket :
    Option (List RateLimitBucket)
    → Slot
    → List RateLimitBucket
    → Result LimitError ℕ × List RateLimitBucket
insert_bucket none slot bs = (ok 1, record { slot = slot; count = 1 } ∷ bs)
insert_bucket (some others) slot bs = elim (find_bucket slot others) [
  | none ↦ (err unsafe_insert, others)
  | some b ↦ (ok (b.count + 1), bump slot others)
]

unfoldable pub increment :
    Option (List RateLimitBucket)
    → Slot
    → List RateLimitBucket
    → Result LimitError ℕ × List RateLimitBucket
increment race slot bs = elim (find_bucket slot bs) [
  | some b ↦ (ok (b.count + 1), bump slot bs)
  | none ↦ insert_bucket race slot bs
]

pub record LimitRequest : Type 0 where
  pub scope : String
  pub key : String
  pub limit : ℕ
  pub window : ℕ
  pub now : ℕ

abbrev pub window_seconds : LimitRequest → ℕ
window_seconds r = max 1 r.window

abbrev pub rounded : LimitRequest → ℕ
rounded r = r.now / window_seconds r * window_seconds r

abbrev pub slot_of : (String → String) → LimitRequest → Slot
slot_of cut r = record { scope = r.scope; key = cut r.key; window_started_at = rounded r }

abbrev pub retry_after : LimitRequest → ℕ
retry_after r = max 1 (window_seconds r - (r.now - rounded r))

abbrev pub judged : LimitRequest → Result LimitError ℕ → Result LimitError (Unit {0})
judged r (err e) = err e
judged r (ok count) = if ltb r.limit count then err (rate_limited (retry_after r)) else ok tt

unfoldable pub enforce :
    (String → String)
    → Option (List RateLimitBucket)
    → LimitRequest
    → List RateLimitBucket
    → Result LimitError (Unit {0}) × List RateLimitBucket
enforce cut race r bs =
    let (count, bs') = increment race (slot_of cut r) bs in (judged r count, bs')

-- The table after a history of calls, the oldest first.
unfoldable pub run_requests :
    (String → String) → List LimitRequest → List RateLimitBucket → List RateLimitBucket
run_requests cut [] bs = bs
run_requests cut (r ∷ rs) bs = run_requests cut rs (enforce cut none r bs).1

-- How many calls of a history fall into a slot.
abbrev pub calls_in : (String → String) → Slot → List LimitRequest → ℕ
calls_in cut slot rs = length (keep (λ r. same_slot (slot_of cut r) slot) rs)
