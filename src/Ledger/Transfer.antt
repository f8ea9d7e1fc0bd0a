-- ===== src/Ledger/Transfer.antt =====
-- `transfer_bucket` of app/services/ledger.py: the buckets of the account before and after it.
use arima_executive_os.Common.{Bool, ℤ, pos, ◌+ℤ◌, ◌-ℤ◌, neg, if◌then◌else◌}
use arima_executive_os.Ledger.Tables.{Bucket, reserved}
use arima_executive_os.Ledger.Service.{same_bucket}
use arima_executive_os.Ledger.Movements.{BalanceSnapshot}
use arima_executive_os.Ledger.Balances.{grown}

-- What bucket `b` holds after `x` has moved from bucket `s` to bucket `t`.
abbrev pub shift : Bucket → Bucket → ℤ → Bucket → ℤ → ℤ
shift s t x b y =
    let left = if same_bucket s b then y -ℤ x else y in if same_bucket t b then left +ℤ x else left

abbrev part : Bool → ℤ → ℤ
part b x = if b then x else pos 0

abbrev pub snapshot : ℤ → ℤ → ℤ → BalanceSnapshot
snapshot total held waiting = record {
  authoritative_balance = total;
  available_balance = total -ℤ held -ℤ waiting;
  reserved_balance = held;
  pending_balance = waiting;
}

-- The sums of `grown` for the rows of a transfer, bucket by bucket.
abbrev moved : Bucket → Bucket → ℤ → BalanceSnapshot → BalanceSnapshot
moved s t x =
    grown (neg x +ℤ x) (part (same_bucket s reserved) (neg x) +ℤ part (same_bucket t reserved) x)
      (part (same_bucket s Bucket.pending) (neg x) +ℤ part (same_bucket t Bucket.pending) x)
