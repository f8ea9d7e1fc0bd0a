-- ===== src/Deposit/Tests.antt =====
-- A deposit for a customer with no rows yet: `record` of app/services/deposit_accounting.py on
-- concrete rows.
use arima_executive_os.Common.{◌≡◌, refl, none, [], String, pos, err, ◌+ℤ◌}
use arima_executive_os.Identity.{resolve, resolve_members, has_founder_control_access}
use arima_executive_os.Identity.Tests.{founder, directory}
use arima_executive_os.Decimals.{round_half_even, digits, significant, in_context}
use arima_executive_os.Withdrawal.Workspaces.{workspace_rows}
use arima_executive_os.Ledger.Tables.{Db}
use arima_executive_os.Ledger.Service.{
  account_in_transaction, post, post_new, insert_rows, one_asset, direction_total, add_lines,
  ledger_request_fingerprint,
}
use arima_executive_os.Accounting.Decimals.{quantize_amount}
use arima_executive_os.Accounting.Service.{find_target, normalize_asset}
use arima_executive_os.Accounting.Tests.{platform}
use arima_executive_os.Deposit.Service.{
  DepositCreate, DepositPayload, DepositResult, deposit_terms, deposit_new, deposit_checked,
  record_deposit, key_conflict, read_existing,
}

abbrev digest : DepositPayload → String
digest p = p.reason

abbrev empty : Db
empty = record { accounts = []; transactions = []; entries = []; audits = []; next_id = 10 }

abbrev wire : DepositCreate
wire = record {
  asset = "USD";
  amount = pos 500;
  reference = "wire-7";
  reason = "first deposit";
  idempotency_key = "deposit-00000001";
}

abbrev answer : DepositResult
answer = record {
  id = 12;
  workspace_id = 7;
  target_user_id = 5;
  founder_actor_id = 9;
  asset = "USD";
  amount = pos 500;
  reference = "wire-7";
  reason = "first deposit";
  idempotency_key = "deposit-00000001";
  financial_transaction_id = 12;
  financial_account_id = 10;
}

abbrev after_wire : Db
after_wire = (record_deposit platform digest none directory founder 5 wire empty).1

other_reason :
    (record_deposit platform digest none directory founder 5
      (record wire { reason = "again" })
      after_wire).0
    ≡ err key_conflict
unfolding record_deposit deposit_terms find_target workspace_rows resolve resolve_members
    has_founder_control_access normalize_asset quantize_amount round_half_even deposit_checked
    deposit_new account_in_transaction post post_new insert_rows one_asset direction_total add_lines
    in_context significant digits ledger_request_fingerprint ◌+ℤ◌ read_existing
other_reason = refl
