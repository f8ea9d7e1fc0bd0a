-- ===== src/Ledger/Tests.antt =====
-- Runs of the ledger on a small database: a customer with 100 dollars out of the clearing account.
use arima_executive_os.Common.{
  ℕ, ◌≡◌, refl, ap, sym, Bool, none, some, [], ◌∷◌, ◌==◌, String, pos, ◌+ℤ◌, ◌-ℤ◌, neg, arith, ok,
  err,
}
use arima_executive_os.Ledger.Sums.{exact_total}
use arima_executive_os.Ledger.Tables.{
  Direction, debit, credit, Bucket, available, reserved, customer, clearing, Status, Transaction,
  LedgerLine, Db, Request, Runtime, not_reversible, insufficient_balance,
}
use arima_executive_os.Decimals.{round_half_even, digits, significant, in_context}
use arima_executive_os.Ledger.Service.{
  inserted, post, account, insert_rows, post_new, one_asset, direction_total, add_lines,
  ledger_request_fingerprint, new_transaction,
}
use arima_executive_os.Ledger.Movements.{
  sum_where, signed, settled, balance, Transfer, transfer_request, transfer_bucket, mark_reversed,
  reverse, reversal_request, entries_of,
}
use arima_executive_os.Ledger.Conservation.{
  IsBalanced, post-IsBalanced, transfer_bucket-IsBalanced, reverse-IsBalanced,
}
use arima_executive_os.Ledger.Idempotency.{post-replay}
use arima_executive_os.Ledger.Reversal.{chosen, reverse-cancels, reverse-again}

abbrev pub runtime : Runtime
runtime = record { upper = λ s. s; digest = λ p. p.transaction_type; now = 1000 }

abbrev line : ℕ → Direction → ℕ → LedgerLine
line account direction amount = record {
  account_id = account;
  asset = "USD";
  direction = direction;
  bucket = available;
  amount = pos amount;
  memo = none;
}

abbrev deposit_request : Request
deposit_request = record {
  workspace_id = 7;
  user_id = some 5;
  actor_id = some 9;
  transaction_type = "deposit";
  idempotency_key = "key-1";
  source = "founder_manual_deposit";
  lines = line 2 debit 100 ∷ line 1 credit 100 ∷ [];
  reference = none;
  provenance = [];
  trade_id = none;
}

abbrev accounts_only : Db
accounts_only = record {
  accounts =
      record { id = 1; workspace_id = 7; user_id = some 5; asset = "USD"; kind = customer }
      ∷ record { id = 2; workspace_id = 7; user_id = none; asset = "USD"; kind = clearing }
      ∷ [];
  transactions = [];
  entries = [];
  audits = [];
  next_id = 10;
}

abbrev deposit_transaction : Transaction
deposit_transaction = new_transaction runtime deposit_request "deposit" 10

abbrev pub funded : Db
funded = inserted runtime deposit_request "deposit" 9 accounts_only

accounts_only-IsBalanced : IsBalanced accounts_only
unfolding sum_where
accounts_only-IsBalanced = record { by_transaction = λ t. refl; by_asset = λ a. refl }

post-IsBalanced_example : IsBalanced (post runtime none deposit_request accounts_only).1
unfolding exact_total ◌+ℤ◌
post-IsBalanced_example =
    post-IsBalanced runtime none deposit_request accounts_only (omega arith) (omega arith) tt
      accounts_only-IsBalanced

deposited : post runtime none deposit_request accounts_only ≡ (ok deposit_transaction, funded)
unfolding post post_new insert_rows one_asset direction_total add_lines in_context significant
    digits round_half_even ledger_request_fingerprint ◌+ℤ◌
deposited = refl

post-replay_example : post runtime none deposit_request funded ≡ (ok deposit_transaction, funded)
unfolding ledger_request_fingerprint
post-replay_example =
    post-replay runtime none deposit_request deposit_request accounts_only deposit_transaction
      funded refl deposited refl refl refl

abbrev reservation : Transfer
reservation = record {
  workspace_id = 7;
  user_id = 5;
  asset = "USD";
  amount = pos 30;
  source_bucket = available;
  target_bucket = reserved;
  transaction_type = "withdrawal_reservation";
  idempotency_key = "withdrawal-reservation:1";
  actor_id = some 5;
  reference = "1";
}

abbrev after_reservation : Db
after_reservation =
    inserted runtime (transfer_request reservation 1) "withdrawal_reservation" 5 funded

abbrev reservation_transaction : Transaction
reservation_transaction =
    new_transaction runtime (transfer_request reservation 1) "withdrawal_reservation" 11

pub funded-IsBalanced : IsBalanced funded
funded-IsBalanced = rw (ap (λ p. p.1) (sym deposited)) post-IsBalanced_example

transfer_bucket-IsBalanced_example :
    IsBalanced (transfer_bucket runtime none none reservation funded).1
transfer_bucket-IsBalanced_example =
    transfer_bucket-IsBalanced runtime none none reservation funded tt tt funded-IsBalanced

reserve_too_much :
    (transfer_bucket runtime none none (record reservation { amount = pos 101 }) funded).0
    ≡ err insufficient_balance
unfolding transfer_bucket account balance sum_where signed settled neg ◌+ℤ◌ ◌-ℤ◌
reserve_too_much = refl

abbrev show_id : ℕ → String
show_id n = "id"

abbrev reversal_transaction : Transaction
reversal_transaction =
    new_transaction runtime
      (reversal_request show_id deposit_transaction funded.entries 9 "reverse-1" "mistake" none)
      "reversal" 11

abbrev after_reversal : Db
after_reversal =
    record (inserted runtime
      (reversal_request show_id deposit_transaction funded.entries 9 "reverse-1" "mistake" none)
      "reversal" 9 funded) {
        transactions =
            reversal_transaction ∷ record deposit_transaction { status = Status.reversed } ∷ [];
      }

reversed_deposit :
    reverse runtime show_id none 10 9 "reverse-1" "mistake" none funded
    ≡ (ok reversal_transaction, after_reversal)
unfolding reverse post post_new insert_rows one_asset direction_total add_lines in_context
    significant digits round_half_even ledger_request_fingerprint mark_reversed ◌+ℤ◌
reversed_deposit = refl

reverse-IsBalanced_example :
    IsBalanced (reverse runtime show_id none 10 9 "reverse-1" "mistake" none funded).1
reverse-IsBalanced_example =
    reverse-IsBalanced runtime show_id none 10 9 "reverse-1" "mistake" none funded tt
      funded-IsBalanced

-- The customer's dollars.
abbrev customer_dollars : ℕ → String → Bucket → Bool
customer_dollars account asset bucket = account == 1

reverse-cancels_example :
    sum_where (chosen customer_dollars) after_reversal.entries
    ≡ sum_where (chosen customer_dollars) funded.entries
      -ℤ sum_where (chosen customer_dollars) (entries_of 10 funded)
reverse-cancels_example =
    reverse-cancels runtime show_id 10 9 "reverse-1" "mistake" none funded deposit_transaction
      reversal_transaction after_reversal customer_dollars refl refl (refl, (refl, tt))
      reversed_deposit

reverse-again_example :
    reverse runtime show_id none 10 9 "reverse-2" "again" none after_reversal
    ≡ (err not_reversible, after_reversal)
reverse-again_example =
    reverse-again runtime show_id none none 10 9 9 "reverse-1" "reverse-2" "mistake" "again" none
      none funded reversal_transaction after_reversal reversed_deposit
