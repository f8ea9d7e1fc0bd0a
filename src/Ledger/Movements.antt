-- ===== src/Ledger/Movements.antt =====
-- The methods of `LedgerService` that read balances and move money: `balance`, `transfer_bucket`
-- and `reverse` of app/services/ledger.py.
use arima_executive_os.Common.{
  ℕ, ◌==◌, Bool, true, false, ◌&&◌, not, Option, none, some, List, [], ◌∷◌, map, String, str_eq, ℤ,
  pos, ◌+ℤ◌, ◌-ℤ◌, neg, leb_ℤ, ltb_ℤ, if◌then◌else◌, find_first, keep, is_empty, Result, ok, err,
}
use arima_executive_os.Ledger.Tables.{
  Status, posted, reversed, Direction, debit, credit, Bucket, available, reserved, customer,
  Account, text, Transaction, Entry, LedgerLine, Db, LedgerError, bad_amount, insufficient_balance,
  not_reversible, no_posted_entries, Request, Runtime,
}
use arima_executive_os.Ledger.Service.{account, post, same_bucket}

pub record BalanceSnapshot : Type 0 where
  pub authoritative_balance : ℤ
  pub available_balance : ℤ
  pub reserved_balance : ℤ
  pub pending_balance : ℤ

-- A credit counts for its amount, a debit against it.
unfoldable pub signed : Entry → ℤ
signed e = elim e.direction [ credit ↦ e.amount | debit ↦ neg e.amount ]

unfoldable pub sum_where : (Entry → Bool) → List Entry → ℤ
sum_where p [] = pos 0
sum_where p (e ∷ es) = let rest = sum_where p es in if p e then signed e +ℤ rest else rest

abbrev pub is_settled : Status → Bool
is_settled posted = true
is_settled reversed = true
is_settled _ = false

-- The join with the entry's transaction: only posted and reversed ones count.
unfoldable pub settled : List Transaction → ℕ → Bool
settled ts tid = elim (find_first (λ t. t.id == tid) ts) [
  | none ↦ false
  | some t ↦ is_settled t.status
]

abbrev pub on_account : Runtime → ℕ → String → Db → Entry → Bool
on_account rt account asset db e =
    e.account_id == account
    && str_eq e.asset (rt.upper asset)
    && settled db.transactions e.transaction_id

unfoldable pub balance : Runtime → ℕ → String → Db → BalanceSnapshot
balance rt account asset db =
    let here = on_account rt account asset db in
    let total = sum_where here db.entries in
    let held = sum_where (λ e. here e && same_bucket e.bucket reserved) db.entries in
    let waiting = sum_where (λ e. here e && same_bucket e.bucket Bucket.pending) db.entries in
    record {
      authoritative_balance = total;
      available_balance = total -ℤ held -ℤ waiting;
      reserved_balance = held;
      pending_balance = waiting;
    }

abbrev pub bucket_amount : Bucket → BalanceSnapshot → ℤ
bucket_amount available s = s.available_balance
bucket_amount reserved s = s.reserved_balance
bucket_amount Bucket.pending s = s.pending_balance

-- The arguments of `transfer_bucket`.
pub record Transfer : Type 0 where
  pub workspace_id : ℕ
  pub user_id : ℕ
  pub asset : String
  pub amount : ℤ
  pub source_bucket : Bucket
  pub target_bucket : Bucket
  pub transaction_type : String
  pub idempotency_key : String
  pub actor_id : Option ℕ
  pub reference : String

abbrev pub transfer_line : Transfer → ℕ → Direction → Bucket → LedgerLine
transfer_line x account direction bucket = record {
  account_id = account;
  asset = x.asset;
  direction = direction;
  bucket = bucket;
  amount = x.amount;
  memo = none;
}

abbrev pub transfer_request : Transfer → ℕ → Request
transfer_request x account = record {
  workspace_id = x.workspace_id;
  user_id = some x.user_id;
  actor_id = x.actor_id;
  transaction_type = x.transaction_type;
  idempotency_key = x.idempotency_key;
  source = "ledger";
  lines =
      transfer_line x account debit x.source_bucket
      ∷ transfer_line x account credit x.target_bucket
      ∷ [];
  reference = some x.reference;
  provenance = [];
  trade_id = none;
}

-- The part of `transfer_bucket` after the account is found: the balance check and the posting.
unfoldable pub transfer_from :
    Runtime → Option Db → Transfer → Account → Db → Result LedgerError Transaction × Db
transfer_from rt race x a db =
    if ltb_ℤ (bucket_amount x.source_bucket (balance rt a.id x.asset db)) x.amount
    then (err insufficient_balance, db)
    else post rt race (transfer_request x a.id) db

abbrev pub transfer_after :
    Runtime
    → Option Db
    → Transfer
    → Result LedgerError Account × Db
    → Result LedgerError Transaction × Db
transfer_after rt race x (err e, db) = (err e, db)
transfer_after rt race x (ok a, db) = transfer_from rt race x a db

-- The two races are those of the account's and of the transaction's insert.
unfoldable pub transfer_bucket :
    Runtime → Option Db → Option Db → Transfer → Db → Result LedgerError Transaction × Db
unfolding transfer_from
transfer_bucket rt race_account race_post x db =
    if leb_ℤ x.amount (pos 0)
    then (err bad_amount, db)
    else transfer_after rt race_post x
        (account rt race_account x.workspace_id (some x.user_id) x.asset customer db)

abbrev pub opposite : Direction → Direction
opposite debit = credit
opposite credit = debit

-- `str(uuid)` and the caller's texts are arguments: `show_id`, the key and the reason.
abbrev pub reversing_line : Entry → LedgerLine
reversing_line e = record {
  account_id = e.account_id;
  asset = e.asset;
  direction = opposite e.direction;
  bucket = e.bucket;
  amount = e.amount;
  memo = some "reversal";
}

abbrev pub entries_of : ℕ → Db → List Entry
entries_of tid db = keep (λ e. e.transaction_id == tid) db.entries

abbrev pub find_by_id : ℕ → Db → Option Transaction
find_by_id tid db = find_first (λ t. t.id == tid) db.transactions

abbrev pub reversal_request :
    (ℕ → String) → Transaction → List Entry → ℕ → String → String → Option ℕ → Request
reversal_request show_id t es actor key reason trade = record {
  workspace_id = t.workspace_id;
  user_id = t.user_id;
  actor_id = some actor;
  transaction_type = "reversal";
  idempotency_key = key;
  source = "ledger";
  lines = map reversing_line es;
  reference = some (show_id t.id);
  provenance = ("reverses", text (show_id t.id)) ∷ ("reason", text reason) ∷ [];
  trade_id = trade;
}

-- `transaction.status = REVERSED` on the row of that identifier.
unfoldable pub mark_reversed : ℕ → List Transaction → List Transaction
mark_reversed tid [] = []
mark_reversed tid (t ∷ ts) =
    let rest = mark_reversed tid ts in
    if t.id == tid then record t { status = reversed } ∷ rest else t ∷ rest

abbrev pub is_posted : Status → Bool
is_posted posted = true
is_posted _ = false

-- The new posting, and on success the mark on the reversed transaction.
abbrev pub mark_after :
    ℕ → Result LedgerError Transaction × Db → Result LedgerError Transaction × Db
mark_after tid (err x, db) = (err x, db)
mark_after tid (ok u, db) = (ok u, record db { transactions = mark_reversed tid db.transactions })

unfoldable pub reverse :
    Runtime
    → (ℕ → String)
    → Option Db
    → ℕ
    → ℕ
    → String
    → String
    → Option ℕ
    → Db
    → Result LedgerError Transaction × Db
reverse rt show_id race tid actor key reason trade db = elim (find_by_id tid db) [
  | none ↦ (err not_reversible, db)
  | some t ↦
      if not (is_posted t.status)
      then (err not_reversible, db)
      else if is_empty (entries_of tid db)
      then (err no_posted_entries, db)
      else mark_after tid
          (post rt race (reversal_request show_id t (entries_of tid db) actor key reason trade) db)
]
