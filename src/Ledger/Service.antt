-- ===== src/Ledger/Service.antt =====
-- `LedgerService` of app/services/ledger.py. A method takes the database and returns its result or
-- exception with the database that it leaves. A `race` argument is the database that another
-- session has committed when the insert of a row fails with an `IntegrityError`; `none` is an
-- insert that goes through.
use arima_executive_os.Common.{
  ℕ, ◌+◌, ◌==◌, opt_eq, Bool, true, false, ◌&&◌, ◌||◌, not, Option, none, some, List, [], ◌∷◌, ◌++◌,
  map, String, str_eq, ℤ, pos, ◌+ℤ◌, leb_ℤ, eqb_ℤ, if◌then◌else◌, find_first, is_empty, any_of,
  all_of, Result, ok, err,
}
use arima_executive_os.Decimals.{in_context}
use arima_executive_os.Ledger.Tables.{
  posted, Direction, debit, credit, Bucket, available, reserved, AccountKind, customer, clearing,
  Account, Value, text, fields, get, put, Transaction, Entry, LedgerLine, Db, LedgerError,
  no_entries, legacy_transaction, key_conflict, invalid_entries, imbalance, no_audit_actor,
  unsafe_post, unsafe_account, Request, Runtime,
}

abbrev pub same_direction : Direction → Direction → Bool
same_direction debit debit = true
same_direction credit credit = true
same_direction debit credit = false
same_direction credit debit = false

abbrev pub same_bucket : Bucket → Bucket → Bool
same_bucket available available = true
same_bucket reserved reserved = true
same_bucket Bucket.pending Bucket.pending = true
same_bucket _ _ = false

abbrev pub same_kind : AccountKind → AccountKind → Bool
same_kind customer customer = true
same_kind clearing clearing = true
same_kind customer clearing = false
same_kind clearing customer = false

-- The rows that `account` selects: a customer account by its owner, a clearing account by no owner.
abbrev pub account_matches : ℕ → Option ℕ → String → AccountKind → Account → Bool
account_matches ws user asset kind a =
    a.workspace_id == ws
    && str_eq a.asset asset
    && same_kind a.kind kind
    && opt_eq a.user_id (elim kind [ customer ↦ user | clearing ↦ none ])

abbrev pub find_account : ℕ → Option ℕ → String → AccountKind → Db → Option Account
find_account ws user asset kind db = find_first (account_matches ws user asset kind) db.accounts

abbrev pub add_account : ℕ → Option ℕ → String → AccountKind → Db → Account × Db
add_account ws user asset kind db =
    let a : Account = record {
      id = db.next_id;
      workspace_id = ws;
      user_id = user;
      asset = asset;
      kind = kind;
    } in
    (a, record db { accounts = a ∷ db.accounts; next_id = db.next_id + 1 })

-- The account is missing: it is created, unless another session has just done so.
unfoldable pub account_missing :
    Runtime → Option Db → ℕ → Option ℕ → String → AccountKind → Db → Result LedgerError Account × Db
account_missing rt none ws user asset kind db =
    let (a, db') = add_account ws user (rt.upper asset) kind db in (ok a, db')
account_missing rt (some db') ws user asset kind db =
    elim (find_account ws user (rt.upper asset) kind db') [
      | some a ↦ (ok a, db')
      | none ↦ (err unsafe_account, db')
    ]

unfoldable pub account :
    Runtime → Option Db → ℕ → Option ℕ → String → AccountKind → Db → Result LedgerError Account × Db
unfolding account_missing
account rt race ws user asset kind db = elim (find_account ws user (rt.upper asset) kind db) [
  | some a ↦ (ok a, db)
  | none ↦ account_missing rt race ws user asset kind db
]

-- It runs inside the caller's transaction, where no other session's rows appear.
unfoldable pub account_in_transaction :
    Runtime → ℕ → Option ℕ → String → AccountKind → Db → Account × Db
account_in_transaction rt ws user asset kind db =
    elim (find_account ws user (rt.upper asset) kind db) [
      | some a ↦ (a, db)
      | none ↦ add_account ws user (rt.upper asset) kind db
    ]

abbrev pub upper_line : Runtime → LedgerLine → LedgerLine
upper_line rt l = record l { asset = rt.upper l.asset }

unfoldable pub ledger_request_fingerprint : Runtime → Request → String
ledger_request_fingerprint rt r = rt.digest (record {
  workspace_id = r.workspace_id;
  user_id = r.user_id;
  actor_id = r.actor_id;
  transaction_type = r.transaction_type;
  source = r.source;
  reference = r.reference;
  trade_id = r.trade_id;
  lines = map (upper_line rt) r.lines;
})

abbrev pub has_key : ℕ → String → Transaction → Bool
has_key ws key t = t.workspace_id == ws && str_eq t.idempotency_key key

abbrev pub find_transaction : ℕ → String → Db → Option Transaction
find_transaction ws key db = find_first (has_key ws key) db.transactions

abbrev pub value_eq : Value → String → Bool
value_eq (text s) t = str_eq s t
value_eq (fields _) t = false

-- An existing transaction answers a request only if it stores the request's fingerprint.
abbrev pub check_replay : String → Transaction → Result LedgerError Transaction
check_replay fp t = elim (get "_idempotency_fingerprint" t.provenance) [
  | none ↦ err legacy_transaction
  | some v ↦ if value_eq v fp then ok t else err key_conflict
]

-- `len({line.asset.upper() for line in lines}) == 1`
unfoldable pub one_asset : Runtime → List LedgerLine → Bool
one_asset rt [] = false
one_asset rt (l ∷ ls) = all_of (λ m. str_eq (rt.upper m.asset) (rt.upper l.asset)) ls

-- `sum(…, Decimal("0"))` over the lines of one direction, from a running total.
unfoldable pub add_lines : Direction → ℤ → List LedgerLine → ℤ
add_lines d total [] = total
add_lines d total (l ∷ ls) =
    add_lines d (if same_direction l.direction d then in_context (total +ℤ l.amount) else total) ls

unfoldable pub direction_total : Direction → List LedgerLine → ℤ
unfolding add_lines
direction_total d ls = add_lines d (pos 0) ls

abbrev pub entry_of : Runtime → ℕ → LedgerLine → Entry
entry_of rt tid l = record {
  transaction_id = tid;
  account_id = l.account_id;
  asset = rt.upper l.asset;
  direction = l.direction;
  bucket = l.bucket;
  amount = l.amount;
  memo = l.memo;
}

abbrev pub new_transaction : Runtime → Request → String → ℕ → Transaction
new_transaction rt r fp tid = record {
  id = tid;
  workspace_id = r.workspace_id;
  user_id = r.user_id;
  actor_id = r.actor_id;
  reference = r.reference;
  transaction_type = r.transaction_type;
  status = posted;
  idempotency_key = r.idempotency_key;
  source = r.source;
  trade_id = r.trade_id;
  provenance = put "_idempotency_fingerprint" (text fp) r.provenance;
  posted_at = rt.now;
}

-- `actor_id or user_id`
abbrev pub audit_actor : Request → Option ℕ
audit_actor r = elim r.actor_id [ some a ↦ some a | none ↦ r.user_id ]

-- The rows that a posting adds: the transaction, its entries and the audit row.
abbrev pub inserted : Runtime → Request → String → ℕ → Db → Db
inserted rt r fp actor db = record {
  accounts = db.accounts;
  transactions = new_transaction rt r fp db.next_id ∷ db.transactions;
  entries = map (entry_of rt db.next_id) r.lines ++ db.entries;
  audits =
      record { actor_id = actor; event_type = "LEDGER_TRANSACTION_POSTED"; entity_id = db.next_id }
      ∷ db.audits;
  next_id = db.next_id + 1;
}

-- The savepoint: a lost race is answered from the other session's row, and a missing audit actor
-- rolls the new rows back.
unfoldable pub insert_rows :
    Runtime → Option Db → Request → String → Db → Result LedgerError Transaction × Db
insert_rows rt none r fp db = elim (audit_actor r) [
  | none ↦ (err no_audit_actor, db)
  | some actor ↦ (ok (new_transaction rt r fp db.next_id), inserted rt r fp actor db)
]
insert_rows rt (some db') r fp db = elim (find_transaction r.workspace_id r.idempotency_key db') [
  | some t ↦ (check_replay fp t, db')
  | none ↦ (err unsafe_post, db')
]

unfoldable pub post_new :
    Runtime → Option Db → Request → String → Db → Result LedgerError Transaction × Db
unfolding one_asset direction_total
post_new rt race r fp db =
    if not (one_asset rt r.lines) || any_of (λ l. leb_ℤ l.amount (pos 0)) r.lines
    then (err invalid_entries, db)
    else if not (eqb_ℤ (direction_total debit r.lines) (direction_total credit r.lines))
    then (err imbalance, db)
    else insert_rows rt race r fp db

unfoldable pub post : Runtime → Option Db → Request → Db → Result LedgerError Transaction × Db
post rt race r db =
    let fp = ledger_request_fingerprint rt r in
    if is_empty r.lines
    then (err no_entries, db)
    else elim (find_transaction r.workspace_id r.idempotency_key db) [
      | some t ↦ (check_replay fp t, db)
      | none ↦ post_new rt race r fp db
    ]
