-- ===== src/Ledger/Tables.antt =====
-- The tables of app/database/models/financial.py that app/services/ledger.py reads and writes:
-- accounts, transactions with their entries, and the audit trail. Identifiers are numbers, and a
-- new row takes the next one; a `Decimal` is an integer number of quanta of 10⁻¹⁸
-- (`ASSET_QUANTUM`). `Runtime` holds what the standard library and the clock provide: `str.upper`,
-- the SHA-256 digest of a canonical JSON payload, and the time of the call.
use arima_executive_os.Common.{
  ℕ, Option, none, some, List, [], ◌∷◌, String, str_eq, ℤ, if◌then◌else◌,
}

pub data Status : Type 0 where
  pending posted failed reversed cancelled : Status

pub data Direction : Type 0 where
  debit credit : Direction

pub data Bucket : Type 0 where
  available reserved pending : Bucket

pub data AccountKind : Type 0 where
  customer clearing : AccountKind

pub record Account : Type 0 where
  pub id : ℕ
  pub workspace_id : ℕ
  pub user_id : Option ℕ
  pub asset : String
  pub kind : AccountKind

-- A value of the JSON column `provenance`: a text, or a nested object of texts.
pub data Value : Type 0 where
  text : String → Value
  fields : List (String × String) → Value

abbrev pub Provenance : Type 0
Provenance = List (String × Value)

-- `provenance.get(key)`
abbrev pub get : String → Provenance → Option Value
get k [] = none
get k ((j, v) ∷ p) = if str_eq j k then some v else get k p

-- `{**provenance, key: value}`
abbrev pub put : String → Value → Provenance → Provenance
put k v [] = (k, v) ∷ []
put k v ((j, w) ∷ p) = if str_eq j k then (j, v) ∷ p else (j, w) ∷ put k v p

pub record Transaction : Type 0 where
  pub id : ℕ
  pub workspace_id : ℕ
  pub user_id : Option ℕ
  pub actor_id : Option ℕ
  pub reference : Option String
  pub transaction_type : String
  pub status : Status
  pub idempotency_key : String
  pub source : String
  pub trade_id : Option ℕ
  pub provenance : Provenance
  pub posted_at : ℕ

pub record Entry : Type 0 where
  pub transaction_id : ℕ
  pub account_id : ℕ
  pub asset : String
  pub direction : Direction
  pub bucket : Bucket
  pub amount : ℤ
  pub memo : Option String

pub record LedgerLine : Type 0 where
  pub account_id : ℕ
  pub asset : String
  pub direction : Direction
  pub bucket : Bucket
  pub amount : ℤ
  pub memo : Option String

-- One row of the audit trail: who, which event, on which row.
pub record Audit : Type 0 where
  pub actor_id : ℕ
  pub event_type : String
  pub entity_id : ℕ

pub record Db : Type 0 where
  pub accounts : List Account
  pub transactions : List Transaction
  pub entries : List Entry
  pub audits : List Audit
  pub next_id : ℕ

pub data LedgerError : Type 0 where
  no_entries legacy_transaction key_conflict invalid_entries imbalance no_audit_actor : LedgerError
  unsafe_post unsafe_account bad_amount insufficient_balance : LedgerError
  not_reversible no_posted_entries : LedgerError

-- The arguments of `post`.
pub record Request : Type 0 where
  pub workspace_id : ℕ
  pub user_id : Option ℕ
  pub actor_id : Option ℕ
  pub transaction_type : String
  pub idempotency_key : String
  pub source : String
  pub lines : List LedgerLine
  pub reference : Option String
  pub provenance : Provenance
  pub trade_id : Option ℕ

-- What `ledger_request_fingerprint` digests.
pub record Payload : Type 0 where
  pub workspace_id : ℕ
  pub user_id : Option ℕ
  pub actor_id : Option ℕ
  pub transaction_type : String
  pub source : String
  pub reference : Option String
  pub trade_id : Option ℕ
  pub lines : List LedgerLine

pub record Runtime : Type 0 where
  pub upper : String → String
  pub digest : Payload → String
  pub now : ℕ
