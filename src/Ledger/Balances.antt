-- ===== src/Ledger/Balances.antt =====
-- How a posting changes the balances that `balance` reads.
use arima_executive_os.Common.{
  ℕ, ◌<◌, ◌≡◌, refl, ap, ◌∙◌, Bool, ◌&&◌, List, [], ◌∷◌, map, String, ℤ, ◌+ℤ◌, ◌-ℤ◌, All, arith,
}
use arima_executive_os.Ledger.Tables.{Bucket, reserved, Transaction, Entry, Db, Request, Runtime}
use arima_executive_os.Ledger.Service.{entry_of, inserted, new_transaction, same_bucket}
use arima_executive_os.Ledger.Movements.{sum_where, settled, on_account, balance, BalanceSnapshot}
use arima_executive_os.Ledger.Sums.{sum_where-append, sum_where-eq}

-- Every entry belongs to a transaction whose identifier has been given out.
abbrev pub HasOldEntries : Db → Type 0
HasOldEntries db = All (λ e. e.transaction_id < db.next_id) db.entries

pub settled-cons_ne :
    (t : Transaction) (ts : List Transaction) (n : ℕ) → n < t.id → settled (t ∷ ts) n ≡ settled ts n
unfolding settled
settled-cons_ne t ts n h = ground arith

pub on_account-old :
    (rt : Runtime) (account : ℕ) (asset : String) (t : Transaction) (db db' : Db) (es : List Entry)
    → db'.transactions ≡ t ∷ db.transactions
    → All (λ e. e.transaction_id < t.id) es
    → All (λ e. on_account rt account asset db' e ≡ on_account rt account asset db e) es
on_account-old rt account asset t db db' [] k h = tt
on_account-old rt account asset t db db' (e ∷ es) k h = (
  rw (k, settled-cons_ne t db.transactions e.transaction_id h.0),
  on_account-old rt account asset t db db' es k h.1,
)

pub All-and {ℓ} :
    {A : Type ℓ} (p q r : A → Bool) (xs : List A)
    → All (λ x. p x ≡ q x) xs
    → All (λ x. (p x && r x) ≡ (q x && r x)) xs
All-and p q r [] h = tt
All-and p q r (x ∷ xs) h = (rw h.0, All-and p q r xs h.1)

pub sum_where-rows :
    (rt : Runtime) (r : Request) (fp : String) (actor : ℕ) (db : Db) (p' p : Entry → Bool)
    → All (λ e. p' e ≡ p e) db.entries
    → sum_where p' (inserted rt r fp actor db).entries
      ≡ sum_where p' (map (entry_of rt db.next_id) r.lines) +ℤ sum_where p db.entries
sum_where-rows rt r fp actor db p' p h =
    sum_where-append p' (map (entry_of rt db.next_id) r.lines) db.entries
    ∙ ap (λ s. sum_where p' (map (entry_of rt db.next_id) r.lines) +ℤ s)
        (sum_where-eq p' p db.entries h)

-- A snapshot whose three sums have grown by the given amounts.
abbrev pub grown : ℤ → ℤ → ℤ → BalanceSnapshot → BalanceSnapshot
grown total held waiting s = record {
  authoritative_balance = total +ℤ s.authoritative_balance;
  available_balance =
      (total +ℤ s.authoritative_balance)
      -ℤ (held +ℤ s.reserved_balance)
      -ℤ (waiting +ℤ s.pending_balance);
  reserved_balance = held +ℤ s.reserved_balance;
  pending_balance = waiting +ℤ s.pending_balance;
}

abbrev pub rows_sum : Runtime → Request → Db → (Entry → Bool) → ℤ
rows_sum rt r db p = sum_where p (map (entry_of rt db.next_id) r.lines)

pub balance-inserted :
    (rt : Runtime) (r : Request) (fp : String) (actor : ℕ) (db : Db) (account : ℕ) (asset : String)
    → HasOldEntries db
    → let db' = inserted rt r fp actor db in
      let here = on_account rt account asset db' in
      balance rt account asset db'
      ≡ grown
          (rows_sum rt r db here)
          (rows_sum rt r db (λ e. here e && same_bucket e.bucket reserved))
          (rows_sum rt r db (λ e. here e && same_bucket e.bucket Bucket.pending))
          (balance rt account asset db)
unfolding balance
balance-inserted rt r fp actor db account asset old =
    let db' = inserted rt r fp actor db in
    let same =
      on_account-old rt account asset (new_transaction rt r fp db.next_id) db db' db.entries refl
        old in
    rw (
      sum_where-rows rt r fp actor db _ _ same,
      sum_where-rows rt r fp actor db _ _
          (All-and _ _ (λ e. same_bucket e.bucket reserved) db.entries same),
      sum_where-rows rt r fp actor db _ _
          (All-and _ _ (λ e. same_bucket e.bucket Bucket.pending) db.entries same),
    )
