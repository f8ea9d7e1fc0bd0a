-- ===== src/Accounting/Legs.antt =====
-- The two ledger transactions of a trade in app/services/trade_accounting.py, and their reversal.
use arima_executive_os.Common.{
  ℕ, ◌+◌, ◌≡◌, refl, ap, sym, ◌∙◌, ==_refl, false, none, some, List, [], ◌∷◌, String, str_eq, arith,
  keep, Result, ok, err, bind_ok, ok_injective, opt_eq,
}
use arima_executive_os.Ledger.Tables.{Db, Transaction, LedgerError, Request}
use arima_executive_os.Ledger.Service.{find_transaction, post}
use arima_executive_os.Ledger.Movements.{sum_where}
use arima_executive_os.Ledger.Idempotency.{IsPosted, post_ok}
use arima_executive_os.Ledger.Balances.{HasOldEntries}
use arima_executive_os.Ledger.Reversal.{Choice, chosen}
use arima_executive_os.Ledger.Undo.{IsPair, IsUpper, key_tail, pair_transactions, undo_both}
use arima_executive_os.Accounting.Tables.{
  Side, buy, sell, SettledTrade, Store, TradeCreate, Platform,
}
use arima_executive_os.Accounting.Service.{no_races, take_id, Terms, Accounts}
use arima_executive_os.Accounting.Record.{
  Deal, quote_leg, base_leg, quote_request, base_request, posted_in, post_legs,
}
use arima_executive_os.Accounting.Reverse.{reverse_leg, reverse_legs, transactions_of}
use arima_executive_os.Accounting.Outcomes.{IsRecorded, IsUndone}
use arima_executive_os.Accounting.Growth.{
  Extends, Extends-trans, Extends-HasOldEntries, open_position-Extends, open_accounts-Extends,
}

posted_in_ok :
    (p : Result LedgerError Transaction × Db) (db : Db)
    → posted_in p ≡ ok db
    → (t : Transaction) × (p ≡ (ok t, db))
posted_in_ok (ok t, d) db h = (t, ap (λ z. (ok t, z)) (ok_injective d db h))
posted_in_ok (err e, d) db h = absurd (ground arith)

-- The keys of the postings are unused, and differ.
pub record HasFreshKeys (pf : Platform) (ws id : ℕ) (db : Db) : Type 0 where
  pub quote : find_transaction ws (pf.quote_key id) db ≡ none
  pub base : find_transaction ws (pf.base_key id) db ≡ none
  pub apart : str_eq (pf.quote_key id) (pf.base_key id) ≡ false

-- The two legs of a trade as postings.
pub record ArePosted (rt : Platform) (r1 r2 : Request) (db db' : Db) : Type 0 where
  pub t1 : Transaction
  pub t2 : Transaction
  pub between : Db
  pub first : IsPosted rt.ledger r1 db t1 between
  pub second : IsPosted rt.ledger r2 between t2 db'

post_legs_ok :
    (pf : Platform) (d : Deal) (side : Side) (id : ℕ) (a : Accounts) (t : Terms) (db db' : Db)
    → HasFreshKeys pf d.workspace id db
    → post_legs pf d side id a t db ≡ ok db'
    → ArePosted pf (quote_request pf d side id a t) (base_request pf d side id a t) db db'
unfolding post_legs
post_legs_ok pf d side id a t db db' k e =
    let rq = quote_request pf d side id a t in
    let rb = base_request pf d side id a t in
    let (m, e1, f1) =
      bind_ok (posted_in (post pf.ledger none rq db)) (λ m. posted_in (post pf.ledger none rb m))
        db' e in
    let (t1, p1) = posted_in_ok (post pf.ledger none rq db) m e1 in
    let (t2, p2) = posted_in_ok (post pf.ledger none rb m) db' f1 in
    let first = post_ok pf.ledger rq db t1 m k.quote p1 in
    let free : find_transaction d.workspace (pf.base_key id) m ≡ none =
      rw first.db_eq (key_tail d.workspace (pf.base_key id) _ db.transactions k.apart k.base) in
    record {
      t1 = t1;
      t2 = t2;
      between = m;
      first = first;
      second = post_ok pf.ledger rb m t2 db' free p2;
    }

quote_leg-IsUpper :
    (pf : Platform) (side : Side) (a : Accounts) (asset : String) (t : Terms)
    → pf.ledger.upper asset ≡ asset
    → IsUpper pf.ledger (quote_leg side a asset t) × IsUpper pf.ledger (base_leg side a asset t)
quote_leg-IsUpper pf buy a asset t h =
    let twice = ap pf.ledger.upper h in ((twice, (twice, tt)), (twice, (twice, tt)))
quote_leg-IsUpper pf sell a asset t h =
    let twice = ap pf.ledger.upper h in ((twice, (twice, tt)), (twice, (twice, tt)))

reverse_legs_two :
    (pf : Platform) (actor id : ℕ) (reason : String) (t2 t1 : Transaction) (rest : List Transaction)
    (db db' : Db)
    → reverse_legs pf actor id reason (t2 ∷ t1 ∷ rest) db ≡ ok db'
    → (m : Db) × (reverse_leg pf actor id reason t1.id db ≡ ok m)
      × (reverse_leg pf actor id reason t2.id m ≡ ok db')
unfolding reverse_legs
reverse_legs_two pf actor id reason t2 t1 [] db db' e =
    bind_ok (reverse_leg pf actor id reason t1.id db) _ db' e
reverse_legs_two pf actor id reason t2 t1 (t ∷ ts) db db' e = absurd (ground arith)

transactions_of_two :
    (id : ℕ) (t2 t1 : Transaction) (ts : List Transaction)
    → t2.trade_id ≡ some id
    → t1.trade_id ≡ some id
    → keep (λ t. opt_eq t.trade_id (some id)) (t2 ∷ t1 ∷ ts)
      ≡ t2 ∷ t1 ∷ keep (λ t. opt_eq t.trade_id (some id)) ts
transactions_of_two id t2 t1 ts h k = rw (h, k, ==_refl id) refl

-- The keys of the reversals are unused, and differ.
pub record HasFreshUndoKeys (pf : Platform) (ws id first second : ℕ) (db : Db) : Type 0 where
  pub free1 : find_transaction ws (pf.reverse_key id first) db ≡ none
  pub free2 : find_transaction ws (pf.reverse_key id second) db ≡ none
  pub apart : str_eq (pf.reverse_key id first) (pf.reverse_key id second) ≡ false

-- The database in which a recorded trade posts its legs.
abbrev posting_db :
    {pf : Platform} {d : Deal} {x : TradeCreate} {s : Store} {t : SettledTrade} {s1 : Store}
    → IsRecorded pf d x s t s1
    → Db
posting_db r = (take_id (record r.opened { ledger = r.with_accounts })).ledger

module _ (pf : Platform) (d : Deal) (x : TradeCreate) (s : Store) (t : SettledTrade) (s1 : Store)
    (r : IsRecorded pf d x s t s1) (calm : d.races ≡ no_races) where
  posting_db-Extends : Extends s.ledger (posting_db r)
  posting_db-Extends =
      Extends-trans s.ledger r.opened.ledger (posting_db r)
        (rw (← ap (λ z. z.1) r.opened_eq) (open_position-Extends d.workspace d.target d.base s))
        (Extends-trans r.opened.ledger r.with_accounts (posting_db r)
          (open_accounts-Extends pf d.workspace d.target d.base d.quote r.opened.ledger r.accounts
            r.with_accounts (rw (← calm) r.accounts_eq))
          (record { transactions = refl; entries = refl; later = omega arith }))

  recorded_id : t.id ≡ r.with_accounts.next_id
  recorded_id = rw r.trade_eq refl

  recorded_legs :
      HasFreshKeys pf d.workspace t.id s.ledger
      → ArePosted pf
          (quote_request pf d x.side t.id r.accounts r.terms)
          (base_request pf d x.side t.id r.accounts r.terms)
          (posting_db r)
          r.legs
  recorded_legs k =
      let same = posting_db-Extends.transactions in
      post_legs_ok pf d x.side t.id r.accounts r.terms (posting_db r) r.legs
        (record { quote = rw same k.quote; base = rw same k.base; apart = k.apart })
        (rw recorded_id r.legs_eq)

  -- The two transactions are the newest ones.
  recorded-IsPair :
      HasOldEntries s.ledger
      → (p : ArePosted pf
          (quote_request pf d x.side t.id r.accounts r.terms)
          (base_request pf d x.side t.id r.accounts r.terms)
          (posting_db r)
          r.legs)
      → IsPair pf.ledger
          (quote_request pf d x.side t.id r.accounts r.terms)
          (base_request pf d x.side t.id r.accounts r.terms)
          (posting_db r)
          p.t1
          p.t2
          (take_id s1).ledger
  recorded-IsPair old p = record {
    old = Extends-HasOldEntries s.ledger (posting_db r) posting_db-Extends old;
    between = p.between;
    after = r.legs;
    first = p.first;
    second = p.second;
    entries_eq = rw r.store_eq refl;
    transactions_eq = rw r.store_eq refl;
    later = rw r.store_eq (omega arith);
  }

  -- What the reversal of the recorded trade leaves of the sums of entries.
  pub recorded_sums :
      (actor : ℕ) (key fp reason : String) (u : SettledTrade) (s2 : Store) (q : Choice)
      → IsUndone pf t actor key fp reason s1 u s2
      → HasOldEntries s.ledger
      → pf.ledger.upper d.base ≡ d.base
      → pf.ledger.upper d.quote ≡ d.quote
      → HasFreshKeys pf d.workspace t.id s.ledger
      → HasFreshUndoKeys pf d.workspace u.id (t.id + 1) (t.id + 2) s1.ledger
      → sum_where (chosen q) s2.ledger.entries ≡ sum_where (chosen q) s.ledger.entries
  recorded_sums actor key fp reason u s2 q w old up_base up_quote k k' =
      let p = recorded_legs k in
      let pair = recorded-IsPair old p in
      let (ts, i1, i2, _, w1, w2) =
        pair_transactions pf.ledger _ _ (posting_db r) p.t1 p.t2 (take_id s1).ledger pair in
      let id1 : p.t1.id ≡ t.id + 1 = omega (arith, i1, recorded_id) in
      let id2 : p.t2.id ≡ t.id + 2 = omega (arith, i2, recorded_id) in
      let two =
        transactions_of_two t.id p.t2 p.t1 (posting_db r).transactions
          (ap (λ z. z.trade_id) p.second.transaction_eq)
          (ap (λ z. z.trade_id) p.first.transaction_eq) in
      let whole =
        ap (λ (z : List Transaction). keep (λ (y : Transaction). opt_eq y.trade_id (some t.id)) z)
          ts
        ∙ two in
      let same_id : u.id ≡ s1.ledger.next_id = rw w.trade_eq refl in
      let (m, e1, e2) =
        reverse_legs_two pf actor u.id reason p.t2 p.t1 (transactions_of t.id (posting_db r))
          (take_id s1).ledger w.legs
          (ap (λ z. reverse_legs pf actor u.id reason z (take_id s1).ledger) (sym whole)
            ∙ rw same_id w.legs_eq) in
      let (u1, h1) = posted_in_ok _ m e1 in
      let (u2, h2) = posted_in_ok _ w.legs e2 in
      let up1 = (quote_leg-IsUpper pf x.side r.accounts d.quote r.terms up_quote).0 in
      let up2 = (quote_leg-IsUpper pf x.side r.accounts d.base r.terms up_base).1 in
      let sums =
        undo_both pf.ledger pf.show_id _ _ (posting_db r) p.t1 p.t2 (take_id s1).ledger actor
          (pf.reverse_key u.id p.t1.id) (pf.reverse_key u.id p.t2.id) reason (some u.id) u1 u2 m
          w.legs q pair up1 up2 (rw (w1, id1) k'.free1) (rw (w2, id2) k'.free2)
          (rw (id1, id2) k'.apart) h1 h2 in
      ap (λ z. sum_where (chosen q) z.ledger.entries) w.store_eq
      ∙ sums
      ∙ ap (sum_where (chosen q)) posting_db-Extends.entries
