-- ===== src/Accounting/Books.antt =====
-- The ledger's books through the accounts, postings and reversals of
-- app/services/trade_accounting.py.
use arima_executive_os.Common.{
  refl, ap, ℕ, ◌≡◌, arith, ok, err, Result, Option, none, some, List, [], ◌∷◌, String, bind_ok,
  ok_injective,
}
use arima_executive_os.Ledger.Tables.{
  Account, Db, LedgerError, Transaction, AccountKind, customer, clearing,
}
use arima_executive_os.Ledger.Service.{account, post}
use arima_executive_os.Ledger.Movements.{reverse}
use arima_executive_os.Ledger.Conservation.{
  IsBalanced, RaceIsBalanced, account-IsBalanced, AddsUp, post_adding_up, reverse-IsBalanced,
}
use arima_executive_os.Accounting.Tables.{buy, sell, Side, Platform}
use arima_executive_os.Accounting.Service.{Terms, Accounts, Races, opened_in, open_accounts}
use arima_executive_os.Ledger.Sums.{exact_total}
use arima_executive_os.Accounting.Record.{
  quote_leg, base_leg, Deal, post_legs, posted_in, quote_request, base_request,
}
use arima_executive_os.Accounting.Reverse.{reverse_leg, reverse_legs}

posted_in_eq : (p : Result LedgerError Transaction × Db) (db : Db) → posted_in p ≡ ok db → p.1 ≡ db
posted_in_eq (ok t, d) db h = ok_injective d db h
posted_in_eq (err e, d) db h = absurd (ground arith)

opened_in_eq :
    (p : Result LedgerError Account × Db) (a : Account) (db : Db)
    → opened_in p ≡ ok (a, db)
    → p.1 ≡ db
opened_in_eq (ok b, d) a db h = ap (λ z. z.1) (ok_injective (b, d) (a, db) h)
opened_in_eq (err e, d) a db h = absurd (ground arith)

opened-IsBalanced :
    (pf : Platform) (race : Option Db) (ws : ℕ) (user : Option ℕ) (asset : String) (k : AccountKind)
    (db : Db) (a : Account) (db' : Db)
    → RaceIsBalanced race
    → IsBalanced db
    → opened_in (account pf.ledger race ws user asset k db) ≡ ok (a, db')
    → IsBalanced db'
opened-IsBalanced pf race ws user asset k db a db' w h e =
    rw (← opened_in_eq (account pf.ledger race ws user asset k db) a db' e)
      (account-IsBalanced pf.ledger race ws user asset k db w h)

-- The sessions that win a race leave balanced databases.
pub record AreBalanced (races : Races) : Type 0 where
  pub customer_quote : RaceIsBalanced races.customer_quote
  pub customer_base : RaceIsBalanced races.customer_base
  pub clearing_quote : RaceIsBalanced races.clearing_quote
  pub clearing_base : RaceIsBalanced races.clearing_base

pub open_accounts-IsBalanced :
    (pf : Platform) (races : Races) (ws user : ℕ) (base quote : String) (db : Db) (a : Accounts)
    (db' : Db)
    → AreBalanced races
    → IsBalanced db
    → open_accounts pf races ws user base quote db ≡ ok (a, db')
    → IsBalanced db'
unfolding open_accounts
open_accounts-IsBalanced pf races ws user base quote db a db' w h e =
    let ((cq, d1), e1, f1) =
      bind_ok (opened_in (account pf.ledger races.customer_quote ws (some user) quote customer db))
        _ (a, db') e in
    let ((cb, d2), e2, f2) =
      bind_ok (opened_in (account pf.ledger races.customer_base ws (some user) base customer d1)) _
        (a, db') f1 in
    let ((kq, d3), e3, f3) =
      bind_ok (opened_in (account pf.ledger races.clearing_quote ws none quote clearing d2)) _
        (a, db') f2 in
    let ((kb, d4), e4, f4) =
      bind_ok (opened_in (account pf.ledger races.clearing_base ws none base clearing d3)) _
        (a, db') f3 in
    let h1 =
      opened-IsBalanced pf races.customer_quote ws (some user) quote customer db cq d1
        w.customer_quote h e1 in
    let h2 =
      opened-IsBalanced pf races.customer_base ws (some user) base customer d1 cb d2 w.customer_base
        h1 e2 in
    let h3 =
      opened-IsBalanced pf races.clearing_quote ws none quote clearing d2 kq d3 w.clearing_quote h2
        e3 in
    let h4 =
      opened-IsBalanced pf races.clearing_base ws none base clearing d3 kb d4 w.clearing_base h3
        e4 in
    rw (← ap (λ z. z.1) (ok_injective _ _ f4)) h4

legs-AddsUp :
    (side : Side) (a : Accounts) (d : Deal) (t : Terms)
    → AddsUp (quote_leg side a d.quote t) × AddsUp (base_leg side a d.base t)
unfolding exact_total
legs-AddsUp buy a d t = (λ p e. refl, λ p e. refl)
legs-AddsUp sell a d t = (λ p e. refl, λ p e. refl)

pub post_legs-IsBalanced :
    (pf : Platform) (d : Deal) (side : Side) (id : ℕ) (a : Accounts) (t : Terms) (db db' : Db)
    → IsBalanced db
    → post_legs pf d side id a t db ≡ ok db'
    → IsBalanced db'
unfolding post_legs
post_legs-IsBalanced pf d side id a t db db' h e =
    let first = post pf.ledger none (quote_request pf d side id a t) db in
    let (db1, e1, e2) = bind_ok (posted_in first) _ db' e in
    let second = post pf.ledger none (base_request pf d side id a t) db1 in
    rw (← posted_in_eq second db' e2) (
      post_adding_up pf.ledger none (base_request pf d side id a t) db1 (legs-AddsUp side a d t).1
        tt
        (rw (← posted_in_eq first db1 e1) (
          post_adding_up pf.ledger none (quote_request pf d side id a t) db
            (legs-AddsUp side a d t).0 tt h)))

reverse_leg-IsBalanced :
    (pf : Platform) (actor id : ℕ) (reason : String) (tid : ℕ) (db db' : Db)
    → IsBalanced db
    → reverse_leg pf actor id reason tid db ≡ ok db'
    → IsBalanced db'
reverse_leg-IsBalanced pf actor id reason tid db db' h e =
    let key = pf.reverse_key id tid in
    rw (← posted_in_eq (reverse pf.ledger pf.show_id none tid actor key reason (some id) db) db' e)
      (reverse-IsBalanced pf.ledger pf.show_id none tid actor key reason (some id) db tt h)

pub reverse_legs-IsBalanced :
    (pf : Platform) (actor id : ℕ) (reason : String) (ts : List Transaction) (db db' : Db)
    → IsBalanced db
    → reverse_legs pf actor id reason ts db ≡ ok db'
    → IsBalanced db'
unfolding reverse_legs
reverse_legs-IsBalanced pf actor id reason [] db db' h e = absurd (ground arith)
reverse_legs-IsBalanced pf actor id reason (t ∷ []) db db' h e = absurd (ground arith)
reverse_legs-IsBalanced pf actor id reason (t ∷ u ∷ []) db db' h e =
    let (db1, e1, e2) = bind_ok (reverse_leg pf actor id reason u.id db) _ db' e in
    reverse_leg-IsBalanced pf actor id reason t.id db1 db'
      (reverse_leg-IsBalanced pf actor id reason u.id db db1 h e1) e2
reverse_legs-IsBalanced pf actor id reason (t ∷ u ∷ v ∷ ts) db db' h e = absurd (ground arith)
