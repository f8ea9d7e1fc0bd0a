-- ===== src/Accounting/Growth.antt =====
-- What opening a position and the accounts of a trade leaves alone, in
-- app/services/trade_accounting.py, and which positions are found afterwards.
use arima_executive_os.Common.{
  Result, ok, bind_ok, ok_injective, ℕ, ◌≤◌, ◌<◌, ◌≡◌, refl, ap, sym, ◌∙◌, ◌==◌, ==_refl, Bool,
  true, false, inl, inr, Bool-cases, Option-cases, Option, none, some, List, [], ◌∷◌, String,
  eq_refl, All, arith, if◌then◌else◌, find_first,
}
use arima_executive_os.Ledger.Tables.{Account, Db, AccountKind, customer, clearing}
use arima_executive_os.Ledger.Service.{account, account_missing, add_account, find_account}
use arima_executive_os.Ledger.Balances.{HasOldEntries}
use arima_executive_os.Accounting.Tables.{
  AccountingError, Holding, Portfolio, PortfolioPosition, Store, Platform,
}
use arima_executive_os.Accounting.Service.{
  empty_holding, find_portfolio, find_position, has_place, portfolio_in, position_in, open_position,
  Accounts, no_races, opened_in, open_accounts,
}
use arima_executive_os.Accounting.Record.{set_holding, write_position}
use arima_executive_os.Accounting.Reverse.{existing_position}

-- The same transactions and entries, and no identifier given back.
pub record Extends (db db' : Db) : Type 0 where
  pub transactions : db'.transactions ≡ db.transactions
  pub entries : db'.entries ≡ db.entries
  pub later : db.next_id ≤ db'.next_id

pub Extends-trans : (a b c : Db) → Extends a b → Extends b c → Extends a c
Extends-trans a b c x y = record {
  transactions = y.transactions ∙ x.transactions;
  entries = y.entries ∙ x.entries;
  later = omega (arith, x.later, y.later);
}

Extends-self : (a : Db) → Extends a a
Extends-self a = record { transactions = refl; entries = refl; later = omega arith }

portfolio_in-Extends :
    (ws user : ℕ) (s : Store) → Extends s.ledger (portfolio_in ws user s).1.ledger
portfolio_in-Extends ws user s = elim (Option-cases (find_portfolio ws user s)) [
  | inl e ↦
      rw (e, portfolio_in) (record { transactions = refl; entries = refl; later = omega arith })
  | inr (p, e) ↦ rw (e, portfolio_in) (Extends-self s.ledger)
]

position_in-Extends :
    (portfolio : ℕ) (asset : String) (s : Store)
    → Extends s.ledger (position_in portfolio asset s).1.ledger
position_in-Extends portfolio asset s = elim (Option-cases (find_position portfolio asset s)) [
  | inl e ↦
      rw (e, position_in) (record { transactions = refl; entries = refl; later = omega arith })
  | inr (p, e) ↦ rw (e, position_in) (Extends-self s.ledger)
]

pub open_position-Extends :
    (ws user : ℕ) (asset : String) (s : Store)
    → Extends s.ledger (open_position ws user asset s).1.ledger
unfolding open_position
open_position-Extends ws user asset s =
    let (p, s') = portfolio_in ws user s in
    Extends-trans _ _ _ (portfolio_in-Extends ws user s) (position_in-Extends p.id asset s')

opened-Extends :
    (pf : Platform) (ws : ℕ) (user : Option ℕ) (asset : String) (k : AccountKind) (db : Db)
    (a : Account) (db' : Db)
    → opened_in (account pf.ledger none ws user asset k db) ≡ ok (a, db')
    → Extends db db'
unfolding account account_missing
opened-Extends pf ws user asset k db a db' e =
    elim (Option-cases (find_account ws user (pf.ledger.upper asset) k db)) [
      | inl f ↦
          let p = add_account ws user (pf.ledger.upper asset) k db in
          let done : Path (Result AccountingError (Account × Db)) (ok (p.0, p.1)) (ok (a, db')) =
            ground (arith, e, f) in
          let same = ap (λ z. z.1) (ok_injective _ _ done) in
          rw (← same) (record { transactions = refl; entries = refl; later = omega arith })
      | inr (b, f) ↦
          let done : Path (Result AccountingError (Account × Db)) (ok (b, db)) (ok (a, db')) =
            ground (arith, e, f) in
          rw (← ap (λ z. z.1) (ok_injective _ _ done)) (Extends-self db)
    ]

pub open_accounts-Extends :
    (pf : Platform) (ws user : ℕ) (base quote : String) (db : Db) (a : Accounts) (db' : Db)
    → open_accounts pf no_races ws user base quote db ≡ ok (a, db')
    → Extends db db'
unfolding open_accounts
open_accounts-Extends pf ws user base quote db a db' e =
    let ((cq, d1), e1, f1) =
      bind_ok (opened_in (account pf.ledger none ws (some user) quote customer db)) _ (a, db') e in
    let ((cb, d2), e2, f2) =
      bind_ok (opened_in (account pf.ledger none ws (some user) base customer d1)) _ (a, db') f1 in
    let ((kq, d3), e3, f3) =
      bind_ok (opened_in (account pf.ledger none ws none quote clearing d2)) _ (a, db') f2 in
    let ((kb, d4), e4, f4) =
      bind_ok (opened_in (account pf.ledger none ws none base clearing d3)) _ (a, db') f3 in
    let x1 = opened-Extends pf ws (some user) quote customer db cq d1 e1 in
    let x2 = opened-Extends pf ws (some user) base customer d1 cb d2 e2 in
    let x3 = opened-Extends pf ws none quote clearing d2 kq d3 e3 in
    let x4 = opened-Extends pf ws none base clearing d3 kb d4 e4 in
    rw (← ap (λ z. z.1) (ok_injective _ _ f4))
      (Extends-trans db d1 d4 x1 (Extends-trans d1 d2 d4 x2 (Extends-trans d2 d3 d4 x3 x4)))

All-later {ℓ} :
    {A : Type ℓ} (f : A → ℕ) (m n : ℕ) (xs : List A)
    → m ≤ n
    → All (λ x. f x < m) xs
    → All (λ x. f x < n) xs
All-later f m n [] h k = tt
All-later f m n (x ∷ xs) h k = (omega (arith, h, k.0), All-later f m n xs h k.1)

pub Extends-HasOldEntries : (a b : Db) → Extends a b → HasOldEntries a → HasOldEntries b
Extends-HasOldEntries a b x h =
    rw x.entries (All-later (λ e. e.transaction_id) a.next_id b.next_id a.entries x.later h)

-- What the customer holds of an asset: nothing, where there is no position.
abbrev pub held : Option PortfolioPosition → Holding
held none = empty_holding
held (some p) = p.holding

abbrev pub holding_of : ℕ → ℕ → String → Store → Holding
holding_of ws user asset s = held (existing_position ws user asset s)

position_in-holding :
    (portfolio : ℕ) (asset : String) (s : Store)
    → let (p, s') = position_in portfolio asset s in
      (find_position portfolio asset s' ≡ some p)
      × (p.holding ≡ held (find_position portfolio asset s))
      × (s'.portfolios ≡ s.portfolios)
position_in-holding portfolio asset s = elim (Option-cases (find_position portfolio asset s)) [
  | inl e ↦ rw (e, position_in) (rw (==_refl portfolio, eq_refl asset) refl, refl, refl)
  | inr (p, e) ↦ rw (e, position_in) (e, refl, refl)
]

pub existing_at :
    (ws user : ℕ) (asset : String) (s : Store) (p : Portfolio)
    → find_portfolio ws user s ≡ some p
    → existing_position ws user asset s ≡ find_position p.id asset s
existing_at ws user asset s p e = rw (e, existing_position) refl

existing_none :
    (ws user : ℕ) (asset : String) (s : Store)
    → find_portfolio ws user s ≡ none
    → existing_position ws user asset s ≡ none
existing_none ws user asset s e = rw (e, existing_position) refl

-- The portfolio of every position has an identifier that has been given out.
abbrev pub HasOldPositions : Store → Type 0
HasOldPositions s = All (λ p. p.portfolio_id < s.ledger.next_id) s.positions

find_position-new :
    (n : ℕ) (asset : String) (ps : List PortfolioPosition)
    → All (λ p. p.portfolio_id < n) ps
    → find_first (has_place n asset) ps ≡ none
find_position-new n asset [] h = refl
find_position-new n asset (p ∷ ps) h = ground (arith, find_position-new n asset ps h.1)

portfolio_in-found :
    (ws user : ℕ) (s : Store)
    → let (p, s') = portfolio_in ws user s in find_portfolio ws user s' ≡ some p
portfolio_in-found ws user s = elim (Option-cases (find_portfolio ws user s)) [
  | inl e ↦ rw (e, portfolio_in) (rw (==_refl ws, ==_refl user) refl)
  | inr (p, e) ↦ rw (e, portfolio_in) e
]

portfolio_in-holding :
    (ws user : ℕ) (asset : String) (s : Store)
    → HasOldPositions s
    → let (p, s') = portfolio_in ws user s in
      held (find_position p.id asset s') ≡ holding_of ws user asset s
portfolio_in-holding ws user asset s old = elim (Option-cases (find_portfolio ws user s)) [
  | inl e ↦
      rw (e, portfolio_in, find_position-new s.ledger.next_id asset s.positions old)
        (ap held (sym (existing_none ws user asset s e)))
  | inr (p, e) ↦ rw (e, portfolio_in) (ap held (sym (existing_at ws user asset s p e)))
]

-- The open position is the one that is found from then on, and it holds what was held.
pub open_position-holding :
    (ws user : ℕ) (asset : String) (s : Store)
    → HasOldPositions s
    → let (p, s') = open_position ws user asset s in
      (existing_position ws user asset s' ≡ some p) × (p.holding ≡ holding_of ws user asset s)
unfolding open_position
open_position-holding ws user asset s old =
    let (p, s1) = portfolio_in ws user s in
    let (there, same, ports) = position_in-holding p.id asset s1 in
    let found : find_portfolio ws user (position_in p.id asset s1).1 ≡ some p =
      rw ports (portfolio_in-found ws user s) in
    (
      existing_at ws user asset (position_in p.id asset s1).1 p found ∙ there,
      same ∙ portfolio_in-holding ws user asset s old,
    )

pub find-write_position :
    (portfolio : ℕ) (asset : String) (h : Holding) (ps : List PortfolioPosition)
    (p : PortfolioPosition)
    → find_first (has_place portfolio asset) ps ≡ some p
    → find_first (has_place portfolio asset) (write_position p.id h ps) ≡ some (set_holding h p)
unfolding write_position
find-write_position portfolio asset h [] p e = absurd (ground arith)
find-write_position portfolio asset h (x ∷ xs) p e =
    elim (Bool-cases (has_place portfolio asset x)) [
      | inl c ↦
          let same : x ≡ p = ground (arith, e, c) in
          let id : (x.id == p.id) ≡ true = ground arith in
          write_head (x.id == p.id) id c (ap (λ y. some (set_holding h y)) same)
      | inr c ↦
          write_tail (x.id == p.id) c
            (find-write_position portfolio asset h xs p (ground (arith, e, c)))
    ]
  where
    write_head :
        (b : Bool)
        → b ≡ true
        → has_place portfolio asset x ≡ true
        → some (set_holding h x) ≡ some (set_holding h p)
        → find_first
            (has_place portfolio asset)
            (if b then set_holding h x ∷ write_position p.id h xs else x ∷ write_position p.id h xs)
          ≡ some (set_holding h p)
    write_head b i c k = rw (i, c) k

    write_tail :
        (b : Bool)
        → has_place portfolio asset x ≡ false
        → find_first (has_place portfolio asset) (write_position p.id h xs) ≡ some (set_holding h p)
        → find_first
            (has_place portfolio asset)
            (if b then set_holding h x ∷ write_position p.id h xs else x ∷ write_position p.id h xs)
          ≡ some (set_holding h p)
    write_tail true c k = rw c k
    write_tail false c k = rw c k
