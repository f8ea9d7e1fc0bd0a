-- ===== src/Accounting/Outcomes.antt =====
-- What `record` and `reverse` of app/services/trade_accounting.py have done when they succeed.
use arima_executive_os.Common.{
  ℕ, ◌≡◌, refl, ap, sym, inl, inr, Option-cases, Bool-cases, arith, ok, some, ◌∷◌, String, bind_ok,
  ok_injective, true, ◌>>◌,
}
use arima_executive_os.Ledger.Tables.{Db}
use arima_executive_os.Accounting.Tables.{
  Holding, PortfolioPosition, SettledTrade, Store, TradeCreate, Platform,
}
use arima_executive_os.Accounting.Service.{
  open_position, take_id, Terms, terms_of, holding_before, Accounts, open_accounts,
}
use arima_executive_os.Accounting.Record.{
  holding_after, Deal, new_trade, post_legs, write_position, audit_trade, settle_trade, record_new,
}
use arima_executive_os.Accounting.Reverse.{
  existing_position, is_reversible, check_reversible, reversal_trade, reverse_legs, mark_trade,
  undo, reverse_new, transactions_of,
}

-- A trade that has been recorded for the first time.
pub record IsRecorded (pf : Platform) (d : Deal) (x : TradeCreate) (s : Store) (r : SettledTrade)
    (s' : Store) : Type 0 where
  pub terms : Terms
  pub terms_eq : terms_of x ≡ ok terms
  pub position : PortfolioPosition
  pub opened : Store
  pub opened_eq : open_position d.workspace d.target d.base s ≡ (position, opened)
  pub before : Holding
  pub before_eq : holding_before position.holding ≡ ok before
  pub accounts : Accounts
  pub with_accounts : Db
  pub accounts_eq :
      open_accounts pf d.races d.workspace d.target d.base d.quote opened.ledger
      ≡ ok (accounts, with_accounts)
  pub after : Holding
  pub after_eq :
      holding_after pf x.side accounts d.base d.quote terms before with_accounts ≡ ok after
  pub legs : Db
  pub legs_eq :
      post_legs pf d x.side with_accounts.next_id accounts terms
        (take_id (record opened { ledger = with_accounts })).ledger
      ≡ ok legs
  pub trade_eq : r ≡ new_trade d x terms before after with_accounts.next_id
  pub store_eq : s' ≡ record opened {
    ledger = audit_trade d.actor "FOUNDER_TRADE_RECORDED" with_accounts.next_id legs;
    positions = write_position position.id after opened.positions;
    trades = new_trade d x terms before after with_accounts.next_id ∷ opened.trades;
  }

pub record_new_ok :
    (pf : Platform) (d : Deal) (x : TradeCreate) (s : Store) (r : SettledTrade) (s' : Store)
    → record_new pf d x s ≡ ok (r, s')
    → IsRecorded pf d x s r s'
unfolding record_new settle_trade
record_new_ok pf d x s r s' e =
    let (t, e1, f1) = bind_ok (terms_of x) _ (r, s') e in
    let (p, s1) = open_position d.workspace d.target d.base s in
    let (h, e2, f2) = bind_ok (holding_before p.holding) _ (r, s') f1 in
    let ((a, db), e5, f5) =
      bind_ok (open_accounts pf d.races d.workspace d.target d.base d.quote s1.ledger) _ (r, s')
        f2 in
    let (h', e3, f3) = bind_ok (holding_after pf x.side a d.base d.quote t h db) _ (r, s') f5 in
    let (legs, e4, f4) =
      bind_ok (post_legs pf d x.side db.next_id a t (take_id (record s1 { ledger = db })).ledger) _
        (r, s') f3 in
    let row = ap (λ z. z.0) (ok_injective _ _ f4) in
    let rows = ap (λ z. z.1) (ok_injective _ _ f4) in
    record {
      terms = t;
      terms_eq = e1;
      position = p;
      opened = s1;
      opened_eq = refl;
      before = h;
      before_eq = e2;
      accounts = a;
      with_accounts = db;
      accounts_eq = e5;
      after = h';
      after_eq = e3;
      legs = legs;
      legs_eq = e4;
      trade_eq = sym row;
      store_eq = sym rows;
    }

-- A trade that has been reversed for the first time.
pub record IsUndone (pf : Platform) (t : SettledTrade) (actor : ℕ) (key fp reason : String)
    (s : Store) (r : SettledTrade) (s' : Store) : Type 0 where
  pub position : PortfolioPosition
  pub position_eq : existing_position t.workspace_id t.target_user_id t.base_asset s ≡ some position
  pub recorded_eq : is_reversible t ≡ true
  pub reversible : check_reversible pf t position.holding s.ledger ≡ ok tt
  pub legs : Db
  pub legs_eq :
      reverse_legs pf actor s.ledger.next_id reason
        (transactions_of t.id s.ledger)
        (take_id s).ledger
      ≡ ok legs
  pub trade_eq : r ≡ reversal_trade t actor key fp reason s.ledger.next_id
  pub store_eq : s' ≡ record s {
    ledger = audit_trade actor "FOUNDER_TRADE_REVERSED" s.ledger.next_id legs;
    positions = write_position position.id t.before s.positions;
    trades = reversal_trade t actor key fp reason s.ledger.next_id ∷ mark_trade t.id s.trades;
  }

undo_ok :
    (pf : Platform) (t : SettledTrade) (p : PortfolioPosition) (actor : ℕ) (key fp reason : String)
    (s : Store) (r : SettledTrade) (s' : Store)
    → existing_position t.workspace_id t.target_user_id t.base_asset s ≡ some p
    → is_reversible t ≡ true
    → (check_reversible pf t p.holding s.ledger >> undo pf t p actor key fp reason s) ≡ ok (r, s')
    → IsUndone pf t actor key fp reason s r s'
unfolding undo
undo_ok pf t p actor key fp reason s r s' there b e =
    let (_, e1, f1) = bind_ok (check_reversible pf t p.holding s.ledger) _ (r, s') e in
    let (legs, e2, f2) =
      bind_ok
        (reverse_legs pf actor s.ledger.next_id reason (transactions_of t.id s.ledger)
          (take_id s).ledger)
        _ (r, s') f1 in
    record {
      position = p;
      position_eq = there;
      recorded_eq = b;
      reversible = e1;
      legs = legs;
      legs_eq = e2;
      trade_eq = sym (ap (λ z. z.0) (ok_injective _ _ f2));
      store_eq = sym (ap (λ z. z.1) (ok_injective _ _ f2));
    }

pub reverse_new_ok :
    (pf : Platform) (t : SettledTrade) (actor : ℕ) (key fp reason : String) (s : Store)
    (r : SettledTrade) (s' : Store)
    → reverse_new pf t actor key fp reason s ≡ ok (r, s')
    → IsUndone pf t actor key fp reason s r s'
unfolding reverse_new
reverse_new_ok pf t actor key fp reason s r s' e = elim (Bool-cases (is_reversible t)) [
  | inr b ↦ absurd (ground arith)
  | inl b ↦ elim (Option-cases (existing_position t.workspace_id t.target_user_id t.base_asset s)) [
    | inl f ↦ absurd (ground arith)
    | inr (p, f) ↦ undo_ok pf t p actor key fp reason s r s' f b (ground arith)
  ]
]
