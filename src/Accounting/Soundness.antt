-- ===== src/Accounting/Soundness.antt =====
-- The positions and the books through `record` and `reverse` of app/services/trade_accounting.py.
use arima_executive_os.Common.{
  ok_injective, raise_if, ◌>>◌, str_eq, ltb_ℤ, ℕ, ◌≡◌, refl, ap, inl, inr, Option-cases, arith, pos,
  ◌<ℤ◌, ok, err, Result, none, some, String, All, All-find_first, find_first, ◌>>=◌, bind_ok,
}
use arima_executive_os.Identity.{User, Workspace, Directory}
use arima_executive_os.Ledger.Conservation.{IsBalanced}
use arima_executive_os.Accounting.Tables.{
  same_assets, negative_fee, SettledTrade, Store, TradeCreate, AccountingError, Platform,
}
use arima_executive_os.Accounting.Service.{
  Races, normalize_asset, find_existing, find_target, find_portfolio, find_position, has_place,
  portfolio_in, position_in, open_position,
}
use arima_executive_os.Accounting.Record.{
  Deal, record_new, record_checked, deal_of, record_trade, committed,
}
use arima_executive_os.Accounting.Reverse.{is_trade_of, reverse_new, reverse_checked, reverse_trade}
use arima_executive_os.Accounting.Outcomes.{record_new_ok, reverse_new_ok}
use arima_executive_os.Accounting.Books.{
  AreBalanced, open_accounts-IsBalanced, post_legs-IsBalanced, reverse_legs-IsBalanced,
}
use arima_executive_os.Accounting.Positions.{
  IsSound, holding_before_eq, terms_of_eq, holding_after-IsSound, empty-IsSound,
  write_position-IsSound, mark_trade-IsSound,
}

-- The positions are sound, so are those that the trades have noted, and the books balance.
pub record IsSoundStore (s : Store) : Type 0 where
  pub positions : All (λ p. IsSound p.holding) s.positions
  pub trades : All (λ t. IsSound t.before × IsSound t.after) s.trades
  pub balanced : IsBalanced s.ledger

portfolio_in-IsSoundStore :
    (ws user : ℕ) (s : Store) → IsSoundStore s → IsSoundStore (portfolio_in ws user s).1
portfolio_in-IsSoundStore ws user s k = elim (Option-cases (find_portfolio ws user s)) [
  | inl e ↦
      rw (e, portfolio_in)
        (record {
          positions = k.positions;
          trades = k.trades;
          balanced = record {
            by_transaction = k.balanced.by_transaction;
            by_asset = k.balanced.by_asset;
          };
        })
  | inr (p, e) ↦ rw (e, portfolio_in) k
]

position_in-IsSoundStore :
    (portfolio : ℕ) (asset : String) (s : Store)
    → IsSoundStore s
    → let (p, s') = position_in portfolio asset s in IsSound p.holding × IsSoundStore s'
position_in-IsSoundStore portfolio asset s k =
    elim (Option-cases (find_position portfolio asset s)) [
      | inl e ↦
          rw (e, position_in)
            (
              empty-IsSound,
              record {
                positions = (empty-IsSound, k.positions);
                trades = k.trades;
                balanced = record {
                  by_transaction = k.balanced.by_transaction;
                  by_asset = k.balanced.by_asset;
                };
              },
            )
      | inr (p, e) ↦
          rw (e, position_in)
            (All-find_first _ (has_place portfolio asset) s.positions p k.positions e, k)
    ]

open_position-IsSoundStore :
    (ws user : ℕ) (asset : String) (s : Store)
    → IsSoundStore s
    → let (p, s') = open_position ws user asset s in IsSound p.holding × IsSoundStore s'
unfolding open_position
open_position-IsSoundStore ws user asset s k =
    let (p, s') = portfolio_in ws user s in
    position_in-IsSoundStore p.id asset s' (portfolio_in-IsSoundStore ws user s k)

record_new-IsSoundStore :
    (pf : Platform) (d : Deal) (x : TradeCreate) (s : Store) (t : SettledTrade) (s' : Store)
    → IsSoundStore s
    → pos 0 <ℤ x.quantity
    → AreBalanced d.races
    → record_new pf d x s ≡ ok (t, s')
    → IsSoundStore s'
record_new-IsSoundStore pf d x s t s' k q w e =
    let r = record_new_ok pf d x s t s' e in
    let (sound, inside) = open_position-IsSoundStore d.workspace d.target d.base s k in
    let held : IsSound r.position.holding = rw (← ap (λ z. z.0) r.opened_eq) sound in
    let opened : IsSoundStore r.opened = rw (← ap (λ z. z.1) r.opened_eq) inside in
    let (same, costed) = holding_before_eq r.position.holding r.before r.before_eq in
    let before : IsSound r.before = record { nonneg = rw same held.nonneg; costed = costed } in
    let (quantity, _, _) = terms_of_eq x r.terms r.terms_eq in
    let after : IsSound r.after =
      holding_after-IsSound pf x.side r.accounts d.base d.quote r.terms r.before r.after
        r.with_accounts before (rw quantity q) r.after_eq in
    let db : IsBalanced r.with_accounts =
      open_accounts-IsBalanced pf d.races d.workspace d.target d.base d.quote r.opened.ledger
        r.accounts r.with_accounts w opened.balanced r.accounts_eq in
    let legs : IsBalanced r.legs =
      post_legs-IsBalanced pf d x.side r.with_accounts.next_id r.accounts r.terms _ r.legs
        (record { by_transaction = db.by_transaction; by_asset = db.by_asset }) r.legs_eq in
    rw r.store_eq (record {
      positions =
          write_position-IsSound r.position.id r.after r.opened.positions after opened.positions;
      trades = ((before, after), opened.trades);
      balanced = record { by_transaction = legs.by_transaction; by_asset = legs.by_asset };
    })

record_checked-IsSoundStore :
    (pf : Platform) (d : Deal) (x : TradeCreate) (s : Store) (t : SettledTrade) (s' : Store)
    → IsSoundStore s
    → pos 0 <ℤ x.quantity
    → AreBalanced d.races
    → record_checked pf d x s ≡ ok (t, s')
    → IsSoundStore s'
unfolding record_checked
record_checked-IsSoundStore pf d x s t s' k q w e =
    let (o, _, f) =
      bind_ok (find_existing d.workspace x.idempotency_key d.fingerprint s) _ (t, s') e in
    elim (Option-cases o) [
      | inl none_yet ↦ record_new-IsSoundStore pf d x s t s' k q w (ground (arith, f, none_yet))
      | inr (r, found) ↦ let same : s ≡ s' = ground (arith, f, found) in rw (← same) k
    ]

reverse_new-IsSoundStore :
    (pf : Platform) (t : SettledTrade) (actor : ℕ) (key fp reason : String) (s : Store)
    (r : SettledTrade) (s' : Store)
    → IsSoundStore s
    → IsSound t.before × IsSound t.after
    → reverse_new pf t actor key fp reason s ≡ ok (r, s')
    → IsSoundStore s'
reverse_new-IsSoundStore pf t actor key fp reason s r s' k (before, after) e =
    let u = reverse_new_ok pf t actor key fp reason s r s' e in
    let legs : IsBalanced u.legs =
      reverse_legs-IsBalanced pf actor s.ledger.next_id reason _ _ u.legs
        (record { by_transaction = k.balanced.by_transaction; by_asset = k.balanced.by_asset })
        u.legs_eq in
    rw u.store_eq (record {
      positions = write_position-IsSound u.position.id t.before s.positions before k.positions;
      trades = ((after, before), mark_trade-IsSound t.id s.trades k.trades);
      balanced = record { by_transaction = legs.by_transaction; by_asset = legs.by_asset };
    })

reverse_checked-IsSoundStore :
    (pf : Platform) (actor user ws trade_id : ℕ) (key reason : String) (s : Store)
    (r : SettledTrade) (s' : Store)
    → IsSoundStore s
    → reverse_checked pf actor user ws trade_id key reason s ≡ ok (r, s')
    → IsSoundStore s'
unfolding reverse_checked
reverse_checked-IsSoundStore pf actor user ws trade_id key reason s r s' k e =
    elim (Option-cases (find_first (is_trade_of trade_id ws user) s.trades)) [
      | inl f ↦ absurd (ground arith)
      | inr (t, f) ↦
          let fp = pf.reversal_digest trade_id reason in
          let sound = All-find_first _ (is_trade_of trade_id ws user) s.trades t k.trades f in
          let (o, _, g) =
            bind_ok (find_existing ws key fp s)
              (λ found. elim found [
                | some old ↦ ok (old, s)
                | none ↦ reverse_new pf t actor key fp reason s
              ])
              (r, s') (ground arith) in
          elim (Option-cases o) [
            | inl none_yet ↦
                reverse_new-IsSoundStore pf t actor key fp reason s r s' k sound
                  (ground (arith, g, none_yet))
            | inr (old, found) ↦ let same : s ≡ s' = ground (arith, g, found) in rw (← same) k
          ]
    ]

committed-IsSoundStore :
    (s : Store) (m : Result AccountingError (SettledTrade × Store))
    → IsSoundStore s
    → ((t : SettledTrade) (s' : Store) → m ≡ ok (t, s') → IsSoundStore s')
    → IsSoundStore (committed s m).1
committed-IsSoundStore s (err e) k f = k
committed-IsSoundStore s (ok (t, s')) k f = f t s' refl

deal_of-races :
    (pf : Platform) (dir : Directory) (actor : User) (target : ℕ) (x : TradeCreate) (races : Races)
    (d : Deal)
    → deal_of pf dir actor target x races ≡ ok d
    → races ≡ d.races
unfolding deal_of
deal_of-races pf dir actor target x races d e =
    let (z, _, f1) = bind_ok (find_target dir actor target) _ d e in
    let (base, _, f2) = bind_ok (normalize_asset pf x.base_asset) _ d f1 in
    let (quote, _, f3) = bind_ok (normalize_asset pf x.quote_asset) _ d f2 in
    let (_, _, f4) =
      bind_ok
        (raise_if (str_eq base quote) same_assets
          >> raise_if (ltb_ℤ x.fee_amount (pos 0)) negative_fee)
        _ d f3 in
    ap (λ z. z.races) (ok_injective _ _ f4)

pub record_trade-IsSoundStore :
    (pf : Platform) (dir : Directory) (actor : User) (target : ℕ) (x : TradeCreate) (races : Races)
    (s : Store)
    → IsSoundStore s
    → pos 0 <ℤ x.quantity
    → AreBalanced races
    → IsSoundStore (record_trade pf dir actor target x races s).1
unfolding record_trade
record_trade-IsSoundStore pf dir actor target x races s k q w =
    let new = λ (d : Deal). record_checked pf d x s in
    committed-IsSoundStore s (deal_of pf dir actor target x races >>= new) k λ t s' e.
      let (d, e1, f) = bind_ok (deal_of pf dir actor target x races) new (t, s') e in
      record_checked-IsSoundStore pf d x s t s' k q
        (rw (← deal_of-races pf dir actor target x races d e1) w) f

pub reverse_trade-IsSoundStore :
    (pf : Platform) (dir : Directory) (actor : User) (target trade_id : ℕ) (key reason : String)
    (s : Store)
    → IsSoundStore s
    → IsSoundStore (reverse_trade pf dir actor target trade_id key reason s).1
unfolding reverse_trade
reverse_trade-IsSoundStore pf dir actor target trade_id key reason s k =
    let undone =
      λ (z : User × Workspace). reverse_checked pf actor.id z.0.id z.1.id trade_id key reason s in
    committed-IsSoundStore s (find_target dir actor target >>= undone) k λ t s' e.
      let ((user, w), _, f) = bind_ok (find_target dir actor target) undone (t, s') e in
      reverse_checked-IsSoundStore pf actor.id user.id w.id trade_id key reason s t s' k f
