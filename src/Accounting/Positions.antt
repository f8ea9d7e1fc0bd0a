-- ===== src/Accounting/Positions.antt =====
-- Positions in app/services/trade_accounting.py, through any sequence of recordings and reversals.
use arima_executive_os.Common.{
  ℕ, ◌≡◌, refl, ◌==◌, Bool, true, false, ◌&&◌, inl, inr, Bool-cases, arith, ℤ, pos, ltb_ℤ, ◌≤ℤ◌,
  ◌<ℤ◌, ok, Option, none, some, List, [], ◌∷◌, String, All, is_none, if◌then◌else◌, bind_ok,
  ok_injective,
}
use arima_executive_os.Ledger.Tables.{Db}
use arima_executive_os.Accounting.Decimals.{amount, minus, times, over}
use arima_executive_os.Accounting.Tables.{
  Side, buy, sell, Holding, PortfolioPosition, SettledTrade, TradeCreate, Platform,
}
use arima_executive_os.Accounting.Service.{
  quantized, quantized_cost, empty_holding, Terms, terms_of, holding_before, holding_bought,
  holding_sold, Accounts,
}
use arima_executive_os.Accounting.Record.{holding_after, write_position}
use arima_executive_os.Accounting.Reverse.{mark_trade}
use arima_executive_os.Accounting.Amounts.{quantized_eq, plus-nonneg, minus-nonneg}

-- A quantity is not negative, and has an average cost unless it is zero.
pub record IsSound (h : Holding) : Type 0 where
  pub nonneg : pos 0 ≤ℤ h.quantity
  pub costed : (ltb_ℤ (pos 0) h.quantity && is_none h.average_cost) ≡ false

pub empty-IsSound : IsSound empty_holding
empty-IsSound = record { nonneg = omega arith; costed = refl }

quantized_cost_eq : (o c : Option ℤ) → quantized_cost o ≡ ok c → c ≡ o
quantized_cost_eq none c e = ground arith
quantized_cost_eq (some x) c e =
    let (y, e1, f) = bind_ok (quantized (amount x)) _ c e in
    let same : y ≡ x = quantized_eq x y e1 in ground (arith, same)

pub holding_before_eq :
    (h h' : Holding)
    → holding_before h ≡ ok h'
    → (h' ≡ h) × ((ltb_ℤ (pos 0) h'.quantity && is_none h'.average_cost) ≡ false)
unfolding holding_before
holding_before_eq h h' e =
    let (q, e1, f1) = bind_ok (quantized (amount h.quantity)) _ h' e in
    let (c, e2, f2) = bind_ok (quantized_cost h.average_cost) _ h' f1 in
    let (r, e3, f3) = bind_ok (quantized (amount h.realized_pnl)) _ h' f2 in
    let same_cost : c ≡ h.average_cost = quantized_cost_eq h.average_cost c e2 in
    let same : q ≡ h.quantity = quantized_eq h.quantity q e1 in
    let same_realized : r ≡ h.realized_pnl = quantized_eq h.realized_pnl r e3 in
    (ground (arith, same, same_cost, same_realized), ground arith)

pub terms_of_eq :
    (x : TradeCreate) (t : Terms)
    → terms_of x ≡ ok t
    → (t.quantity ≡ x.quantity) × (t.price ≡ x.price) × (t.fee ≡ x.fee_amount)
unfolding terms_of
terms_of_eq x t e =
    let (q, e1, f1) = bind_ok (quantized (amount x.quantity)) _ t e in
    let (p, e2, f2) = bind_ok (quantized (amount x.price)) _ t f1 in
    let (c, e3, f3) = bind_ok (quantized (amount x.fee_amount)) _ t f2 in
    let (v, e4, f4) = bind_ok (quantized (times (amount q) (amount p))) _ t f3 in
    let same : q ≡ x.quantity = quantized_eq x.quantity q e1 in
    let same_price : p ≡ x.price = quantized_eq x.price p e2 in
    let same_fee : c ≡ x.fee_amount = quantized_eq x.fee_amount c e3 in
    ground (arith, same, same_price, same_fee)

costed_cases :
    (b : Bool) (c : Option ℤ) → is_none c ≡ false → (b && is_none (if b then c else none)) ≡ false
costed_cases true c h = h
costed_cases false c h = refl

holding_bought-IsSound :
    (t : Terms) (h h' : Holding)
    → IsSound h
    → pos 0 ≤ℤ t.quantity
    → holding_bought t h ≡ ok h'
    → IsSound h'
unfolding holding_bought
holding_bought-IsSound t h h' s q e =
    let (c, _, f) = bind_ok (quantized (over _ _)) _ h' e in
    let more = plus-nonneg h.quantity t.quantity s.nonneg q in
    rw (← ok_injective _ _ f) (record { nonneg = more; costed = ground arith })

holding_sold-IsSound :
    (pf : Platform) (t : Terms) (h : Holding)
    → IsSound h
    → t.quantity ≤ℤ h.quantity
    → pos 0 <ℤ t.quantity
    → IsSound (holding_sold pf t h)
unfolding holding_sold
holding_sold-IsSound pf t h s le q = record {
  nonneg = minus-nonneg h.quantity t.quantity le;
  costed = ground (
    arith,
    s.costed,
    costed_cases (ltb_ℤ (pos 0) (minus (amount h.quantity) (amount t.quantity)).coefficient)
        h.average_cost,
    positive,
  );
}
  where
    positive : ltb_ℤ (pos 0) h.quantity ≡ true
    positive = ground arith

pub holding_after-IsSound :
    (pf : Platform) (side : Side) (a : Accounts) (base quote : String) (t : Terms) (h h' : Holding)
    (db : Db)
    → IsSound h
    → pos 0 <ℤ t.quantity
    → holding_after pf side a base quote t h db ≡ ok h'
    → IsSound h'
unfolding holding_after
holding_after-IsSound pf buy a base quote t h h' db s q e =
    holding_bought-IsSound t h h' s (omega arith) (ground arith)
holding_after-IsSound pf sell a base quote t h h' db s q e =
    let enough : t.quantity ≤ℤ h.quantity = ground arith in
    let same : holding_sold pf t h ≡ h' = ground arith in
    rw (← same) (holding_sold-IsSound pf t h s enough q)

pub write_position-IsSound :
    (id : ℕ) (h : Holding) (ps : List PortfolioPosition)
    → IsSound h
    → All (λ p. IsSound p.holding) ps
    → All (λ p. IsSound p.holding) (write_position id h ps)
unfolding write_position
write_position-IsSound id h [] s k = tt
write_position-IsSound id h (p ∷ ps) s k = elim (Bool-cases (p.id == id)) [
  | inl e ↦ rw (e, write_position) (s, write_position-IsSound id h ps s k.1)
  | inr e ↦ rw (e, write_position) (k.0, write_position-IsSound id h ps s k.1)
]

pub mark_trade-IsSound :
    (id : ℕ) (ts : List SettledTrade)
    → All (λ t. IsSound t.before × IsSound t.after) ts
    → All (λ t. IsSound t.before × IsSound t.after) (mark_trade id ts)
unfolding mark_trade
mark_trade-IsSound id [] k = tt
mark_trade-IsSound id (t ∷ ts) k = elim (Bool-cases (t.id == id)) [
  | inl e ↦ rw (e, mark_trade) (k.0, mark_trade-IsSound id ts k.1)
  | inr e ↦ rw (e, mark_trade) (k.0, mark_trade-IsSound id ts k.1)
]
