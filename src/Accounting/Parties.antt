-- ===== src/Accounting/Parties.antt =====
-- The position of a trade in app/services/trade_accounting.py that is recorded and reversed, and the
-- parties to it.
use arima_executive_os.Common.{
  ℕ, ◌≡◌, ap, sym, ◌∙◌, inl, inr, Option-cases, Result-cases, none, some, String, str_eq, arith,
  ltb_ℤ, pos, Result, ok, err, bind_ok, ok_injective, raise_if, ◌>>◌,
}
use arima_executive_os.Identity.{User, Workspace, Directory, find_user, resolve}
use arima_executive_os.Withdrawal.Workspaces.{workspace_rows}
use arima_executive_os.Accounting.Tables.{
  Holding, PortfolioPosition, SettledTrade, Store, TradeCreate, AccountingError, Platform,
  same_assets, negative_fee,
}
use arima_executive_os.Accounting.Service.{
  Races, find_target, the_workspace, find_portfolio, find_position, normalize_asset,
}
use arima_executive_os.Accounting.Record.{Deal, deal_of, committed, set_holding, write_position}
use arima_executive_os.Accounting.Reverse.{existing_position}
use arima_executive_os.Accounting.Outcomes.{IsRecorded, IsUndone}
use arima_executive_os.Accounting.Positions.{holding_before_eq}
use arima_executive_os.Accounting.Growth.{
  HasOldPositions, existing_at, holding_of, held, open_position-holding, find-write_position,
}

pub committed_ok :
    (s : Store) (m : Result AccountingError (SettledTrade × Store)) (t : SettledTrade) (s' : Store)
    → committed s m ≡ (ok t, s')
    → m ≡ ok (t, s')
committed_ok s (err e) t s' h = absurd (ground arith)
committed_ok s (ok (r, z)) t s' h = ground arith

-- The position that is written is the one that is found again.
existing-write_position :
    (ws user : ℕ) (asset : String) (s s' : Store) (p : PortfolioPosition) (h : Holding)
    → existing_position ws user asset s ≡ some p
    → s'.portfolios ≡ s.portfolios
    → s'.positions ≡ write_position p.id h s.positions
    → existing_position ws user asset s' ≡ some (set_holding h p)
existing-write_position ws user asset s s' p h e ports rows =
    elim (Option-cases (find_portfolio ws user s)) [
      | inl f ↦ absurd (ground (arith, e, f))
      | inr (q, f) ↦
          let there : find_position q.id asset s ≡ some p = ground (arith, e, f) in
          existing_at ws user asset s' q (rw ports f)
          ∙ rw rows (find-write_position q.id asset h s.positions p there)
    ]

module _ (pf : Platform) (d : Deal) (x : TradeCreate) (s : Store) (t : SettledTrade) (s1 : Store)
    (r : IsRecorded pf d x s t s1) (old : HasOldPositions s) where
  opened_position :
      (existing_position d.workspace d.target d.base r.opened ≡ some r.position)
      × (r.position.holding ≡ holding_of d.workspace d.target d.base s)
  opened_position =
      let (there, same) = open_position-holding d.workspace d.target d.base s old in
      let e0 = ap (λ z. z.0) r.opened_eq in
      let e1 = ap (λ z. z.1) r.opened_eq in (rw (← e0, ← e1) there, rw (← e0) same)

  recorded_before : t.before ≡ holding_of d.workspace d.target d.base s
  recorded_before =
      ap (λ z. z.before) r.trade_eq
      ∙ (holding_before_eq r.position.holding r.before r.before_eq).0
      ∙ opened_position.1

  recorded_position :
      existing_position d.workspace d.target d.base s1 ≡ some (set_holding r.after r.position)
  recorded_position =
      existing-write_position d.workspace d.target d.base r.opened s1 r.position r.after
        opened_position.0 (ap (λ z. z.portfolios) r.store_eq) (ap (λ z. z.positions) r.store_eq)

  pub undone_holding :
      (actor : ℕ) (key fp reason : String) (u : SettledTrade) (s2 : Store)
      → IsUndone pf t actor key fp reason s1 u s2
      → holding_of d.workspace d.target d.base s2 ≡ holding_of d.workspace d.target d.base s
  undone_holding actor key fp reason u s2 w =
      let ws : t.workspace_id ≡ d.workspace = ap (λ z. z.workspace_id) r.trade_eq in
      let user : t.target_user_id ≡ d.target = ap (λ z. z.target_user_id) r.trade_eq in
      let base : t.base_asset ≡ d.base = ap (λ z. z.base_asset) r.trade_eq in
      let there : existing_position d.workspace d.target d.base s1 ≡ some w.position =
        rw (← ws, ← user, ← base) w.position_eq in
      ap held (
        existing-write_position d.workspace d.target d.base s1 s2 w.position t.before there
          (ap (λ z. z.portfolios) w.store_eq) (ap (λ z. z.positions) w.store_eq))
      ∙ recorded_before

find_target_parts :
    (dir : Directory) (actor : User) (target : ℕ) (u : User) (w : Workspace)
    → find_target dir actor target ≡ ok (u, w)
    → (find_user target dir ≡ some u)
      × (the_workspace (workspace_rows dir target dir.workspaces) ≡ ok w)
unfolding find_target
find_target_parts dir actor target u w e = elim (Option-cases (find_user target dir)) [
  | inl f ↦ absurd (ground arith)
  | inr (v, f) ↦ elim (Result-cases (the_workspace (workspace_rows dir target dir.workspaces))) [
    | inr (c, g) ↦ absurd (ground arith)
    | inl (z, g) ↦ elim (Result-cases (resolve dir actor z.id target none)) [
      | inr (c, k) ↦ absurd (ground arith)
      | inl (c, k) ↦ (ground arith, ground arith)
    ]
  ]
]

-- The customer and the workspace do not depend on who acts.
pub find_target_same :
    (dir : Directory) (a b : User) (target : ℕ) (u v : User) (w z : Workspace)
    → find_target dir a target ≡ ok (u, w)
    → find_target dir b target ≡ ok (v, z)
    → (u ≡ v) × (w ≡ z)
find_target_same dir a b target u v w z e f =
    let (eu, ew) = find_target_parts dir a target u w e in
    let (fv, fz) = find_target_parts dir b target v z f in
    (ground (arith, eu, fv), ok_injective _ _ (sym ew ∙ fz))

pub deal_of_ok :
    (pf : Platform) (dir : Directory) (actor : User) (target : ℕ) (x : TradeCreate) (races : Races)
    (d : Deal)
    → deal_of pf dir actor target x races ≡ ok d
    → (u : User) × (w : Workspace) × (find_target dir actor target ≡ ok (u, w))
      × (d.target ≡ u.id)
      × (d.workspace ≡ w.id)
      × (d.races ≡ races)
unfolding deal_of
deal_of_ok pf dir actor target x races d e =
    let ((u, w), e1, f1) = bind_ok (find_target dir actor target) _ d e in
    let (base, _, f2) = bind_ok (normalize_asset pf x.base_asset) _ d f1 in
    let (quote, _, f3) = bind_ok (normalize_asset pf x.quote_asset) _ d f2 in
    let (_, _, f4) =
      bind_ok
        (raise_if (str_eq base quote) same_assets
          >> raise_if (ltb_ℤ x.fee_amount (pos 0)) negative_fee)
        _ d f3 in
    let same = ok_injective _ _ f4 in
    (
      u,
      w,
      e1,
      ap (λ z. z.target) (sym same),
      ap (λ z. z.workspace) (sym same),
      ap (λ z. z.races) (sym same),
    )
