-- ===== src/Accounting/RoundTrip.antt =====
-- A trade of app/services/trade_accounting.py that is recorded and then reversed.
use arima_executive_os.Common.{
  ℕ, ◌+◌, ◌≡◌, refl, ap, ◌∙◌, ◌==◌, ==_refl, ◌&&◌, none, some, List, [], ◌∷◌, String, str_eq, arith,
  find_first, ok, ◌>>=◌, bind_ok,
}
use arima_executive_os.Identity.{User, Workspace, Directory}
use arima_executive_os.Ledger.Movements.{sum_where}
use arima_executive_os.Ledger.Balances.{HasOldEntries}
use arima_executive_os.Ledger.Reversal.{Choice, chosen}
use arima_executive_os.Accounting.Tables.{SettledTrade, Store, TradeCreate, Platform}
use arima_executive_os.Accounting.Service.{no_races, find_target, find_existing}
use arima_executive_os.Accounting.Record.{Deal, record_checked, deal_of, record_trade}
use arima_executive_os.Accounting.Reverse.{is_trade_of, reverse_checked, reverse_trade}
use arima_executive_os.Accounting.Outcomes.{IsRecorded, IsUndone, record_new_ok, reverse_new_ok}
use arima_executive_os.Accounting.Growth.{HasOldPositions, holding_of}
use arima_executive_os.Accounting.Legs.{HasFreshKeys, HasFreshUndoKeys, recorded_sums}
use arima_executive_os.Accounting.Parties.{
  committed_ok, find_target_same, deal_of_ok, undone_holding,
}

-- No trade has the idempotency key.
abbrev pub HasNoTrade : String → Store → Type 0
HasNoTrade key s = find_first (λ r. str_eq r.idempotency_key key) s.trades ≡ none

find_key-none :
    (ws : ℕ) (key : String) (ts : List SettledTrade)
    → find_first (λ r. str_eq r.idempotency_key key) ts ≡ none
    → find_first (λ r. r.workspace_id == ws && str_eq r.idempotency_key key) ts ≡ none
find_key-none ws key [] h = refl
find_key-none ws key (t ∷ ts) h = ground (arith, find_key-none ws key ts)

find_existing-none :
    (ws : ℕ) (key fp : String) (s : Store) → HasNoTrade key s → find_existing ws key fp s ≡ ok none
unfolding find_existing
find_existing-none ws key fp s h = rw (find_key-none ws key s.trades h, find_existing) refl

record_trade_ok :
    (pf : Platform) (dir : Directory) (actor : User) (target : ℕ) (x : TradeCreate) (s : Store)
    (t : SettledTrade) (s1 : Store)
    → HasNoTrade x.idempotency_key s
    → record_trade pf dir actor target x no_races s ≡ (ok t, s1)
    → (d : Deal) × (deal_of pf dir actor target x no_races ≡ ok d) × IsRecorded pf d x s t s1
unfolding record_trade record_checked
record_trade_ok pf dir actor target x s t s1 free e =
    let new = λ (d : Deal). record_checked pf d x s in
    let (d, e1, f1) =
      bind_ok (deal_of pf dir actor target x no_races) new (t, s1)
        (committed_ok s (deal_of pf dir actor target x no_races >>= new) t s1 e) in
    let absent = find_existing-none d.workspace x.idempotency_key d.fingerprint s free in
    (d, e1, record_new_ok pf d x s t s1 (ground (arith, f1, absent)))

reverse_trade_ok :
    (pf : Platform) (dir : Directory) (actor actor' : User) (target : ℕ) (key reason : String)
    (s1 : Store) (t u : SettledTrade) (s2 : Store) (ts : List SettledTrade) (user : User)
    (w : Workspace)
    → HasNoTrade key s1
    → s1.trades ≡ t ∷ ts
    → find_target dir actor target ≡ ok (user, w)
    → t.target_user_id ≡ user.id
    → t.workspace_id ≡ w.id
    → reverse_trade pf dir actor' target t.id key reason s1 ≡ (ok u, s2)
    → IsUndone pf t actor'.id key (pf.reversal_digest t.id reason) reason s1 u s2
unfolding reverse_trade reverse_checked
reverse_trade_ok pf dir actor actor' target key reason s1 t u s2 ts user w free newest place eu ew
      e =
    let undone =
      λ (z : User × Workspace). reverse_checked pf actor'.id z.0.id z.1.id t.id key reason s1 in
    let ((v, z), e1, f1) =
      bind_ok (find_target dir actor' target) undone (u, s2)
        (committed_ok s1 (find_target dir actor' target >>= undone) u s2 e) in
    let (same_user, same_workspace) =
      find_target_same dir actor actor' target user v w z place e1 in
    let ev : t.target_user_id ≡ v.id = eu ∙ ap (λ y. y.id) same_user in
    let ez : t.workspace_id ≡ z.id = ew ∙ ap (λ y. y.id) same_workspace in
    let absent = find_existing-none z.id key (pf.reversal_digest t.id reason) s1 free in
    let found : find_first (is_trade_of t.id z.id v.id) s1.trades ≡ some t =
      rw (newest, ← ev, ← ez, ==_refl t.id, ==_refl t.workspace_id, ==_refl t.target_user_id)
        refl in
    reverse_new_ok pf t actor'.id key (pf.reversal_digest t.id reason) reason s1 u s2
      (ground (arith, f1, absent, found))

-- A trade that is recorded under new keys and then reversed by whoever may act for the customer
-- leaves, with no other session in a race, the customer's position in the base asset as it was, and on every account, in every asset
-- and bucket, what was there before: where the keys of its postings are unused and differ, the two
-- assets are stored in upper case, and the identifiers in the ledger's entries and in the positions
-- have been given out.
pub record_trade-reverse_trade :
    (pf : Platform) (dir : Directory) (actor actor' : User) (target : ℕ) (x : TradeCreate)
    (key reason : String) (s : Store) (t : SettledTrade) (s1 : Store) (u : SettledTrade)
    (s2 : Store)
    → HasOldEntries s.ledger
    → HasOldPositions s
    → HasNoTrade x.idempotency_key s
    → HasNoTrade key s1
    → pf.ledger.upper t.base_asset ≡ t.base_asset
    → pf.ledger.upper t.quote_asset ≡ t.quote_asset
    → HasFreshKeys pf t.workspace_id t.id s.ledger
    → HasFreshUndoKeys pf t.workspace_id u.id (t.id + 1) (t.id + 2) s1.ledger
    → record_trade pf dir actor target x no_races s ≡ (ok t, s1)
    → reverse_trade pf dir actor' target t.id key reason s1 ≡ (ok u, s2)
    → (holding_of t.workspace_id t.target_user_id t.base_asset s2
        ≡ holding_of t.workspace_id t.target_user_id t.base_asset s)
      × ((q : Choice)
          → sum_where (chosen q) s2.ledger.entries ≡ sum_where (chosen q) s.ledger.entries)
record_trade-reverse_trade pf dir actor actor' target x key reason s t s1 u s2 entries positions
      free free' up_base up_quote k k' e f =
    let (d, e1, r) = record_trade_ok pf dir actor target x s t s1 free e in
    let (user, w, place, eu, ew, calm) = deal_of_ok pf dir actor target x no_races d e1 in
    let ws : t.workspace_id ≡ d.workspace = ap (λ z. z.workspace_id) r.trade_eq in
    let who : t.target_user_id ≡ d.target = ap (λ z. z.target_user_id) r.trade_eq in
    let base : t.base_asset ≡ d.base = ap (λ z. z.base_asset) r.trade_eq in
    let quote : t.quote_asset ≡ d.quote = ap (λ z. z.quote_asset) r.trade_eq in
    let fp = pf.reversal_digest t.id reason in
    let newest : s1.trades ≡ t ∷ r.opened.trades = rw (r.store_eq, r.trade_eq) refl in
    let done =
      reverse_trade_ok pf dir actor actor' target key reason s1 t u s2 r.opened.trades user w free'
        newest place (who ∙ eu) (ws ∙ ew) f in
    (
      rw (ws, who, base)
          (undone_holding pf d x s t s1 r positions actor'.id key fp reason u s2 done),
      λ q.
          recorded_sums pf d x s t s1 r calm actor'.id key fp reason u s2 q done entries
            (rw (← base) up_base) (rw (← quote) up_quote) (rw (← ws) k) (rw (← ws) k'),
    )
