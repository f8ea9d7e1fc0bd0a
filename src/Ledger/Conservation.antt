-- ===== src/Ledger/Conservation.antt =====
-- The balance of the ledger's entries, by transaction and by asset, under the methods of
-- app/services/ledger.py.
use arima_executive_os.Common.{
  ◌<ℤ◌, ◌^◌, ℕ, ◌≡◌, refl, ap, ◌∙◌, ◌==◌, Bool, true, false, Option, none, some, List, [], ◌∷◌,
  ◌++◌, map, String, str_eq, eq_iff, ℤ, pos, ltb_ℤ, eqb_ℤ, eqb_ℤ_iff, leb_ℤ, any_of, is_empty, ◌&&◌,
  All, all_of, inl, inr, Bool-cases, Option-cases, add_zero_ℤ, sub_self_ℤ, Result, ok, err,
}
use arima_executive_os.Ledger.Tables.{
  debit, credit, Entry, LedgerLine, Db, Request, Runtime, AccountKind, Account, Transaction,
  LedgerError, customer,
}
use arima_executive_os.Ledger.Service.{
  entry_of, direction_total, one_asset, inserted, insert_rows, post_new, post, audit_actor,
  find_transaction, ledger_request_fingerprint, account, account_missing, find_account,
}
use arima_executive_os.Ledger.Movements.{
  sum_where, balance, bucket_amount, transfer_request, transfer_after, mark_after, find_by_id,
  is_posted, entries_of, reversal_request, Transfer, transfer_bucket, reverse,
}
use arima_executive_os.Decimals.{precision}
use arima_executive_os.Ledger.ReversalTotals.{reversal_adds_up}
use arima_executive_os.Ledger.Sums.{
  exact_total, direction_total-exact, sum_where-append, sum_where_every, sum_where-none,
}

abbrev pub net : (Entry → Bool) → Db → ℤ
net p db = sum_where p db.entries

pub record IsBalanced (db : Db) : Type 0 where
  pub by_transaction : (t : ℕ) → sum_where (λ e. e.transaction_id == t) db.entries ≡ pos 0
  pub by_asset : (a : String) → sum_where (λ e. str_eq e.asset a) db.entries ≡ pos 0

All-const {ℓ κ} : {A : Type ℓ} {P : Type κ} (xs : List A) → P → All (λ _. P) xs
All-const [] p = tt
All-const (x ∷ xs) p = (p, All-const xs p)

-- A test that takes all or none of the new entries keeps a sum of zero, if they balance.
sum_where-inserted :
    (rt : Runtime) (tid : ℕ) (p : Entry → Bool) (ls : List LedgerLine) (es : List Entry) (b : Bool)
    → All (λ l. p (entry_of rt tid l) ≡ b) ls
    → exact_total debit ls ≡ exact_total credit ls
    → sum_where p es ≡ pos 0
    → sum_where p (map (entry_of rt tid) ls ++ es) ≡ pos 0
sum_where-inserted rt tid p ls es true h e z =
    sum_where-append p (map (entry_of rt tid) ls) es
    ∙ cc (
      sum_where_every rt tid p ls h,
      z,
      e,
      sub_self_ℤ (exact_total credit ls),
      add_zero_ℤ (pos 0),
    )
sum_where-inserted rt tid p ls es false h e z =
    sum_where-append p (map (entry_of rt tid) ls) es
    ∙ cc (sum_where-none rt tid p ls h, z, add_zero_ℤ (pos 0))

and_left : (b c : Bool) → (b && c) ≡ true → b ≡ true
and_left true c h = refl
and_left false c h = h

and_right : (b c : Bool) → (b && c) ≡ true → c ≡ true
and_right true c h = h
and_right false c h = cc

same_asset :
    (rt : Runtime) (tid : ℕ) (a c : String) (ls : List LedgerLine)
    → all_of (λ m. str_eq (rt.upper m.asset) c) ls ≡ true
    → All (λ l. str_eq (entry_of rt tid l).asset a ≡ str_eq c a) ls
same_asset rt tid a c [] h = tt
same_asset rt tid a c (l ∷ ls) h = (
  ap (λ s. str_eq s a) ((eq_iff (rt.upper l.asset) c).0 (and_left _ _ h)),
  same_asset rt tid a c ls (and_right _ _ h),
)

inserted_lines-assets :
    (rt : Runtime) (tid : ℕ) (a : String) (ls : List LedgerLine)
    → one_asset rt ls ≡ true
    → (b : Bool) × All (λ l. str_eq (entry_of rt tid l).asset a ≡ b) ls
unfolding one_asset
inserted_lines-assets rt tid a [] h = (true, tt)
inserted_lines-assets rt tid a (l ∷ ls) h =
    (str_eq (rt.upper l.asset) a, (refl, same_asset rt tid a (rt.upper l.asset) ls h))

inserted-IsBalanced :
    (rt : Runtime) (r : Request) (fp : String) (actor : ℕ) (db : Db)
    → one_asset rt r.lines ≡ true
    → exact_total debit r.lines ≡ exact_total credit r.lines
    → IsBalanced db
    → IsBalanced (inserted rt r fp actor db)
inserted-IsBalanced rt r fp actor db one eq h = record {
  by_transaction = λ t.
      sum_where-inserted rt db.next_id _ r.lines db.entries (db.next_id == t)
        (All-const r.lines refl) eq (h.by_transaction t);
  by_asset = λ a.
      let (b, same) = inserted_lines-assets rt db.next_id a r.lines one in
      sum_where-inserted rt db.next_id _ r.lines db.entries b same eq (h.by_asset a);
}

-- What the code relies on of another session that wins a race: its database is balanced too.
abbrev pub RaceIsBalanced : Option Db → Type 0
RaceIsBalanced none = Unit
RaceIsBalanced (some db) = IsBalanced db

insert_rows-IsBalanced :
    (rt : Runtime) (race : Option Db) (r : Request) (fp : String) (db : Db)
    → one_asset rt r.lines ≡ true
    → exact_total debit r.lines ≡ exact_total credit r.lines
    → RaceIsBalanced race
    → IsBalanced db
    → IsBalanced (insert_rows rt race r fp db).1
unfolding insert_rows
insert_rows-IsBalanced rt none r fp db one eq w h = elim (Option-cases (audit_actor r)) [
  | inl e ↦ rw (e, insert_rows) h
  | inr (a, e) ↦ rw (e, insert_rows) (inserted-IsBalanced rt r fp a db one eq h)
]
insert_rows-IsBalanced rt (some d) r fp db one eq w h =
    elim (Option-cases (find_transaction r.workspace_id r.idempotency_key d)) [
      | inl e ↦ rw (e, insert_rows) w
      | inr (t, e) ↦ rw (e, insert_rows) w
    ]

-- Lines whose rounded totals agree only where the exact ones do.
abbrev pub AddsUp : List LedgerLine → Type 0
AddsUp ls =
    any_of (λ l. leb_ℤ l.amount (pos 0)) ls ≡ false
    → direction_total debit ls ≡ direction_total credit ls
    → exact_total debit ls ≡ exact_total credit ls

post_new-IsBalanced :
    (rt : Runtime) (race : Option Db) (r : Request) (fp : String) (db : Db)
    → AddsUp r.lines
    → RaceIsBalanced race
    → IsBalanced db
    → IsBalanced (post_new rt race r fp db).1
unfolding post_new
post_new-IsBalanced rt race r fp db up w h = elim (Bool-cases (one_asset rt r.lines)) [
  | inr e ↦ rw e h
  | inl one ↦ elim (Bool-cases (any_of (λ l. leb_ℤ l.amount (pos 0)) r.lines)) [
    | inl e ↦ rw (one, e) h
    | inr e ↦
        elim (Bool-cases (eqb_ℤ (direction_total debit r.lines) (direction_total credit r.lines))) [
          | inr f ↦ rw (one, e, f) h
          | inl f ↦
              let same = up e ((eqb_ℤ_iff _ _).0 f) in
              rw (one, e, f) (insert_rows-IsBalanced rt race r fp db one same w h)
        ]
  ]
]

pub post_adding_up :
    (rt : Runtime) (race : Option Db) (r : Request) (db : Db)
    → AddsUp r.lines
    → RaceIsBalanced race
    → IsBalanced db
    → IsBalanced (post rt race r db).1
unfolding post
post_adding_up rt race r db up w h = elim (Bool-cases (is_empty r.lines)) [
  | inl e ↦ rw (e, post) h
  | inr e ↦ elim (Option-cases (find_transaction r.workspace_id r.idempotency_key db)) [
    | inl f ↦
        rw (e, f, post) (post_new-IsBalanced rt race r (ledger_request_fingerprint rt r) db up w h)
    | inr (t, f) ↦ rw (e, f, post) h
  ]
]

-- Whether `post` succeeds, raises or loses a race to a session that leaves a balanced database, a
-- balanced database stays balanced, where the lines' exact debits and exact credits are below 10²⁸
-- units each. From there on `Decimal` rounds the two sums that are compared.
pub post-IsBalanced :
    (rt : Runtime) (race : Option Db) (r : Request) (db : Db)
    → exact_total debit r.lines <ℤ pos (10 ^ precision)
    → exact_total credit r.lines <ℤ pos (10 ^ precision)
    → RaceIsBalanced race
    → IsBalanced db
    → IsBalanced (post rt race r db).1
post-IsBalanced rt race r db wd wc w h =
    post_adding_up rt race r db
      (λ p e.
        rw (← direction_total-exact debit r.lines p wd, ← direction_total-exact credit r.lines p wc)
          e)
      w h

pub account-IsBalanced :
    (rt : Runtime) (race : Option Db) (ws : ℕ) (user : Option ℕ) (asset : String) (k : AccountKind)
    (db : Db)
    → RaceIsBalanced race
    → IsBalanced db
    → IsBalanced (account rt race ws user asset k db).1
unfolding account
account-IsBalanced rt race ws user asset k db w h =
    elim (Option-cases (find_account ws user (rt.upper asset) k db)) [
      | inr (a, e) ↦ rw (e, account) h
      | inl e ↦ rw (e, account) (by_race race w)
    ]
  where
    by_race :
        (c : Option Db) → RaceIsBalanced c → IsBalanced (account_missing rt c ws user asset k db).1
    by_race none w = record { by_transaction = h.by_transaction; by_asset = h.by_asset }
    by_race (some d) w = elim (Option-cases (find_account ws user (rt.upper asset) k d)) [
      | inl f ↦ rw (f, account_missing) w
      | inr (a, f) ↦ rw (f, account_missing) w
    ]

transfer-AddsUp : (x : Transfer) (a : ℕ) → AddsUp (transfer_request x a).lines
unfolding exact_total
transfer-AddsUp x a p e = refl

-- A transfer between buckets keeps a balanced database balanced, whatever its outcome, where the
-- sessions that win a race against it leave balanced databases.
pub transfer_bucket-IsBalanced :
    (rt : Runtime) (race_account race_post : Option Db) (x : Transfer) (db : Db)
    → RaceIsBalanced race_account
    → RaceIsBalanced race_post
    → IsBalanced db
    → IsBalanced (transfer_bucket rt race_account race_post x db).1
unfolding transfer_bucket
transfer_bucket-IsBalanced rt ra rp x db wa wp h = elim (Bool-cases (leb_ℤ x.amount (pos 0))) [
  | inl e ↦ rw e h
  | inr e ↦ rw e (
      go (account rt ra x.workspace_id (some x.user_id) x.asset customer db)
        (account-IsBalanced rt ra x.workspace_id (some x.user_id) x.asset customer db wa h))
]
  where
    go :
        (p : Result LedgerError Account × Db)
        → IsBalanced p.1
        → IsBalanced (transfer_after rt rp x p).1
    go (err e, d) k = k
    go (ok a, d) k =
        elim (Bool-cases
          (ltb_ℤ (bucket_amount x.source_bucket (balance rt a.id x.asset d)) x.amount)) [
            | inl f ↦ rw f k
            | inr f ↦
                rw f
                  (post_adding_up rt rp (transfer_request x a.id) d (transfer-AddsUp x a.id) wp k)
          ]

-- A reversal keeps a balanced database balanced, whatever its outcome, where a session that wins a
-- race against it leaves a balanced database.
pub reverse-IsBalanced :
    (rt : Runtime) (show_id : ℕ → String) (race : Option Db) (tid actor : ℕ) (key reason : String)
    (trade : Option ℕ) (db : Db)
    → RaceIsBalanced race
    → IsBalanced db
    → IsBalanced (reverse rt show_id race tid actor key reason trade db).1
unfolding reverse
reverse-IsBalanced rt show_id race tid actor key reason trade db w h =
    elim (Option-cases (find_by_id tid db)) [
      | inl e ↦ rw (e, reverse) h
      | inr (t, e) ↦ elim (Bool-cases (is_posted t.status)) [
        | inr f ↦ rw (e, reverse, f) h
        | inl f ↦ elim (Bool-cases (is_empty (entries_of tid db))) [
          | inl g ↦ rw (e, reverse, f, g) h
          | inr g ↦
              rw (e, reverse, f, g)
                (marked _ (
                  post_adding_up rt race
                    (reversal_request show_id t (entries_of tid db) actor key reason trade) db
                    (λ p s. reversal_adds_up db.entries tid (h.by_transaction tid)) w h))
        ]
      ]
    ]
  where
    marked :
        (p : Result LedgerError Transaction × Db) → IsBalanced p.1 → IsBalanced (mark_after tid p).1
    marked (err x, d) k = k
    marked (ok u, d) k = record { by_transaction = k.by_transaction; by_asset = k.by_asset }
