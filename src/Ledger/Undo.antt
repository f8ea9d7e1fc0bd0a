-- ===== src/Ledger/Undo.antt =====
-- Two postings and their reversals by `reverse` of app/services/ledger.py, as the two legs of a
-- trade are posted and taken back.
use arima_executive_os.Common.{
  ℕ, ◌+◌, ◌≤◌, ◌<◌, ◌≡◌, ◌≢◌, refl, ap, ◌∙◌, ◌==◌, Bool, false, Option, none, some, List, [], ◌∷◌,
  ◌++◌, map, String, str_eq, ℤ, ◌+ℤ◌, ◌-ℤ◌, All, arith, int_laws, ok, find_first, keep,
}
use arima_executive_os.Ledger.Tables.{Transaction, Entry, LedgerLine, Db, Request, Runtime}
use arima_executive_os.Ledger.Service.{entry_of, find_transaction, has_key}
use arima_executive_os.Ledger.Movements.{
  sum_where, reversing_line, entries_of, find_by_id, reversal_request, mark_reversed, reverse,
}
use arima_executive_os.Ledger.Sums.{sum_where-append}
use arima_executive_os.Ledger.Idempotency.{IsPosted, post_ok}
use arima_executive_os.Ledger.Balances.{HasOldEntries}
use arima_executive_os.Ledger.Reversal.{Choice, chosen, reverse_ok, reverse-cancels}

keep-append : (p : Entry → Bool) (xs ys : List Entry) → keep p (xs ++ ys) ≡ keep p xs ++ keep p ys
keep-append p [] ys = refl
keep-append p (x ∷ xs) ys = ground (arith, keep-append p xs ys)

keep-own :
    (rt : Runtime) (n : ℕ) (ls : List LedgerLine)
    → keep (λ e. e.transaction_id == n) (map (entry_of rt n) ls) ≡ map (entry_of rt n) ls
keep-own rt n [] = refl
keep-own rt n (l ∷ ls) = ground (arith, keep-own rt n ls)

keep-other :
    (rt : Runtime) (m n : ℕ) (ls : List LedgerLine)
    → m ≢ n
    → keep (λ e. e.transaction_id == n) (map (entry_of rt m) ls) ≡ []
keep-other rt m n [] d = refl
keep-other rt m n (l ∷ ls) d = ground (arith, keep-other rt m n ls d)

keep-old :
    (n : ℕ) (es : List Entry)
    → All (λ e. e.transaction_id < n) es
    → keep (λ e. e.transaction_id == n) es ≡ []
keep-old n [] h = refl
keep-old n (e ∷ es) h = ground (arith, keep-old n es h.1)

-- What a reversal that succeeds under a fresh key adds and marks.
reverse_rows :
    (rt : Runtime) (show_id : ℕ → String) (tid actor : ℕ) (key reason : String) (trade : Option ℕ)
    (db : Db) (t u : Transaction) (db' : Db)
    → find_by_id tid db ≡ some t
    → find_transaction t.workspace_id key db ≡ none
    → reverse rt show_id none tid actor key reason trade db ≡ (ok u, db')
    → (db'.entries
        ≡ map (entry_of rt db.next_id) (map reversing_line (entries_of tid db)) ++ db.entries)
      × (db'.transactions ≡ mark_reversed tid (u ∷ db.transactions))
      × (u.id ≡ db.next_id)
      × (u.workspace_id ≡ t.workspace_id)
      × (u.idempotency_key ≡ key)
reverse_rows rt show_id tid actor key reason trade db t u db' found free h =
    let r = reverse_ok rt show_id none tid actor key reason trade db u db' h in
    let same : r.original ≡ t = ground (arith, r.original_eq) in
    let p =
      post_ok rt (reversal_request show_id r.original (entries_of tid db) actor key reason trade) db
        u r.after_post (rw same free) r.post_eq in
    (
      rw (r.db_eq, p.db_eq) refl,
      rw (r.db_eq, p.db_eq, p.transaction_eq) refl,
      rw p.transaction_eq refl,
      rw p.transaction_eq (ap (λ o. o.workspace_id) same),
      rw p.transaction_eq refl,
    )

find-mark_other :
    (n m : ℕ) (ts : List Transaction) (t : Transaction)
    → m ≢ n
    → find_first (λ x. x.id == m) ts ≡ some t
    → find_first (λ x. x.id == m) (mark_reversed n ts) ≡ some t
unfolding mark_reversed
find-mark_other n m [] t d h = absurd (ground arith)
find-mark_other n m (x ∷ ts) t d h = ground (arith, find-mark_other n m ts t d)

key-mark :
    (n ws : ℕ) (key : String) (ts : List Transaction)
    → find_first (has_key ws key) ts ≡ none
    → find_first (has_key ws key) (mark_reversed n ts) ≡ none
unfolding mark_reversed
key-mark n ws key [] h = refl
key-mark n ws key (x ∷ ts) h = ground (arith, key-mark n ws key ts)

append_nil : (xs : List Entry) → xs ++ [] ≡ xs
append_nil [] = refl
append_nil (x ∷ xs) = ap (λ ys. x ∷ ys) (append_nil xs)

-- The entries of two postings, one after the other, on top of older ones.
abbrev pair_rows : Runtime → ℕ → List LedgerLine → List LedgerLine → List Entry → List Entry
pair_rows rt n ls ms es = map (entry_of rt (n + 1)) ms ++ (map (entry_of rt n) ls ++ es)

pair_rows-first :
    (rt : Runtime) (n : ℕ) (ls ms : List LedgerLine) (es : List Entry)
    → All (λ e. e.transaction_id < n) es
    → keep (λ e. e.transaction_id == n) (pair_rows rt n ls ms es) ≡ map (entry_of rt n) ls
pair_rows-first rt n ls ms es h =
    let p = λ (e : Entry). e.transaction_id == n in
    rw
      (
        keep-append p (map (entry_of rt (n + 1)) ms) (map (entry_of rt n) ls ++ es),
        keep-append p (map (entry_of rt n) ls) es,
        keep-other rt (n + 1) n ms (omega arith),
        keep-own rt n ls,
        keep-old n es h,
      )
      (append_nil (map (entry_of rt n) ls))

All-weaken :
    (n : ℕ) (es : List Entry)
    → All (λ e. e.transaction_id < n) es
    → All (λ e. e.transaction_id < n + 1) es
All-weaken n [] h = tt
All-weaken n (e ∷ es) h = (omega (arith, h.0), All-weaken n es h.1)

pair_rows-second :
    (rt : Runtime) (n : ℕ) (ls ms : List LedgerLine) (es : List Entry)
    → All (λ e. e.transaction_id < n) es
    → keep (λ e. e.transaction_id == n + 1) (pair_rows rt n ls ms es) ≡ map (entry_of rt (n + 1)) ms
pair_rows-second rt n ls ms es h =
    let p = λ (e : Entry). e.transaction_id == n + 1 in
    rw
      (
        keep-append p (map (entry_of rt (n + 1)) ms) (map (entry_of rt n) ls ++ es),
        keep-append p (map (entry_of rt n) ls) es,
        keep-own rt (n + 1) ms,
        keep-other rt n (n + 1) ls (omega arith),
        keep-old (n + 1) es (All-weaken n es h),
      )
      (append_nil (map (entry_of rt (n + 1)) ms))

-- Upper-case assets, where `str.upper` leaves the lines' assets alone the second time.
abbrev pub IsUpper : Runtime → List LedgerLine → Type 0
IsUpper rt ls = All (λ l. rt.upper (rt.upper l.asset) ≡ rt.upper l.asset) ls

upper_entries :
    (rt : Runtime) (n : ℕ) (ls : List LedgerLine)
    → IsUpper rt ls
    → All (λ e. rt.upper e.asset ≡ e.asset) (map (entry_of rt n) ls)
upper_entries rt n [] h = tt
upper_entries rt n (l ∷ ls) h = (h.0, upper_entries rt n ls h.1)

-- Two postings under fresh keys, and the database that a caller goes on with.
pub record IsPair (rt : Runtime) (r1 r2 : Request) (db : Db) (t1 t2 : Transaction) (d : Db)
    : Type 0 where
  pub old : HasOldEntries db
  pub between : Db
  pub after : Db
  pub first : IsPosted rt r1 db t1 between
  pub second : IsPosted rt r2 between t2 after
  pub entries_eq : d.entries ≡ after.entries
  pub transactions_eq : d.transactions ≡ after.transactions
  pub later : after.next_id ≤ d.next_id

pair_entries :
    (rt : Runtime) (r1 r2 : Request) (db : Db) (t1 t2 : Transaction) (d : Db)
    → IsPair rt r1 r2 db t1 t2 d
    → d.entries ≡ pair_rows rt db.next_id r1.lines r2.lines db.entries
pair_entries rt r1 r2 db t1 t2 d p = p.entries_eq ∙ rw (p.second.db_eq, p.first.db_eq) refl

pub pair_transactions :
    (rt : Runtime) (r1 r2 : Request) (db : Db) (t1 t2 : Transaction) (d : Db)
    → IsPair rt r1 r2 db t1 t2 d
    → (d.transactions ≡ t2 ∷ t1 ∷ db.transactions)
      × (t1.id ≡ db.next_id)
      × (t2.id ≡ db.next_id + 1)
      × (db.next_id + 2 ≤ d.next_id)
      × (t1.workspace_id ≡ r1.workspace_id)
      × (t2.workspace_id ≡ r2.workspace_id)
pair_transactions rt r1 r2 db t1 t2 d p =
    let e1 = p.first.transaction_eq in
    let e2 = p.second.transaction_eq in
    let n1 : p.between.next_id ≡ db.next_id + 1 = rw p.first.db_eq refl in
    let n2 : p.after.next_id ≡ p.between.next_id + 1 = rw p.second.db_eq refl in
    (
      p.transactions_eq ∙ rw (p.second.db_eq, p.first.db_eq, ← e1) (rw (e2, p.first.db_eq) refl),
      rw e1 refl,
      rw (e2, p.first.db_eq) refl,
      omega (arith, p.later, n1, n2),
      rw e1 refl,
      rw e2 refl,
    )

find_second :
    (t u : Transaction) (ts : List Transaction)
    → u.id ≢ t.id
    → find_first (λ x. x.id == t.id) (u ∷ t ∷ ts) ≡ some t
find_second t u ts d = ground arith

find_head :
    (t : Transaction) (ts : List Transaction) → find_first (λ x. x.id == t.id) (t ∷ ts) ≡ some t
find_head t ts = ground arith

find_tail :
    (u t : Transaction) (n : ℕ) (ts : List Transaction)
    → u.id ≢ n
    → find_first (λ x. x.id == n) ts ≡ some t
    → find_first (λ x. x.id == n) (u ∷ ts) ≡ some t
find_tail u t n ts d h = ground arith

pub key_tail :
    (ws : ℕ) (key : String) (u : Transaction) (ts : List Transaction)
    → str_eq u.idempotency_key key ≡ false
    → find_first (has_key ws key) ts ≡ none
    → find_first (has_key ws key) (u ∷ ts) ≡ none
key_tail ws key u ts d h = ground arith

sum_pair : (a b c : ℤ) → a +ℤ (b +ℤ c) -ℤ b -ℤ a ≡ c
sum_pair a b c = omega int_laws

-- Where two postings have been made under fresh keys, and their reversals succeed under fresh and
-- different keys, every account, asset and bucket holds again what it held before.
pub undo_both :
    (rt : Runtime) (show_id : ℕ → String) (r1 r2 : Request) (db : Db) (t1 t2 : Transaction) (d : Db)
    (actor : ℕ) (key1 key2 reason : String) (trade : Option ℕ) (u1 u2 : Transaction) (d1 d2 : Db)
    (q : Choice)
    → IsPair rt r1 r2 db t1 t2 d
    → IsUpper rt r1.lines
    → IsUpper rt r2.lines
    → find_transaction t1.workspace_id key1 d ≡ none
    → find_transaction t2.workspace_id key2 d ≡ none
    → str_eq key1 key2 ≡ false
    → reverse rt show_id none t1.id actor key1 reason trade d ≡ (ok u1, d1)
    → reverse rt show_id none t2.id actor key2 reason trade d1 ≡ (ok u2, d2)
    → sum_where (chosen q) d2.entries ≡ sum_where (chosen q) db.entries
undo_both rt show_id r1 r2 db t1 t2 d actor key1 key2 reason trade u1 u2 d1 d2 q p up1 up2 free1
      free2 apart h1 h2 =
    let n = db.next_id in
    let es = pair_entries rt r1 r2 db t1 t2 d p in
    let (ts, i1, i2, more, w1, w2) = pair_transactions rt r1 r2 db t1 t2 d p in
    let found1 : find_by_id t1.id d ≡ some t1 =
      rw ts (find_second t1 t2 db.transactions (omega arith)) in
    let found2 : find_by_id t2.id d ≡ some t2 = rw ts (find_head t2 (t1 ∷ db.transactions)) in
    let (es1, ts1, i3, w3, k3) =
      reverse_rows rt show_id t1.id actor key1 reason trade d t1 u1 d1 found1 free1 h1 in
    let mine1 : entries_of t1.id d ≡ map (entry_of rt n) r1.lines =
      rw (i1, es) (pair_rows-first rt n r1.lines r2.lines db.entries p.old) in
    let mine2 : entries_of t2.id d1 ≡ map (entry_of rt (n + 1)) r2.lines =
      rw
        (
          i2,
          es1,
          keep-append (λ e. e.transaction_id == n + 1)
              (map (entry_of rt d.next_id) (map reversing_line (entries_of t1.id d))) d.entries,
          keep-other rt d.next_id (n + 1) (map reversing_line (entries_of t1.id d)) (omega arith),
          es,
        )
        (pair_rows-second rt n r1.lines r2.lines db.entries p.old) in
    let found3 : find_by_id t2.id d1 ≡ some t2 = rw ts1 (
      find-mark_other t1.id t2.id (u1 ∷ d.transactions) t2 (omega arith)
        (find_tail u1 t2 t2.id d.transactions (omega arith) found2)) in
    let free3 : find_transaction t2.workspace_id key2 d1 ≡ none = rw ts1 (
      key-mark t1.id t2.workspace_id key2 (u1 ∷ d.transactions)
        (key_tail t2.workspace_id key2 u1 d.transactions (rw k3 apart) free2)) in
    let cancel1 =
      reverse-cancels rt show_id t1.id actor key1 reason trade d t1 u1 d1 q found1 free1
        (rw mine1 (upper_entries rt n r1.lines up1)) h1 in
    let cancel2 =
      reverse-cancels rt show_id t2.id actor key2 reason trade d1 t2 u2 d2 q found3 free3
        (rw mine2 (upper_entries rt (n + 1) r2.lines up2)) h2 in
    cancel2
    ∙ rw
        (
          cancel1,
          mine2,
          mine1,
          es,
          sum_where-append (chosen q) (map (entry_of rt (n + 1)) r2.lines)
              (map (entry_of rt n) r1.lines ++ db.entries),
          sum_where-append (chosen q) (map (entry_of rt n) r1.lines) db.entries,
        )
        (sum_pair _ _ (sum_where (chosen q) db.entries))
