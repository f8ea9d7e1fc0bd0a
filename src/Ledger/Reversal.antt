-- ===== src/Ledger/Reversal.antt =====
-- `reverse` of app/services/ledger.py: what it does to the sums of entries, and when it comes again.
use arima_executive_os.Common.{
  ℕ, ◌≡◌, refl, ap, ◌∙◌, ◌==◌, Bool, false, Option, none, some, List, [], ◌∷◌, map, String, ℤ, pos,
  ◌+ℤ◌, ◌-ℤ◌, neg, All, inl, inr, Bool-cases, Option-cases, arith, int_laws, Result, ok, err,
  find_first,
}
use arima_executive_os.Ledger.Tables.{
  Bucket, debit, credit, Direction, Transaction, Entry, Db, LedgerError, not_reversible, Runtime,
}
use arima_executive_os.Ledger.Service.{entry_of, find_transaction, post}
use arima_executive_os.Ledger.Movements.{
  signed, sum_where, reversing_line, entries_of, find_by_id, reversal_request, mark_reversed,
  is_posted, mark_after, opposite, reverse,
}
use arima_executive_os.Ledger.Sums.{sum_where-append}
use arima_executive_os.Ledger.Idempotency.{post_ok}

-- A choice of entries by account, asset and bucket.
abbrev pub Choice : Type 0
Choice = ℕ → String → Bucket → Bool

abbrev pub chosen : Choice → Entry → Bool
chosen q e = q e.account_id e.asset e.bucket

signed-reversing :
    (rt : Runtime) (n : ℕ) (e : Entry) → signed (entry_of rt n (reversing_line e)) ≡ neg (signed e)
unfolding signed
signed-reversing rt n e = go e.direction e.amount
  where
    go :
        (d : Direction) (a : ℤ)
        → (elim (opposite d) [ credit ↦ a | debit ↦ neg a ])
          ≡ neg (elim d [ credit ↦ a | debit ↦ neg a ])
    go debit a = omega int_laws
    go credit a = refl

neg_add : (a b : ℤ) → neg a +ℤ neg b ≡ neg (a +ℤ b)
neg_add a b = omega int_laws

neg_zero : pos 0 ≡ neg (pos 0)
neg_zero = omega int_laws

neg_add_self : (a b : ℤ) → neg a +ℤ b ≡ b -ℤ a
neg_add_self a b = omega int_laws

sum_where-reversing :
    (rt : Runtime) (n : ℕ) (q : Choice) (es : List Entry)
    → All (λ e. rt.upper e.asset ≡ e.asset) es
    → sum_where (chosen q) (map (entry_of rt n) (map reversing_line es))
      ≡ neg (sum_where (chosen q) es)
unfolding sum_where
sum_where-reversing rt n q [] h = neg_zero
sum_where-reversing rt n q (e ∷ es) h = elim (Bool-cases (q e.account_id e.asset e.bucket)) [
  | inl c ↦
      rw (h.0, c)
        (cc (
          signed-reversing rt n e,
          sum_where-reversing rt n q es h.1,
          neg_add (signed e) (sum_where (chosen q) es),
        ))
  | inr c ↦ rw (h.0, c) (sum_where-reversing rt n q es h.1)
]

-- What a successful reversal has done.
pub record IsReversed (rt : Runtime) (show_id : ℕ → String) (race : Option Db) (tid actor : ℕ)
    (key reason : String) (trade : Option ℕ) (db : Db) (u : Transaction) (db' : Db) : Type 0 where
  pub original : Transaction
  pub after_post : Db
  pub original_eq : find_by_id tid db ≡ some original
  pub post_eq :
      post rt race (reversal_request show_id original (entries_of tid db) actor key reason trade) db
      ≡ (ok u, after_post)
  pub db_eq : db' ≡ record after_post { transactions = mark_reversed tid after_post.transactions }

mark_after_ok :
    (tid : ℕ) (p : Result LedgerError Transaction × Db) (u : Transaction) (db' : Db)
    → mark_after tid p ≡ (ok u, db')
    → (d : Db) × (p ≡ (ok u, d))
      × (db' ≡ record d { transactions = mark_reversed tid d.transactions })
mark_after_ok tid (err e, d) u db' h = absurd (ground arith)
mark_after_ok tid (ok v, d) u db' h = (d, ground arith, ground arith)

pub reverse_ok :
    (rt : Runtime) (show_id : ℕ → String) (race : Option Db) (tid actor : ℕ) (key reason : String)
    (trade : Option ℕ) (db : Db) (u : Transaction) (db' : Db)
    → reverse rt show_id race tid actor key reason trade db ≡ (ok u, db')
    → IsReversed rt show_id race tid actor key reason trade db u db'
unfolding reverse
reverse_ok rt show_id race tid actor key reason trade db u db' h =
    elim (Option-cases (find_by_id tid db)) [
      | inl e ↦ absurd (ground arith)
      | inr (t, e) ↦
          let request = reversal_request show_id t (entries_of tid db) actor key reason trade in
          let (d, p, q) = mark_after_ok tid (post rt race request db) u db' (ground arith) in
          record { original = t; after_post = d; original_eq = e; post_eq = p; db_eq = q }
    ]

-- A reversal that succeeds under a fresh key, with no race, takes out of every account, asset and
-- bucket exactly what the entries of the reversed transaction had put there, where their assets are
-- stored in upper case.
pub reverse-cancels :
    (rt : Runtime) (show_id : ℕ → String) (tid actor : ℕ) (key reason : String) (trade : Option ℕ)
    (db : Db) (t u : Transaction) (db' : Db) (q : Choice)
    → find_by_id tid db ≡ some t
    → find_transaction t.workspace_id key db ≡ none
    → All (λ e. rt.upper e.asset ≡ e.asset) (entries_of tid db)
    → reverse rt show_id none tid actor key reason trade db ≡ (ok u, db')
    → sum_where (chosen q) db'.entries
      ≡ sum_where (chosen q) db.entries -ℤ sum_where (chosen q) (entries_of tid db)
reverse-cancels rt show_id tid actor key reason trade db t u db' q found free up h =
    let r = reverse_ok rt show_id none tid actor key reason trade db u db' h in
    let same : r.original ≡ t = ground (arith, r.original_eq) in
    let p =
      post_ok rt (reversal_request show_id r.original (entries_of tid db) actor key reason trade) db
        u r.after_post (rw same free) r.post_eq in
    rw (r.db_eq, p.db_eq)
      (sum_where-append (chosen q)
          (map (entry_of rt db.next_id) (map reversing_line (entries_of tid db))) db.entries
        ∙ ap (λ s. s +ℤ sum_where (chosen q) db.entries)
            (sum_where-reversing rt db.next_id q (entries_of tid db) up)
        ∙ neg_add_self (sum_where (chosen q) (entries_of tid db)) (sum_where (chosen q) db.entries))

find-mark_reversed :
    (tid : ℕ) (ts : List Transaction) (t : Transaction)
    → find_first (λ x. x.id == tid) (mark_reversed tid ts) ≡ some t
    → is_posted t.status ≡ false
unfolding mark_reversed
find-mark_reversed tid [] t h = absurd (ground arith)
find-mark_reversed tid (x ∷ ts) t h = ground (arith, find-mark_reversed tid ts t)

-- A transaction is reversed at most once: after a reversal that succeeded, any further reversal of
-- the same transaction, under any key, is refused and changes nothing.
pub reverse-again :
    (rt : Runtime) (show_id : ℕ → String) (race race' : Option Db) (tid actor actor' : ℕ)
    (key key' reason reason' : String) (trade trade' : Option ℕ) (db : Db) (u : Transaction)
    (db' : Db)
    → reverse rt show_id race tid actor key reason trade db ≡ (ok u, db')
    → reverse rt show_id race' tid actor' key' reason' trade' db' ≡ (err not_reversible, db')
unfolding reverse
reverse-again rt show_id race race' tid actor actor' key key' reason reason' trade trade' db u db'
      h =
    let r = reverse_ok rt show_id race tid actor key reason trade db u db' h in
    elim (Option-cases (find_by_id tid db')) [
      | inl e ↦ rw (e, reverse)
      | inr (t, e) ↦
          let old : is_posted t.status ≡ false =
            find-mark_reversed tid r.after_post.transactions t (rw (← e, r.db_eq)) in
          rw (e, reverse, old)
    ]
