-- ===== src/Ledger/Idempotency.antt =====
-- What a successful posting is, and how a repeated idempotency key is answered.
use arima_executive_os.Common.{
  ℕ, ◌≡◌, ==_refl, true, false, Option, none, some, [], ◌∷◌, String, str_eq, eq_refl, pos, leb_ℤ,
  eqb_ℤ, eqb_ℤ_iff, any_of, inl, inr, Bool-cases, Option-cases, is_empty, arith, ok, err,
  if◌then◌else◌,
}
use arima_executive_os.Ledger.Tables.{
  debit, credit, Value, text, Provenance, get, put, Transaction, Db, key_conflict, Request, Runtime,
}
use arima_executive_os.Ledger.Service.{
  direction_total, one_asset, inserted, new_transaction, insert_rows, post_new, post, audit_actor,
  find_transaction, ledger_request_fingerprint, check_replay,
}

-- A request whose key is free succeeds only by adding its own rows, and only if it names an audit
-- actor, has lines in one asset with positive amounts, and balances.
pub record IsPosted (rt : Runtime) (r : Request) (db : Db) (t : Transaction) (db' : Db)
    : Type 0 where
  pub actor : ℕ
  pub actor_eq : audit_actor r ≡ some actor
  pub transaction_eq : t ≡ new_transaction rt r (ledger_request_fingerprint rt r) db.next_id
  pub db_eq : db' ≡ inserted rt r (ledger_request_fingerprint rt r) actor db
  pub one : one_asset rt r.lines ≡ true
  pub positive : any_of (λ l. leb_ℤ l.amount (pos 0)) r.lines ≡ false
  pub balanced : direction_total debit r.lines ≡ direction_total credit r.lines

insert_rows_ok :
    (rt : Runtime) (r : Request) (fp : String) (db : Db) (t : Transaction) (db' : Db)
    → insert_rows rt none r fp db ≡ (ok t, db')
    → (actor : ℕ) × (audit_actor r ≡ some actor)
      × (t ≡ new_transaction rt r fp db.next_id)
      × (db' ≡ inserted rt r fp actor db)
unfolding insert_rows
insert_rows_ok rt r fp db t db' h = elim (Option-cases (audit_actor r)) [
  | inl e ↦ absurd (ground arith)
  | inr (a, e) ↦ (a, e, ground arith, ground arith)
]

pub post_ok :
    (rt : Runtime) (r : Request) (db : Db) (t : Transaction) (db' : Db)
    → find_transaction r.workspace_id r.idempotency_key db ≡ none
    → post rt none r db ≡ (ok t, db')
    → IsPosted rt r db t db'
unfolding post post_new
post_ok rt r db t db' free h =
    let fp = ledger_request_fingerprint rt r in
    let one : one_asset rt r.lines ≡ true = ground arith in
    let positive : any_of (λ l. leb_ℤ l.amount (pos 0)) r.lines ≡ false = ground arith in
    let total : eqb_ℤ (direction_total debit r.lines) (direction_total credit r.lines) ≡ true =
      ground arith in
    let (a, e, t_eq, db_eq) = insert_rows_ok rt r fp db t db' (ground arith) in
    record {
      actor = a;
      actor_eq = e;
      transaction_eq = t_eq;
      db_eq = db_eq;
      one = one;
      positive = positive;
      balanced = (eqb_ℤ_iff _ _).0 total;
    }

get-put_self : (k : String) (v : Value) (p : Provenance) → get k (put k v p) ≡ some v
get-put_self k v [] = rw (eq_refl k)
get-put_self k v ((j, w) ∷ p) = elim (Bool-cases (str_eq j k)) [
  | inl e ↦ rw (e, e)
  | inr e ↦ rw (e, e) (get-put_self k v p)
]

check_replay_of_get :
    (stored fp : String) (t : Transaction)
    → get "_idempotency_fingerprint" t.provenance ≡ some (text stored)
    → check_replay fp t ≡ (if str_eq stored fp then ok t else err key_conflict)
check_replay_of_get stored fp t e = rw (e, check_replay)

-- Once a request has been posted under a free key, any request with lines under that key and
-- workspace leaves the database as it is, and is answered from the posted transaction.
pub find-posted :
    (rt : Runtime) (r : Request) (db : Db) (t : Transaction) (db' : Db)
    → IsPosted rt r db t db'
    → find_transaction r.workspace_id r.idempotency_key db' ≡ some t
find-posted rt r db t db' p =
    rw (p.db_eq, p.transaction_eq, ==_refl r.workspace_id, eq_refl r.idempotency_key)

-- Once a request has been posted under a free key, any request with lines under that key and
-- workspace leaves the database as it is: it gets the posted transaction back if its fingerprint
-- is the same, and is refused as a conflict if it is another.
pub post-replay :
    (rt : Runtime) (race : Option Db) (r s : Request) (db : Db) (t : Transaction) (db' : Db)
    → find_transaction r.workspace_id r.idempotency_key db ≡ none
    → post rt none r db ≡ (ok t, db')
    → s.workspace_id ≡ r.workspace_id
    → s.idempotency_key ≡ r.idempotency_key
    → is_empty s.lines ≡ false
    → post rt race s db' ≡ (
      if str_eq (ledger_request_fingerprint rt r) (ledger_request_fingerprint rt s)
          then ok t
          else err key_conflict,
      db',
    )
unfolding post
post-replay rt race r s db t db' free h ew ek lines =
    let p = post_ok rt r db t db' free h in
    let found : find_transaction s.workspace_id s.idempotency_key db' ≡ some t =
      rw (ew, ek) (find-posted rt r db t db' p) in
    let stored : get "_idempotency_fingerprint" t.provenance
        ≡ some (text (ledger_request_fingerprint rt r)) =
      rw p.transaction_eq (get-put_self "_idempotency_fingerprint" _ r.provenance) in
    rw (lines, found, post, check_replay_of_get _ (ledger_request_fingerprint rt s) t stored)
