-- ===== src/Withdrawal/Once.antt =====
-- The releases of a request's funds over a sequence of calls of `transition` in
-- app/services/operations.py.
use arima_executive_os.Common.{
  ℕ, ◌+◌, ◌≤◌, ◌≡◌, ◌∙◌, refl, ◌==◌, Bool, true, false, ◌&&◌, none, some, List, [], ◌∷◌, String,
  inl, inr, Bool-cases, Option-cases, arith, Result, ok, err, if◌then◌else◌, find_first,
}
use arima_executive_os.Ledger.Tables.{Runtime}
use arima_executive_os.Identity.{User}
use arima_executive_os.Withdrawal.Tables.{
  State, rejected, cancelled, failed, transitions, has_state, WithdrawalRequest, Store,
  OperationsError,
}
use arima_executive_os.Withdrawal.Service.{
  Texts, find_request, write_request, releases, transition, moved_request,
}
use arima_executive_os.Withdrawal.Transitions.{IsMoved, transition_ok, transition_error}

-- One call of `transition`.
pub record Call : Type 0 where
  pub id : ℕ
  pub target : State
  pub actor : User
  pub reason : String
  pub require_context : Bool

abbrev pub succeeded : Result OperationsError WithdrawalRequest → Bool
succeeded (ok _) = true
succeeded (err _) = false

-- How many calls of a sequence have released the funds of the request `id`.
abbrev pub released_by : ℕ → Call → Result OperationsError WithdrawalRequest → ℕ
released_by id k r = if k.id == id && (succeeded r && releases k.target) then 1 else 0

unfoldable pub count_releases : Runtime → Texts → ℕ → List Call → Store → ℕ
count_releases rt texts id [] s = 0
count_releases rt texts id (k ∷ ks) s =
    let (r, s') = transition rt texts k.id k.target k.actor k.reason k.require_context s in
    released_by id k r + count_releases rt texts id ks s'

-- 1 if the request has ended with its funds released.
abbrev ended : ℕ → Store → ℕ
ended id s = elim (find_request id s) [ none ↦ 0 | some r ↦ if releases r.state then 1 else 0 ]

find-write :
    (id : ℕ) (r : WithdrawalRequest) (xs : List WithdrawalRequest) (x : WithdrawalRequest)
    → find_first (λ y. y.id == id) xs ≡ some x
    → find_first (λ y. y.id == id) (write_request r xs) ≡ some (if r.id == id then r else x)
unfolding write_request
find-write id r [] x h = absurd (ground arith)
find-write id r (y ∷ ys) x h = ground (arith, find-write id r ys x)

find-write_none :
    (id : ℕ) (r : WithdrawalRequest) (xs : List WithdrawalRequest)
    → find_first (λ y. y.id == id) xs ≡ none
    → find_first (λ y. y.id == id) (write_request r xs) ≡ none
unfolding write_request
find-write_none id r [] h = refl
find-write_none id r (y ∷ ys) h = ground (arith, find-write_none id r ys)

find-id :
    (id : ℕ) (xs : List WithdrawalRequest) (x : WithdrawalRequest)
    → find_first (λ y. y.id == id) xs ≡ some x
    → x.id ≡ id
find-id id [] x h = absurd (ground arith)
find-id id (y ∷ ys) x h = ground (arith, find-id id ys x)

-- A state that has a way out is not one that ends with a release.
open_state : (s t : State) → has_state t (transitions s) ≡ true → releases s ≡ false
open_state rejected t h = cc
open_state cancelled t h = cc
open_state failed t h = cc
open_state _ t h = refl

-- A successful move of the request itself.
ended_self :
    (rt : Runtime) (texts : Texts) (id : ℕ) (target : State) (actor : User) (reason : String)
    (s : Store) (r' : WithdrawalRequest) (s' : Store)
    → IsMoved rt texts id target actor reason s r' s'
    → (ended id s ≡ 0) × (ended id s' ≡ (if releases target then 1 else 0))
ended_self rt texts id target actor reason s r' s' m =
    let same : m.request.id ≡ id = find-id id s.requests m.request m.request_found in
    let now : find_request id s' ≡ some (moved_request rt m.request target actor reason) =
      rw m.store_eq (
        find-write id (moved_request rt m.request target actor reason) s.requests m.request
          m.request_found
        ∙ ground (arith, same)) in
    (rw (m.request_found, ended, open_state m.request.state target m.allowed), rw (now, ended))

-- A successful move of another request.
ended-other :
    (rt : Runtime) (texts : Texts) (id j : ℕ) (target : State) (actor : User) (reason : String)
    (s : Store) (r' : WithdrawalRequest) (s' : Store)
    → IsMoved rt texts j target actor reason s r' s'
    → (j == id) ≡ false
    → find_request id s' ≡ find_request id s
ended-other rt texts id j target actor reason s r' s' m ne =
    let same : m.request.id ≡ j = find-id j s.requests m.request m.request_found in
    let r = moved_request rt m.request target actor reason in
    elim (Option-cases (find_request id s)) [
      | inl e ↦ rw (m.store_eq, e) (find-write_none id r s.requests e)
      | inr (x, e) ↦ rw (m.store_eq, e) (find-write id r s.requests x e ∙ ground (arith, same))
    ]

released_by-le :
    (id : ℕ) (k : Call) (r : WithdrawalRequest) (before after : ℕ)
    → before ≡ 0
    → after ≡ (if releases k.target then 1 else 0)
    → released_by id k (ok r) + before ≤ after
released_by-le id k r before after hb ha = rw (hb, ha) (go (k.id == id) (releases k.target))
  where
    go : (a b : Bool) → (if a && b then 1 else 0) + 0 ≤ (if b then 1 else 0)
    go true true = omega arith
    go true false = omega arith
    go false true = omega arith
    go false false = omega arith

step-ended :
    (rt : Runtime) (texts : Texts) (id : ℕ) (k : Call) (s : Store)
    (p : Result OperationsError WithdrawalRequest × Store)
    → transition rt texts k.id k.target k.actor k.reason k.require_context s ≡ p
    → released_by id k p.0 + ended id s ≤ ended id p.1
step-ended rt texts id k s (err e, s') h =
    let same =
      transition_error rt texts k.id k.target k.actor k.reason k.require_context s e s' h in
    rw same (ground arith)
step-ended rt texts id k s (ok r', s') h =
    let m = transition_ok rt texts k.id k.target k.actor k.reason k.require_context s r' s' h in
    elim (Bool-cases (k.id == id)) [
      | inl e ↦
          let same : k.id ≡ id = ground arith in
          let here : IsMoved rt texts id k.target k.actor k.reason s r' s' = rw same at m in
          let (before, after) = ended_self rt texts id k.target k.actor k.reason s r' s' here in
          released_by-le id k r' (ended id s) (ended id s') before after
      | inr e ↦
          let both = ended-other rt texts id k.id k.target k.actor k.reason s r' s' m e in
          rw (e, both, ended) (omega arith)
    ]

ended-le-one : (id : ℕ) (s : Store) → ended id s ≤ 1
ended-le-one id s = ground arith

releases-ended :
    (rt : Runtime) (texts : Texts) (id : ℕ) (ks : List Call) (s : Store)
    → count_releases rt texts id ks s + ended id s ≤ 1
unfolding count_releases
releases-ended rt texts id [] s = omega (arith, ended-le-one id s)
releases-ended rt texts id (k ∷ ks) s =
    let p = transition rt texts k.id k.target k.actor k.reason k.require_context s in
    omega (arith, step-ended rt texts id k s p refl, releases-ended rt texts id ks p.1)

-- Whatever calls of `transition` follow one another, by any actors and on any requests, the funds
-- of one request are released at most once.
pub release_once :
    (rt : Runtime) (texts : Texts) (id : ℕ) (ks : List Call) (s : Store)
    → count_releases rt texts id ks s ≤ 1
release_once rt texts id ks s = omega (arith, releases-ended rt texts id ks s)
