-- ===== src/Withdrawal/Transitions.antt =====
-- Which moves of a withdrawal succeed, and what a failed one leaves.
use arima_executive_os.Common.{
  ℕ, ◌≡◌, Bool, true, false, ◌⊎◌, some, String, inl, inr, Bool-cases, Option-cases, Result-cases,
  Unit-result, arith, ok, err,
}
use arima_executive_os.Ledger.Tables.{Db, Runtime}
use arima_executive_os.Identity.{
  User, Workspace, Directory, has_founder_control_access, find_workspace,
}
use arima_executive_os.Withdrawal.Tables.{
  State, transitions, has_state, is_enabled, WithdrawalRequest, CircuitBreaker, Store,
  OperationsError,
}
use arima_executive_os.Withdrawal.Service.{
  Texts, find_request, find_circuit, works_in, check_actor, needs_founder, is_approved, check_move,
  moved_request, moved_store, release, move, transition,
}

-- What a transition that succeeds has found and done.
pub record IsMoved (rt : Runtime) (texts : Texts) (id : ℕ) (target : State) (actor : User)
    (reason : String) (s : Store) (r' : WithdrawalRequest) (s' : Store) : Type 0 where
  pub request : WithdrawalRequest
  pub workspace : Workspace
  pub ledger : Db
  pub request_found : find_request id s ≡ some request
  pub workspace_found : find_workspace request.workspace_id s.directory ≡ some workspace
  pub allowed : has_state target (transitions request.state) ≡ true
  pub checked : check_move s request target actor ≡ ok tt
  pub released : release rt texts request target actor s.ledger ≡ ok ledger
  pub actor_entitled :
      ((actor.id ≡ request.user_id) × (works_in s.directory workspace actor.id ≡ true))
      ⊎ (has_founder_control_access s.directory actor ≡ true)
  pub request_eq : r' ≡ moved_request rt request target actor reason
  pub store_eq : s' ≡ moved_store rt request target actor reason ledger s

check_move-allowed :
    (s : Store) (r : WithdrawalRequest) (target : State) (actor : User)
    → check_move s r target actor ≡ ok tt
    → has_state target (transitions r.state) ≡ true
unfolding check_move
check_move-allowed s r target actor h = ground arith

check_actor-entitled :
    (d : Directory) (r : WithdrawalRequest) (w : Workspace) (actor : User) (c : Bool)
    → check_actor d r w actor c ≡ ok tt
    → ((actor.id ≡ r.user_id) × (works_in d w actor.id ≡ true))
      ⊎ (has_founder_control_access d actor ≡ true)
unfolding check_actor
check_actor-entitled d r w actor c h = ground arith

pub transition_ok :
    (rt : Runtime) (texts : Texts) (id : ℕ) (target : State) (actor : User) (reason : String)
    (c : Bool) (s : Store) (r' : WithdrawalRequest) (s' : Store)
    → transition rt texts id target actor reason c s ≡ (ok r', s')
    → IsMoved rt texts id target actor reason s r' s'
unfolding transition move
transition_ok rt texts id target actor reason c s r' s' h =
    elim (Option-cases (find_request id s)) [
      | inl e ↦ absurd (ground arith)
      | inr (r, e) ↦ elim (Option-cases (find_workspace r.workspace_id s.directory)) [
        | inl f ↦ absurd (ground arith)
        | inr (w, f) ↦ elim (Unit-result (check_actor s.directory r w actor c)) [
          | inr (x, g) ↦ absurd (ground arith)
          | inl g ↦ elim (Unit-result (check_move s r target actor)) [
            | inr (x, k) ↦ absurd (ground arith)
            | inl k ↦ elim (Result-cases (release rt texts r target actor s.ledger)) [
              | inr (x, l) ↦ absurd (ground arith)
              | inl (db, l) ↦ record {
                request = r;
                workspace = w;
                ledger = db;
                request_found = e;
                workspace_found = f;
                allowed = check_move-allowed s r target actor k;
                checked = k;
                released = l;
                actor_entitled = check_actor-entitled s.directory r w actor c g;
                request_eq = ground arith;
                store_eq = ground arith;
              }
            ]
          ]
        ]
      ]
    ]

-- What the state machine, the founder's control and the circuit breaker ask of a move.
pub record IsAllowed (s : Store) (r : WithdrawalRequest) (target : State) (actor : User)
    : Type 0 where
  pub by_machine : has_state target (transitions r.state) ≡ true
  pub by_founder :
      (needs_founder target ≡ false) ⊎ (has_founder_control_access s.directory actor ≡ true)
  pub by_circuit :
      (is_approved target ≡ false)
      ⊎ ((c : CircuitBreaker) × (find_circuit r.workspace_id s ≡ some c)
          × (is_enabled c.state ≡ true))

check_move_sound :
    (s : Store) (r : WithdrawalRequest) (target : State) (actor : User)
    → check_move s r target actor ≡ ok tt
    → IsAllowed s r target actor
unfolding check_move
check_move_sound s r target actor h = record {
  by_machine = ground arith;
  by_founder = ground arith;
  by_circuit = elim (Bool-cases (is_approved target)) [
    | inr e ↦ inl e
    | inl e ↦ elim (Option-cases (find_circuit r.workspace_id s)) [
      | inl f ↦ absurd (ground arith)
      | inr (c, f) ↦ inr (c, f, ground arith)
    ]
  ];
}

-- A transition that succeeds has found the request and follows an edge of the state machine; it is
-- by the request's own user or by a founder; approving, rejecting and blocking take a founder, and
-- approving takes an enabled circuit breaker of the request's workspace. The request that comes
-- back has the target state.
pub transition_sound :
    (rt : Runtime) (texts : Texts) (id : ℕ) (target : State) (actor : User) (reason : String)
    (c : Bool) (s : Store) (r' : WithdrawalRequest) (s' : Store)
    → transition rt texts id target actor reason c s ≡ (ok r', s')
    → (r : WithdrawalRequest) × (find_request id s ≡ some r)
      × IsAllowed s r target actor
      × ((actor.id ≡ r.user_id) ⊎ (has_founder_control_access s.directory actor ≡ true))
      × (r'.state ≡ target)
transition_sound rt texts id target actor reason c s r' s' h =
    let m = transition_ok rt texts id target actor reason c s r' s' h in
    (
      m.request,
      m.request_found,
      check_move_sound s m.request target actor m.checked,
      elim m.actor_entitled [ inl (own, _) ↦ inl own | inr founder ↦ inr founder ],
      rw m.request_eq,
    )

-- A transition that raises leaves the requests, the ledger and the audit trail as they were.
pub transition_error :
    (rt : Runtime) (texts : Texts) (id : ℕ) (target : State) (actor : User) (reason : String)
    (c : Bool) (s : Store) (e : OperationsError) (s' : Store)
    → transition rt texts id target actor reason c s ≡ (err e, s')
    → s' ≡ s
unfolding transition move
transition_error rt texts id target actor reason c s e s' h = ground arith
