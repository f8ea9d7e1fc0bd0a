-- ===== src/Withdrawal/Circuit.antt =====
-- `WithdrawalService.change_circuit` of app/services/operations.py, with the initialising call of
-- `_circuit`, and its effect on withdrawals.
use arima_executive_os.Common.{
  ℕ, ◌+◌, ◌≡◌, refl, ◌∙◌, ap, ◌==◌, ==_refl, Bool, true, false, ◌&&◌, not, none, some, List, [],
  ◌∷◌, String, inl, inr, arith, if◌then◌else◌, find_first, Result, ok, err,
}
use arima_executive_os.Ledger.Tables.{Runtime}
use arima_executive_os.Identity.{
  User, Workspace, has_founder_control_access, find_workspace, resolve,
}
use arima_executive_os.Withdrawal.Tables.{
  CircuitState, is_enabled, approved, CircuitBreaker, WithdrawalRequest, Store, OperationsError,
  workspace_unavailable, context_denied, founder_required,
}
use arima_executive_os.Withdrawal.Service.{Texts, find_circuit, add_audit, transition}
use arima_executive_os.Withdrawal.Transitions.{transition_sound}

-- Writes the row of that workspace, or adds it.
unfoldable pub write_circuit : CircuitBreaker → List CircuitBreaker → List CircuitBreaker
write_circuit c [] = c ∷ []
write_circuit c (x ∷ xs) =
    if x.workspace_id == c.workspace_id then c ∷ xs else x ∷ write_circuit c xs

-- The identifier of the row: that of the existing one, or the next free one.
abbrev pub circuit_id : ℕ → Store → ℕ
circuit_id ws s = elim (find_circuit ws s) [ none ↦ s.ledger.next_id | some c ↦ c.id ]

abbrev pub next_id_after : ℕ → Store → ℕ
next_id_after ws s = elim (find_circuit ws s) [
  | none ↦ s.ledger.next_id + 1
  | some c ↦ s.ledger.next_id
]

abbrev pub changed_circuit : Runtime → ℕ → ℕ → CircuitState → String → User → CircuitBreaker
changed_circuit rt id ws state reason actor = record {
  id = id;
  workspace_id = ws;
  state = state;
  reason = some reason;
  changed_by_id = some actor.id;
  changed_at = rt.now;
}

-- An authoritative context is required and `resolve` refuses it, for the workspace's owner.
abbrev pub circuit_refused : Bool → User → ℕ → Workspace → Store → Bool
circuit_refused require_context actor ws w s =
    require_context
    && elim (resolve s.directory actor ws w.owner_id none) [ ok _ ↦ false | err _ ↦ true ]

unfoldable pub change_circuit :
    Runtime
    → ℕ
    → CircuitState
    → String
    → User
    → Bool
    → Store
    → Result OperationsError CircuitBreaker × Store
change_circuit rt ws state reason actor require_context s =
    if not (has_founder_control_access s.directory actor)
    then (err founder_required, s)
    else elim (find_workspace ws s.directory) [
      | none ↦ (err workspace_unavailable, s)
      | some w ↦
          if circuit_refused require_context actor ws w s
          then (err context_denied, s)
          else let c = changed_circuit rt (circuit_id ws s) ws state reason actor in
            (
              ok c,
              record s {
                circuits = write_circuit c s.circuits;
                ledger =
                    add_audit
                      (record {
                        actor_id = actor.id;
                        event_type = "WITHDRAWAL_CIRCUIT_BREAKER_CHANGED";
                        entity_id = c.id;
                      })
                      (record (s.ledger) { next_id = next_id_after ws s });
              },
            )
    ]

find-write_circuit :
    (c : CircuitBreaker) (ws : ℕ) (xs : List CircuitBreaker)
    → find_first (λ x. x.workspace_id == ws) (write_circuit c xs)
      ≡ (if c.workspace_id == ws then some c else find_first (λ x. x.workspace_id == ws) xs)
unfolding write_circuit
find-write_circuit c ws [] = refl
find-write_circuit c ws (x ∷ xs) = ground (arith, find-write_circuit c ws xs)

change_circuit_ok :
    (rt : Runtime) (ws : ℕ) (state : CircuitState) (reason : String) (actor : User) (b : Bool)
    (s : Store) (c : CircuitBreaker) (s' : Store)
    → change_circuit rt ws state reason actor b s ≡ (ok c, s')
    → (has_founder_control_access s.directory actor ≡ true)
      × (s'.circuits ≡ write_circuit c s.circuits)
      × (c ≡ changed_circuit rt (circuit_id ws s) ws state reason actor)
unfolding change_circuit
change_circuit_ok rt ws state reason actor b s c s' h = ground arith

-- A change of the circuit breaker that succeeds is by a founder. The workspace then has a breaker
-- in the new state, under the old identifier if it had one, and the breakers of the other
-- workspaces stay.
pub change_circuit_sets :
    (rt : Runtime) (ws v : ℕ) (state : CircuitState) (reason : String) (actor : User) (b : Bool)
    (s : Store) (c : CircuitBreaker) (s' : Store)
    → change_circuit rt ws state reason actor b s ≡ (ok c, s')
    → (has_founder_control_access s.directory actor ≡ true)
      × (find_circuit v s' ≡ (
          if ws == v
          then some (changed_circuit rt (circuit_id ws s) ws state reason actor)
          else find_circuit v s))
change_circuit_sets rt ws v state reason actor b s c s' h =
    let (founder, rows, same) = change_circuit_ok rt ws state reason actor b s c s' h in
    (
      founder,
      ap (λ cs. find_first (λ x. x.workspace_id == v) cs) rows
          ∙ rw (same, changed_circuit)
              (find-write_circuit (changed_circuit rt (circuit_id ws s) ws state reason actor) v
                s.circuits),
    )

-- Once a founder has changed a workspace's circuit breaker to a state other than enabled, no
-- request of that workspace that is then found is approved, whoever asks.
pub stopped_blocks_approval :
    (rt : Runtime) (texts : Texts) (ws : ℕ) (state : CircuitState) (reason why : String)
    (actor approver : User) (b b' : Bool) (s : Store) (c : CircuitBreaker) (s' t : Store) (id : ℕ)
    (r r' : WithdrawalRequest)
    → is_enabled state ≡ false
    → change_circuit rt ws state reason actor b s ≡ (ok c, s')
    → find_first (λ x. x.id == id) s'.requests ≡ some r
    → r.workspace_id ≡ ws
    → ¬ (transition rt texts id approved approver why b' s' ≡ (ok r', t))
stopped_blocks_approval rt texts ws state reason why actor approver b b' s c s' t id r r' off h
      found same moved =
    let (_, now) = change_circuit_sets rt ws ws state reason actor b s c s' h in
    let (q, q_found, allowed, _, _) =
      transition_sound rt texts id approved approver why b' s' r' t moved in
    let is_r : q ≡ r = ground (arith, q_found) in
    elim allowed.by_circuit [
      | inl e ↦ cc
      | inr (k, k_found, on) ↦
          let at_ws : find_circuit ws s' ≡ some k = rw (← same, ← is_r) k_found in
          let sets : find_circuit ws s'
              ≡ some (changed_circuit rt (circuit_id ws s) ws state reason actor) =
            rw (==_refl ws) at now in
          ground (arith, at_ws, sets)
    ]
