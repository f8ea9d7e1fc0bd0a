-- ===== src/Voice/Runs.antt =====
-- Sequences of calls of the methods of `VoiceSessionStore` in app/voice/session.py.
use arima_executive_os.Common.{
  false, Option, ℕ, ◌+◌, ◌<◌, ◌≡◌, ◌∙◌, refl, ◌==◌, some, List, [], ◌∷◌, String, inl, inr,
  Option-cases, Bool-cases, Unit-result, Result-cases, arith, All,
}
use arima_executive_os.Voice.States.{VoiceState, cancelled}
use arima_executive_os.Voice.Sessions.{
  flushed, VoiceSession, VoiceSessionCreate, Store, Changes, find_session, write_session, create,
  get, check_state, update, claimed, can_claim, claim_transcript, recovered, is_stale,
  recover_stale_thinking,
}
use arima_executive_os.Voice.Steps.{
  IsFresh, Reaches, Reaches-trans, GoesOn, AllOld, stays-GoesOn, claim_transcript-GoesOn,
  recover_stale_thinking-GoesOn, update-GoesOn, row_old, create-GoesOn, stays, moves,
}

-- The stores keep the identifiers of their sessions below the next one.
write-AllOld :
    (n : ℕ) (r : VoiceSession) (xs : List VoiceSession)
    → r.session_id < n
    → All (λ x. x.session_id < n) xs
    → All (λ x. x.session_id < n) (write_session r xs)
unfolding write_session
write-AllOld n r [] h k = tt
write-AllOld n r (x ∷ xs) h (k, ks) = elim (Bool-cases (x.session_id == r.session_id)) [
  | inl e ↦ rw (e, write_session) (h, ks)
  | inr e ↦ rw (e, write_session) (k, write-AllOld n r xs h ks)
]

old_rises :
    (n : ℕ) (xs : List VoiceSession)
    → All (λ x. x.session_id < n) xs
    → All (λ x. x.session_id < n + 2) xs
old_rises n [] h = tt
old_rises n (x ∷ xs) (h, hs) = (omega (arith, h), old_rises n xs hs)

-- One call of a method of the store, by anyone.
pub data Call : Type 0 where
  call_create : ℕ → VoiceSessionCreate → ℕ → Call
  call_update : ℕ → ℕ → ℕ → Changes → Option VoiceSession → Call
  call_claim : ℕ → ℕ → ℕ → String → Call
  call_recover : ℕ → ℕ → ℕ → ℕ → Call

unfoldable pub run_call : Call → Store → Store
run_call (call_create now x user) st = (create now x user st).1
run_call (call_update now id user c held) st = (update now id user c held st).1
run_call (call_claim now id user text) st = (claim_transcript now id user text st).1
run_call (call_recover now id user timeout) st = (recover_stale_thinking now id user timeout st).1

unfoldable pub run_calls : List Call → Store → Store
run_calls [] st = st
run_calls (k ∷ ks) st = run_calls ks (run_call k st)

abbrev pub IsFreshCall : Call → Store → Type 0
IsFreshCall (call_update now id user c held) st = IsFresh id held st
IsFreshCall _ st = Unit

-- Every update works on the row as it is stored.
abbrev pub AreFresh : List Call → Store → Type 0
AreFresh [] st = Unit
AreFresh (k ∷ ks) st = IsFreshCall k st × AreFresh ks (run_call k st)

run_call-GoesOn :
    (k : Call) (st : Store) (i : ℕ) (v : VoiceSession)
    → IsFreshCall k st
    → AllOld st
    → find_session i st ≡ some v
    → GoesOn i v (run_call k st)
unfolding run_call
run_call-GoesOn (call_create now x user) st i v fresh old f = create-GoesOn now user x st i v old f
run_call-GoesOn (call_update now id user c held) st i v fresh old f =
    update-GoesOn now id user c held st i v fresh f
run_call-GoesOn (call_claim now id user text) st i v fresh old f =
    claim_transcript-GoesOn now id user text st i v f
run_call-GoesOn (call_recover now id user timeout) st i v fresh old f =
    recover_stale_thinking-GoesOn now id user timeout st i v f

run_call-AllOld : (k : Call) (st : Store) → AllOld st → AllOld (run_call k st)
unfolding run_call create update claim_transcript recover_stale_thinking
run_call-AllOld (call_create now x user) st old =
    (omega arith, old_rises st.next_id st.sessions old)
run_call-AllOld (call_update now id user c held) st old =
    elim (Result-cases (get id user false held st)) [
      | inr (r, e) ↦ rw (e, update, run_call) old
      | inl (v, e) ↦ elim (Unit-result (check_state c.state v.state)) [
        | inr (r, g) ↦ rw (e, g, update, run_call) old
        | inl g ↦ elim (Option-cases (find_session id st)) [
          | inl f ↦ rw (e, g, f, update, run_call) old
          | inr (w, f) ↦
              rw (e, g, f, update, run_call)
                (write-AllOld st.next_id (flushed now c v w) st.sessions (row_old id st w old f)
                  old)
        ]
      ]
    ]
run_call-AllOld (call_claim now id user text) st old = elim (Option-cases (find_session id st)) [
  | inl e ↦ rw (e, claim_transcript, run_call) old
  | inr (w, e) ↦ elim (Bool-cases (can_claim user w)) [
    | inr taken ↦ rw (e, taken, claim_transcript, run_call) old
    | inl can ↦
        rw (e, can, claim_transcript, run_call)
          (write-AllOld st.next_id (claimed now text w) st.sessions (row_old id st w old e) old)
  ]
]
run_call-AllOld (call_recover now id user timeout) st old =
    elim (Option-cases (find_session id st)) [
      | inl e ↦ rw (e, recover_stale_thinking, run_call) old
      | inr (w, e) ↦ elim (Bool-cases (is_stale now timeout user w)) [
        | inr fresh ↦ rw (e, fresh, recover_stale_thinking, run_call) old
        | inl stale ↦
            rw (e, stale, recover_stale_thinking, run_call)
              (write-AllOld st.next_id (recovered now w) st.sessions (row_old id st w old e) old)
      ]
    ]

pub run_calls-GoesOn :
    (ks : List Call) (st : Store) (i : ℕ) (v : VoiceSession)
    → AreFresh ks st
    → AllOld st
    → find_session i st ≡ some v
    → GoesOn i v (run_calls ks st)
unfolding run_calls
run_calls-GoesOn [] st i v fresh old f = stays-GoesOn st i v f
run_calls-GoesOn (k ∷ ks) st i v (fresh, later) old f =
    let a = run_call-GoesOn k st i v fresh old f in
    let b =
      run_calls-GoesOn ks (run_call k st) i a.later later (run_call-AllOld k st old) a.found in
    record {
      later = b.later;
      found = b.found;
      same_owner = b.same_owner ∙ a.same_owner;
      reached = Reaches-trans v.state a.later.state b.later.state a.reached b.reached;
    }

Reaches-cancelled : (s : VoiceState) → Reaches cancelled s → s ≡ cancelled
Reaches-cancelled s (stays _) = refl
Reaches-cancelled s (moves _ t _ h p) = cc

-- Whatever calls follow, a cancelled session stays cancelled, where no update works on a row that
-- another database session has changed since it was read, and the identifiers of the store's sessions
-- lie below the next one.
pub run_calls-cancelled :
    (ks : List Call) (st : Store) (i : ℕ) (v : VoiceSession)
    → AreFresh ks st
    → AllOld st
    → find_session i st ≡ some v
    → v.state ≡ cancelled
    → (w : VoiceSession) × (find_session i (run_calls ks st) ≡ some w) × (w.state ≡ cancelled)
run_calls-cancelled ks st i v fresh old f h =
    let g = run_calls-GoesOn ks st i v fresh old f in
    (g.later, g.found, Reaches-cancelled g.later.state (rw h at g.reached))
