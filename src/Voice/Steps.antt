-- ===== src/Voice/Steps.antt =====
-- One call of each method of `VoiceSessionStore`, and the sessions of the store before it.
use arima_executive_os.Common.{
  sym, Bool, false, ℕ, ◌<◌, ◌≡◌, ◌∙◌, refl, ◌==◌, true, false, Option, none, some, List, [], ◌∷◌,
  String, inl, inr, Option-cases, Bool-cases, Unit-result, Result-cases, arith, find_first, All, ok,
}
use arima_executive_os.Voice.States.{
  VoiceState, processing, thinking, error, state_eq, has_state, legal_transitions,
  validate_transition, is_ready,
}
use arima_executive_os.Voice.Sessions.{
  current_row, flushed, state_column, VoiceSession, VoiceSessionCreate, Store, Changes,
  find_session, write_session, create, get, check_state, update, claimed, can_claim,
  claim_transcript, recovered, is_stale, recover_stale_thinking,
}
use arima_executive_os.Voice.Claims.{find-write, find-session_id}

-- The states that legal transitions lead to.
pub data Reaches : VoiceState → VoiceState → Type 0 where
  stays : (s : VoiceState) → Reaches s s
  moves :
      (s t u : VoiceState) → has_state t (legal_transitions s) ≡ true → Reaches t u → Reaches s u

pub Reaches-trans : (s t u : VoiceState) → Reaches s t → Reaches t u → Reaches s u
Reaches-trans s t u (stays _) q = q
Reaches-trans s t u (moves _ r _ h p) q = moves s r u h (Reaches-trans r t u p q)

state_eq_sound : (s t : VoiceState) → state_eq s t ≡ true → s ≡ t
state_eq_sound s t h = ground arith

validate_transition-Reaches : (s t : VoiceState) → validate_transition s t ≡ ok tt → Reaches s t
unfolding validate_transition
validate_transition-Reaches s t h = elim (Bool-cases (state_eq t s)) [
  | inl e ↦ rw (state_eq_sound t s e) (stays s)
  | inr e ↦ moves s t t (ground arith) (stays t)
]

-- The session `v` of the store goes on in the store `st'`.
pub record GoesOn (i : ℕ) (v : VoiceSession) (st' : Store) : Type 0 where
  pub later : VoiceSession
  pub found : find_session i st' ≡ some later
  pub same_owner : later.user_id ≡ v.user_id
  pub reached : Reaches v.state later.state

abbrev pub AllOld : Store → Type 0
AllOld st = All (λ v. v.session_id < st.next_id) st.sessions

-- Rewriting the row of a session, along legal transitions.
write-GoesOn :
    (st : Store) (i id : ℕ) (v w r : VoiceSession)
    → find_session i st ≡ some v
    → find_session id st ≡ some w
    → r.session_id ≡ id
    → r.user_id ≡ w.user_id
    → Reaches w.state r.state
    → GoesOn i v (record st { sessions = write_session r st.sessions })
write-GoesOn st i id v w r fv fw eq user legal = elim (Bool-cases (r.session_id == i)) [
  | inl e ↦
      let same : v ≡ w = ground arith in
      record {
        later = r;
        found = find-write i r st.sessions v fv ∙ ground arith;
        same_owner = rw same user;
        reached = rw same legal;
      }
  | inr e ↦ record {
    later = v;
    found = find-write i r st.sessions v fv ∙ ground arith;
    same_owner = refl;
    reached = stays v.state;
  }
]

pub stays-GoesOn :
    (st : Store) (i : ℕ) (v : VoiceSession) → find_session i st ≡ some v → GoesOn i v st
stays-GoesOn st i v f = record { later = v; found = f; same_owner = refl; reached = stays v.state }

ready-Reaches : (s : VoiceState) → is_ready s ≡ true → Reaches s processing
ready-Reaches s h = moves s processing processing (ground arith) (stays processing)

thinking-Reaches : (s : VoiceState) → state_eq s thinking ≡ true → Reaches s error
thinking-Reaches s h = moves s error error (ground arith) (stays error)

pub claim_transcript-GoesOn :
    (now id user : ℕ) (text : String) (st : Store) (i : ℕ) (v : VoiceSession)
    → find_session i st ≡ some v
    → GoesOn i v (claim_transcript now id user text st).1
unfolding claim_transcript
claim_transcript-GoesOn now id user text st i v f = elim (Option-cases (find_session id st)) [
  | inl e ↦ rw (e, claim_transcript) (stays-GoesOn st i v f)
  | inr (w, e) ↦ elim (Bool-cases (can_claim user w)) [
    | inr taken ↦ rw (e, taken, claim_transcript) (stays-GoesOn st i v f)
    | inl can ↦
        let same : w.session_id ≡ id = find-session_id id st.sessions w e in
        rw (e, can, claim_transcript)
          (write-GoesOn st i id v w (claimed now text w) f e same refl
            (ready-Reaches w.state (ground arith)))
  ]
]

pub recover_stale_thinking-GoesOn :
    (now id user timeout : ℕ) (st : Store) (i : ℕ) (v : VoiceSession)
    → find_session i st ≡ some v
    → GoesOn i v (recover_stale_thinking now id user timeout st).1
unfolding recover_stale_thinking
recover_stale_thinking-GoesOn now id user timeout st i v f =
    elim (Option-cases (find_session id st)) [
      | inl e ↦ rw (e, recover_stale_thinking) (stays-GoesOn st i v f)
      | inr (w, e) ↦ elim (Bool-cases (is_stale now timeout user w)) [
        | inr taken ↦ rw (e, taken, recover_stale_thinking) (stays-GoesOn st i v f)
        | inl old ↦
            rw (e, old, recover_stale_thinking)
              (write-GoesOn st i id v w (recovered now w) f e (find-session_id id st.sessions w e)
                refl (thinking-Reaches w.state (ground arith)))
      ]
    ]

pub get-found :
    (id user : ℕ) (refresh : Bool) (held : Option VoiceSession) (st : Store) (v : VoiceSession)
    → get id user refresh held st ≡ ok v
    → current_row id refresh held st ≡ some v
unfolding get
get-found id user refresh held st v h = elim (Option-cases (current_row id refresh held st)) [
  | inl e ↦ absurd (ground arith)
  | inr (w, e) ↦ ground arith
]

-- A database session that holds no row of that identifier, or the one that is stored.
abbrev pub IsFresh : ℕ → Option VoiceSession → Store → Type 0
IsFresh id held st = current_row id false held st ≡ find_session id st

column-Reaches :
    (o : Option VoiceState) (s : VoiceState)
    → check_state o s ≡ ok tt
    → Reaches s (state_column o s s)
column-Reaches none s h = stays s
column-Reaches (some t) s h = elim (Bool-cases (state_eq t s)) [
  | inl e ↦ rw e (stays s)
  | inr e ↦ rw e (validate_transition-Reaches s t h)
]

pub update-GoesOn :
    (now id user : ℕ) (c : Changes) (held : Option VoiceSession) (st : Store) (i : ℕ)
    (v : VoiceSession)
    → IsFresh id held st
    → find_session i st ≡ some v
    → GoesOn i v (update now id user c held st).1
unfolding update
update-GoesOn now id user c held st i v fresh f = elim (Result-cases (get id user false held st)) [
  | inr (r, e) ↦ rw (e, update) (stays-GoesOn st i v f)
  | inl (w, e) ↦ elim (Unit-result (check_state c.state w.state)) [
    | inr (r, g) ↦ rw (e, g, update) (stays-GoesOn st i v f)
    | inl g ↦
        let fw : find_session id st ≡ some w = sym fresh ∙ get-found id user false held st w e in
        rw (e, g, fw, update)
          (write-GoesOn st i id v w (flushed now c w w) f fw (find-session_id id st.sessions w fw)
            refl (column-Reaches c.state w.state g))
  ]
]

find-old :
    (id n : ℕ) (xs : List VoiceSession) (v : VoiceSession)
    → All (λ x. x.session_id < n) xs
    → find_first (λ x. x.session_id == id) xs ≡ some v
    → id < n
find-old id n [] v h f = absurd (ground arith)
find-old id n (x ∷ xs) v (h, hs) f = elim (Bool-cases (x.session_id == id)) [
  | inl e ↦ ground arith
  | inr e ↦ find-old id n xs v hs (ground arith)
]

pub row_old :
    (id : ℕ) (st : Store) (w : VoiceSession)
    → AllOld st
    → find_session id st ≡ some w
    → w.session_id < st.next_id
row_old id st w old f =
    let e = find-session_id id st.sessions w f in
    omega (arith, find-old id st.next_id st.sessions w old f, e)

pub create-GoesOn :
    (now user : ℕ) (x : VoiceSessionCreate) (st : Store) (i : ℕ) (v : VoiceSession)
    → AllOld st
    → find_session i st ≡ some v
    → GoesOn i v (create now x user st).1
unfolding create
create-GoesOn now user x st i v old f =
    let fresh : i < st.next_id = find-old i st.next_id st.sessions v old f in
    let other : (st.next_id == i) ≡ false = ground arith in
    record { later = v; found = rw other f; same_owner = refl; reached = stays v.state }
