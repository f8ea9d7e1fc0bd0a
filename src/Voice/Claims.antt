-- ===== src/Voice/Claims.antt =====
-- `claim_transcript` of app/voice/session.py, called more than once.
use arima_executive_os.Common.{
  ℕ, ◌≡◌, ◌==◌, true, none, some, List, [], ◌∷◌, String, inl, inr, Option-cases, arith,
  if◌then◌else◌, find_first,
}
use arima_executive_os.Voice.States.{processing}
use arima_executive_os.Voice.Sessions.{
  VoiceSession, Store, find_session, write_session, claimed, can_claim, claim_transcript,
}

pub find-write :
    (id : ℕ) (r : VoiceSession) (xs : List VoiceSession) (x : VoiceSession)
    → find_first (λ y. y.session_id == id) xs ≡ some x
    → find_first (λ y. y.session_id == id) (write_session r xs)
      ≡ some (if r.session_id == id then r else x)
unfolding write_session
find-write id r [] x h = absurd (ground arith)
find-write id r (y ∷ ys) x h = ground (arith, find-write id r ys x)

pub find-session_id :
    (id : ℕ) (xs : List VoiceSession) (x : VoiceSession)
    → find_first (λ y. y.session_id == id) xs ≡ some x
    → x.session_id ≡ id
find-session_id id [] x h = absurd (ground arith)
find-session_id id (y ∷ ys) x h = ground (arith, find-session_id id ys x)

-- What a claim that succeeds has found and written.
pub claim_transcript-written :
    (now id user : ℕ) (text : String) (st : Store) (v : VoiceSession) (st' : Store)
    → claim_transcript now id user text st ≡ (some v, st')
    → (w : VoiceSession) × (find_session id st ≡ some w)
      × (can_claim user w ≡ true)
      × (v ≡ claimed now text w)
      × (find_session id st' ≡ some v)
unfolding claim_transcript
claim_transcript-written now id user text st v st' h = elim (Option-cases (find_session id st)) [
  | inl e ↦ absurd (ground arith)
  | inr (w, e) ↦
      let same : w.session_id ≡ id = find-session_id id st.sessions w e in
      (
        w,
        e,
        ground arith,
        ground arith,
        ground (arith, find-write id (claimed now text w) st.sessions w e),
      )
]

-- A claim that succeeds is by the session's user and leaves the session processing that transcript.
-- Any other claim of it that follows, by whichever user and at whatever time, is turned away and
-- changes nothing.
pub claim_transcript-once :
    (now later id user other : ℕ) (text another : String) (st : Store) (v : VoiceSession)
    (st' : Store)
    → claim_transcript now id user text st ≡ (some v, st')
    → (v.user_id ≡ user)
      × (v.state ≡ processing)
      × (v.transcript ≡ some text)
      × (claim_transcript later id other another st' ≡ (none, st'))
unfolding claim_transcript
claim_transcript-once now later id user other text another st v st' h =
    let (w, e, can, eq, found) = claim_transcript-written now id user text st v st' h in
    (ground arith, ground arith, ground arith, ground arith)
