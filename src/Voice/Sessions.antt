-- ===== src/Voice/Sessions.antt =====
-- `VoiceSessionStore` of app/voice/session.py, over the table of `VoiceSessionRecord`. `now` is the
-- clock's time in seconds; each method ends with its commit. A database session keeps the row object
-- that it has loaded, also beyond a commit (`expire_on_commit=False`), while other sessions may change
-- the row; `held` is that object, `none` where the session has none or has let it expire. An `UPDATE`
-- of a row that is gone is `stale_data`.
use arima_executive_os.Common.{
  ℕ, ◌+◌, ltb, ◌==◌, opt_eq, str_eq, Bool, true, false, ◌&&◌, not, Option, none, some, List, [],
  ◌∷◌, String, if◌then◌else◌, find_first, Result, ok, err,
}
use arima_executive_os.Voice.States.{
  VoiceState, idle, processing, thinking, error, state_eq, VoiceError, session_not_found,
  access_denied, stale_data, validate_transition, is_ready,
}

pub record VoiceSession : Type 0 where
  pub session_id : ℕ
  pub user_id : ℕ
  pub conversation_id : Option ℕ
  pub run_id : Option ℕ
  pub correlation_id : ℕ
  pub state : VoiceState
  pub language : String
  pub locale : String
  pub timezone : String
  pub transcript : Option String
  pub response_text : Option String
  pub created_at : ℕ
  pub updated_at : ℕ

pub record VoiceSessionCreate : Type 0 where
  pub conversation_id : Option ℕ
  pub language : String
  pub locale : String
  pub timezone : String

pub record Store : Type 0 where
  pub sessions : List VoiceSession
  pub next_id : ℕ

-- The values that the callers of `update` pass, `none` for a value that is not passed.
pub record Changes : Type 0 where
  pub state : Option VoiceState
  pub conversation_id : Option ℕ
  pub run_id : Option ℕ
  pub correlation_id : Option ℕ
  pub response_text : Option String

abbrev pub find_session : ℕ → Store → Option VoiceSession
find_session id st = find_first (λ v. v.session_id == id) st.sessions

unfoldable pub write_session : VoiceSession → List VoiceSession → List VoiceSession
write_session v [] = []
write_session v (x ∷ xs) =
    let rest = write_session v xs in if x.session_id == v.session_id then v ∷ xs else x ∷ rest

abbrev pub new_session : ℕ → VoiceSessionCreate → ℕ → ℕ → VoiceSession
new_session now x user id = record {
  session_id = id;
  user_id = user;
  conversation_id = x.conversation_id;
  run_id = none;
  correlation_id = id + 1;
  state = idle;
  language = x.language;
  locale = x.locale;
  timezone = x.timezone;
  transcript = none;
  response_text = none;
  created_at = now;
  updated_at = now;
}

-- The identifiers of the session and of its correlation are fresh.
unfoldable pub create : ℕ → VoiceSessionCreate → ℕ → Store → VoiceSession × Store
create now x user st =
    let v = new_session now x user st.next_id in
    (v, record { sessions = v ∷ st.sessions; next_id = st.next_id + 2 })

-- The row that a database session reads: the object that it holds of it, from when it last loaded or
-- wrote it, unless the read is to refresh it.
unfoldable pub current_row : ℕ → Bool → Option VoiceSession → Store → Option VoiceSession
current_row id refresh held st =
    if refresh
    then find_session id st
    else elim held [ some v ↦ some v | none ↦ find_session id st ]

unfoldable pub get : ℕ → ℕ → Bool → Option VoiceSession → Store → Result VoiceError VoiceSession
unfolding current_row
get id user refresh held st = elim (current_row id refresh held st) [
  | none ↦ err session_not_found
  | some v ↦ if not (v.user_id == user) then err access_denied else ok v
]

abbrev pub given {ℓ} : {A : Type ℓ} → Option A → A → A
given none a = a
given (some b) a = b

abbrev pub given_some {ℓ} : {A : Type ℓ} → Option A → Option A → Option A
given_some none a = a
given_some (some b) a = some b

abbrev pub changed : ℕ → Changes → VoiceSession → VoiceSession
changed now c v = record v {
  state = given c.state v.state;
  conversation_id = given_some c.conversation_id v.conversation_id;
  run_id = given_some c.run_id v.run_id;
  correlation_id = given c.correlation_id v.correlation_id;
  response_text = given_some c.response_text v.response_text;
  updated_at = now;
}

abbrev pub check_state : Option VoiceState → VoiceState → Result VoiceError (Unit {0})
check_state none current = ok tt
check_state (some target) current = validate_transition current target

-- A column is written where its new value is not the one that the session holds.
abbrev pub column {ℓ} : {A : Type ℓ} → Bool → A → A → A
column is_same new stored = if is_same then stored else new

abbrev pub state_column : Option VoiceState → VoiceState → VoiceState → VoiceState
state_column none held stored = stored
state_column (some t) held stored = column (state_eq t held) t stored

abbrev pub id_column : Option ℕ → Option ℕ → Option ℕ → Option ℕ
id_column none held stored = stored
id_column (some b) held stored = column (opt_eq (some b) held) (some b) stored

abbrev pub text_column : Option String → Option String → Option String → Option String
text_column none held stored = stored
text_column (some b) none stored = some b
text_column (some b) (some a) stored = column (str_eq b a) (some b) stored

abbrev pub correlation_column : Option ℕ → ℕ → ℕ → ℕ
correlation_column none held stored = stored
correlation_column (some b) held stored = column (b == held) b stored

-- The stored row `w` after the changes to the held row `v` are flushed.
abbrev pub flushed : ℕ → Changes → VoiceSession → VoiceSession → VoiceSession
flushed now c v w = record w {
  state = state_column c.state v.state w.state;
  conversation_id = id_column c.conversation_id v.conversation_id w.conversation_id;
  run_id = id_column c.run_id v.run_id w.run_id;
  correlation_id = correlation_column c.correlation_id v.correlation_id w.correlation_id;
  response_text = text_column c.response_text v.response_text w.response_text;
  updated_at = column (now == v.updated_at) now w.updated_at;
}

-- The state is validated against the held row, which is not locked, and the changes go to the stored
-- one.
unfoldable pub update :
    ℕ → ℕ → ℕ → Changes → Option VoiceSession → Store → Result VoiceError VoiceSession × Store
update now id user c held st = elim (get id user false held st) [
  | err e ↦ (err e, st)
  | ok v ↦ elim (check_state c.state v.state) [
    | err e ↦ (err e, st)
    | ok _ ↦ elim (find_session id st) [
      | none ↦ (err stale_data, st)
      | some w ↦ (
        ok (changed now c v),
        record st { sessions = write_session (flushed now c v w) st.sessions },
      )
    ]
  ]
]

abbrev pub claimed : ℕ → String → VoiceSession → VoiceSession
claimed now text v = record v { state = processing; transcript = some text; updated_at = now }

abbrev pub can_claim : ℕ → VoiceSession → Bool
can_claim user v = v.user_id == user && is_ready v.state

-- One `UPDATE … WHERE`, and the number of rows that it has changed.
unfoldable pub claim_transcript : ℕ → ℕ → ℕ → String → Store → Option VoiceSession × Store
claim_transcript now id user text st = elim (find_session id st) [
  | none ↦ (none, st)
  | some v ↦
      if can_claim user v
      then (
        some (claimed now text v),
        record st { sessions = write_session (claimed now text v) st.sessions },
      )
      else (none, st)
]

abbrev pub recovered : ℕ → VoiceSession → VoiceSession
recovered now v = record v { state = error; updated_at = now }

-- `updated_at < now - timeout`
abbrev pub is_stale : ℕ → ℕ → ℕ → VoiceSession → Bool
is_stale now timeout user v =
    v.user_id == user && (state_eq v.state thinking && ltb (v.updated_at + timeout) now)

unfoldable pub recover_stale_thinking : ℕ → ℕ → ℕ → ℕ → Store → Bool × Store
recover_stale_thinking now id user timeout st = elim (find_session id st) [
  | none ↦ (false, st)
  | some v ↦
      if is_stale now timeout user v
      then (true, record st { sessions = write_session (recovered now v) st.sessions })
      else (false, st)
]
