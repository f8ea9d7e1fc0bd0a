-- ===== src/Voice/Tests.antt =====
-- A session that is claimed, cancelled and claimed again.
use arima_executive_os.Common.{ok, ◌≡◌, refl, none, some, List, [], ◌∷◌, arith}
use arima_executive_os.Voice.States.{processing, cancelled, speaking, validate_transition}
use arima_executive_os.Voice.Sessions.{
  VoiceSession, VoiceSessionCreate, Store, Changes, find_session, write_session, new_session,
  claimed, claim_transcript, update, get, current_row,
}
use arima_executive_os.Voice.Claims.{claim_transcript-once}
use arima_executive_os.Voice.Runs.{
  run_call, Call, call_create, call_update, call_claim, run_calls, run_calls-cancelled,
}

abbrev request : VoiceSessionCreate
request = record {
  conversation_id = none;
  language = "en";
  locale = "en-GB";
  timezone = "Europe/London";
}

abbrev session : VoiceSession
session = new_session 10 request 5 3

abbrev one_session : Store
one_session = record { sessions = session ∷ []; next_id = 5 }

abbrev claimed_session : VoiceSession
claimed_session = claimed 20 "hello" session

abbrev claimed_store : Store
claimed_store = record { sessions = claimed_session ∷ []; next_id = 5 }

claimed_once : claim_transcript 20 3 5 "hello" one_session ≡ (some claimed_session, claimed_store)
unfolding claim_transcript write_session
claimed_once = refl

claim_transcript-once_example :
    (claimed_session.user_id ≡ 5)
    × (claimed_session.state ≡ processing)
    × (claimed_session.transcript ≡ some "hello")
    × (claim_transcript 21 3 5 "again" claimed_store ≡ (none, claimed_store))
claim_transcript-once_example =
    claim_transcript-once 20 21 3 5 5 "hello" "again" one_session claimed_session claimed_store
      claimed_once

abbrev cancelling : Changes
cancelling = record {
  state = some cancelled;
  conversation_id = none;
  run_id = none;
  correlation_id = none;
  response_text = none;
}

abbrev calls : List Call
calls =
    call_create 30 request 6 ∷ call_update 31 3 5 cancelling none ∷ call_claim 32 3 5 "late" ∷ []

abbrev cancelled_session : VoiceSession
cancelled_session = record claimed_session { state = cancelled }

abbrev cancelled_store : Store
cancelled_store = record { sessions = cancelled_session ∷ []; next_id = 5 }

run_calls-cancelled_example :
    (w : VoiceSession) × (find_session 3 (run_calls calls cancelled_store) ≡ some w)
    × (w.state ≡ cancelled)
unfolding run_call current_row
run_calls-cancelled_example =
    run_calls-cancelled calls cancelled_store 3 cancelled_session (tt, (refl, (tt, tt)))
      (omega arith, tt) refl refl

abbrev speaking_up : Changes
speaking_up = record cancelling { state = some speaking }

abbrev overwritten_store : Store
overwritten_store = record {
  sessions = record cancelled_session { state = speaking; updated_at = 33 } ∷ [];
  next_id = 5;
}

-- The session is cancelled; an update that still holds the claimed row sets it speaking.
overwritten :
    update 33 3 5 speaking_up (some claimed_session) cancelled_store
    ≡ (ok (record claimed_session { state = speaking; updated_at = 33 }), overwritten_store)
unfolding update get current_row validate_transition write_session
overwritten = refl
