-- ===== src/Voice/States.antt =====
-- `VoiceState`, `LEGAL_TRANSITIONS` and `validate_transition` of app/voice/state.py.
use arima_executive_os.Common.{
  Bool, true, false, List, [], ◌∷◌, if◌then◌else◌, any_of, Result, ok, err,
}

pub data VoiceState : Type 0 where
  idle requesting_microphone listening speech_detected processing thinking : VoiceState
  tool_execution awaiting_approval speaking interrupted completed error cancelled : VoiceState

abbrev pub legal_transitions : VoiceState → List VoiceState
legal_transitions idle = requesting_microphone ∷ listening ∷ processing ∷ cancelled ∷ error ∷ []
legal_transitions requesting_microphone = listening ∷ cancelled ∷ error ∷ []
legal_transitions listening = speech_detected ∷ processing ∷ cancelled ∷ error ∷ []
legal_transitions speech_detected = processing ∷ listening ∷ cancelled ∷ error ∷ []
legal_transitions processing = thinking ∷ speaking ∷ completed ∷ cancelled ∷ error ∷ []
legal_transitions thinking = tool_execution ∷ awaiting_approval ∷ speaking ∷ cancelled ∷ error ∷ []
legal_transitions tool_execution = thinking ∷ awaiting_approval ∷ speaking ∷ cancelled ∷ error ∷ []
legal_transitions awaiting_approval = thinking ∷ cancelled ∷ error ∷ []
legal_transitions speaking = interrupted ∷ completed ∷ cancelled ∷ error ∷ []
legal_transitions interrupted = idle ∷ processing ∷ cancelled ∷ []
legal_transitions completed = idle ∷ listening ∷ processing ∷ interrupted ∷ cancelled ∷ []
legal_transitions error = idle ∷ processing ∷ cancelled ∷ []
legal_transitions cancelled = []

abbrev pub state_eq : VoiceState → VoiceState → Bool
state_eq idle idle = true
state_eq requesting_microphone requesting_microphone = true
state_eq listening listening = true
state_eq speech_detected speech_detected = true
state_eq processing processing = true
state_eq thinking thinking = true
state_eq tool_execution tool_execution = true
state_eq awaiting_approval awaiting_approval = true
state_eq speaking speaking = true
state_eq interrupted interrupted = true
state_eq completed completed = true
state_eq error error = true
state_eq cancelled cancelled = true
state_eq _ _ = false

abbrev pub has_state : VoiceState → List VoiceState → Bool
has_state s xs = any_of (λ x. state_eq x s) xs

pub data VoiceError : Type 0 where
  invalid_transition session_not_found access_denied stale_data : VoiceError

unfoldable pub validate_transition : VoiceState → VoiceState → Result VoiceError (Unit {0})
validate_transition current target =
    if state_eq target current
    then ok tt
    else if has_state target (legal_transitions current)
    then ok tt
    else err invalid_transition

-- A state that `ready_states` of `claim_transcript` names.
abbrev pub is_ready : VoiceState → Bool
is_ready s = has_state s (idle ∷ listening ∷ speech_detected ∷ completed ∷ interrupted ∷ error ∷ [])
