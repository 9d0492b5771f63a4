-- ===== src/States/SessionStop.antt =====
-- src/iso15118/d20/state/session_stop.cpp, and the two ways in which the other states end a session.
pub mod Laws
use Prim.Native.String.{String}
use libiso.Prelude.{
  Bool, true, false, not, ◌&&◌, ◌||◌, Option, none, some, if◌then◌else◌, has_value,
}
use mathlib.Core.Option.{get_or}
use libiso.Message.{
  Header, ResponseCode, is_failed, ChargingSession, SessionStopRequest, SessionStopResponse,
  Message, get_type, Response,
}
use libiso.Session.{Session, PauseContext}
use libiso.Context.{
  Env, Context, Feedback, Event, StateId, Fed, fed, no_result, respond, call, stop, with_request,
}
use libiso.Context.Header.{setup_header, validate_header}
use libiso.Context.Recovery.{send_sequence_error}

abbrev is_renegotiation : ChargingSession → Bool
is_renegotiation ChargingSession.service_renegotiation = true
is_renegotiation _ = false

unfoldable pub handle_request : Env → SessionStopRequest → Session → SessionStopResponse
unfolding setup_header validate_header
handle_request env req s =
    if not (validate_header s req.header.session_id)
    then res ResponseCode.failed_unknown_session
    else if is_renegotiation req.charging_session && not s.service_renegotiation_supported
    then res ResponseCode.failed_no_service_renegotiation_supported
    else res ResponseCode.ok
  where
    res : ResponseCode → SessionStopResponse
    res code = record { header = setup_header env s; response_code = code }

-- A state that does not expect the request answers with a sequence error and stops the session.
unfoldable pub reject : {S : Type 0} → Env → Message → S → Context → Fed S
unfolding stop send_sequence_error
reject env m s c = fed no_result s (stop (send_sequence_error env (get_type m) c))

-- A state in the middle of a session answers a SessionStopReq and stops the session.
unfoldable pub stop_session : {S : Type 0} → Env → SessionStopRequest → S → Context → Fed S
unfolding respond stop handle_request
stop_session env req s c =
    fed no_result s
      (stop (respond env (Response.session_stop (handle_request env req c.session)) c))

abbrev save_selection : Context → Option PauseContext → Context
save_selection c none = c
save_selection c (some p) = record c {
  pause_ctx = some (record p { selected_service_parameters = c.session.selected_services });
}

-- Pausing keeps the selected services, if there is a pause context; terminating drops it.
unfoldable pub end_session : ChargingSession → Context → Context
end_session ChargingSession.pause c =
    save_selection (record c { session_paused = true }) c.pause_ctx
end_session ChargingSession.terminate c = record c { session_stopped = true; pause_ctx = none }
end_session ChargingSession.service_renegotiation c = c

abbrev report_termination : SessionStopRequest → Context → Context
unfolding call
report_termination req c =
    if has_value req.ev_termination_code || has_value req.ev_termination_explanation
    then call
        (Feedback.ev_termination (get_or req.ev_termination_code "")
          (get_or req.ev_termination_explanation ""))
        c
    else c

unfoldable pub on_message : {S : Type 0} → Env → S → Message → Context → Fed S
unfolding call respond handle_request end_session reject
on_message env s (Message.session_stop req) c =
    let res = handle_request env req c.session in
    let c1 = report_termination req c in
    fed no_result s (end_session req.charging_session (respond env (Response.session_stop res) c1))
on_message env s m c = reject env m s c

-- The state object has no members of its own.
unfoldable pub feed : Env → Event → Unit {0} → Context → Option (Fed (Unit {0}))
unfolding on_message with_request
feed env Event.v2gtp_message s c = with_request c (λ m c'. on_message env s m c')
feed env _ s c = some (fed no_result s c)
