-- ===== src/States/CableCheck.antt =====
-- src/iso15118/d20/state/dc_cable_check.cpp.
pub mod Laws
use libiso.Prelude.{Bool, true, false, not, Option, none, some, if◌then◌else◌}
use libiso.Message.{
  Header, ResponseCode, is_failed, Processing, DcCableCheckRequest, DcCableCheckResponse, Message,
  Response,
}
use libiso.Session.{Session}
use libiso.Config.{ControlEvent}
use libiso.Context.{
  Env, Signal, Context, Event, StateId, Fed, fed, no_result, enter_state, respond, send_signal,
  stop, with_request,
}
use libiso.Context.Header.{setup_header, validate_header}
use libiso.States.SessionStop.{reject, stop_session}

pub record DcCableCheck : Type 0 where
  pub cable_check_initiated : Bool
  pub cable_check_done : Bool

unfoldable pub initial : DcCableCheck
initial = record { cable_check_initiated = false; cable_check_done = false }

unfoldable pub handle_request : Env → DcCableCheckRequest → Session → Bool → DcCableCheckResponse
unfolding setup_header validate_header
handle_request env req s cable_check_done =
    if not (validate_header s req.header.session_id)
    then record {
      header = setup_header env s;
      response_code = ResponseCode.failed_unknown_session;
      processing = Processing.ongoing;
    }
    else record {
      header = setup_header env s;
      response_code = ResponseCode.ok;
      processing = if cable_check_done then Processing.finished else Processing.ongoing;
    }

unfoldable pub on_control : DcCableCheck → Option ControlEvent → DcCableCheck
on_control s (some (ControlEvent.cable_check_finished success)) = record s {
  cable_check_done = success;
}
on_control s _ = s

unfoldable pub on_message : Env → DcCableCheck → Message → Context → Fed DcCableCheck
unfolding handle_request send_signal respond stop reject stop_session
on_message env s (Message.dc_cable_check req) c =
    let c1 = if s.cable_check_initiated then c else send_signal Signal.start_cable_check c in
    let s1 = record s { cable_check_initiated = true } in
    let res = handle_request env req c.session s.cable_check_done in
    let c2 = respond env (Response.dc_cable_check res) c1 in
    if is_failed res.response_code
    then fed no_result s1 (stop c2)
    else if s.cable_check_done
    then fed (enter_state StateId.dc_pre_charge) s1 c2
    else fed no_result s1 c2
on_message env s (Message.session_stop req) c = stop_session env req s c
on_message env s m c = reject env m s c

unfoldable pub feed : Env → Event → DcCableCheck → Context → Option (Fed DcCableCheck)
unfolding on_control on_message with_request
feed env Event.control_message s c = some (fed no_result (on_control s c.current_control_event) c)
feed env Event.v2gtp_message s c = with_request c (λ m c'. on_message env s m c')
feed env _ s c = some (fed no_result s c)
