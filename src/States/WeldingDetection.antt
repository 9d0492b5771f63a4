-- ===== src/States/WeldingDetection.antt =====
-- src/iso15118/d20/state/dc_welding_detection.cpp.
use libiso.Prelude.{Bool, true, false, not, Option, some, if◌then◌else◌}
use libiso.Message.{
  ResponseCode, is_failed, Processing, DcWeldingDetectionRequest, DcWeldingDetectionResponse,
  Message, Response,
}
use libiso.Session.{Session}
use libiso.Config.{Float, ControlEvent}
use libiso.Context.{
  Env, Context, Event, StateId, Fed, fed, no_result, enter_state, respond, stop, with_request,
}
use libiso.Context.Header.{setup_header, validate_header}
use libiso.States.SessionStop.{reject, end_session}
use libiso.States.SessionStop

pub record DcWeldingDetection : Type 0 where
  pub present_voltage : Float

unfoldable pub initial : DcWeldingDetection
initial = record { present_voltage = 0 }

unfoldable pub handle_request :
    Env → DcWeldingDetectionRequest → Session → Float → DcWeldingDetectionResponse
unfolding setup_header validate_header
handle_request env req s present_voltage =
    if not (validate_header s req.header.session_id)
    then record {
      header = setup_header env s;
      response_code = ResponseCode.failed_unknown_session;
      present_voltage = record { value = 0; exponent = 0 };
    }
    else record {
      header = setup_header env s;
      response_code = ResponseCode.ok;
      present_voltage = env.from_float present_voltage;
    }

unfoldable pub on_control : DcWeldingDetection → Option ControlEvent → DcWeldingDetection
on_control s (some (ControlEvent.present_voltage_current voltage current)) = record s {
  present_voltage = voltage;
}
on_control s _ = s

abbrev is_ongoing : Processing → Bool
is_ongoing Processing.ongoing = true
is_ongoing _ = false

unfoldable pub on_message : Env → DcWeldingDetection → Message → Context → Fed DcWeldingDetection
unfolding handle_request respond stop reject end_session SessionStop.handle_request
on_message env s (Message.dc_welding_detection req) c =
    let res = handle_request env req c.session s.present_voltage in
    let c1 = respond env (Response.dc_welding_detection res) c in
    if is_failed res.response_code
    then fed no_result s (stop c1)
    else if is_ongoing req.processing
    then fed no_result s c1
    else fed (enter_state StateId.session_stop) s c1
on_message env s (Message.session_stop req) c =
    let res = SessionStop.handle_request env req c.session in
    fed no_result s (end_session req.charging_session (respond env (Response.session_stop res) c))
on_message env s m c = reject env m s c

unfoldable pub feed : Env → Event → DcWeldingDetection → Context → Option (Fed DcWeldingDetection)
unfolding on_control on_message with_request
feed env Event.control_message s c = some (fed no_result (on_control s c.current_control_event) c)
feed env Event.v2gtp_message s c = with_request c (λ m c'. on_message env s m c')
feed env _ s c = some (fed no_result s c)
