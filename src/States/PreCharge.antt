-- ===== src/States/PreCharge.antt =====
-- src/iso15118/d20/state/dc_pre_charge.cpp.
use libiso.Prelude.{Bool, true, false, not, Option, some, if◌then◌else◌}
use libiso.Message.{
  ResponseCode, is_failed, DcPreChargeRequest, DcPreChargeResponse, Message, Response,
}
use libiso.Session.{Session}
use libiso.Config.{Float, ControlEvent}
use libiso.Context.{
  Env, Signal, Feedback, Context, Event, StateId, Fed, fed, no_result, enter_state, respond, call,
  send_signal, stop, with_request,
}
use libiso.Context.Header.{setup_header, validate_header}
use libiso.States.SessionStop.{reject, stop_session}

pub record DcPreCharge : Type 0 where
  pub pre_charge_initiated : Bool
  pub present_voltage : Float

unfoldable pub initial : DcPreCharge
initial = record { pre_charge_initiated = false; present_voltage = 0 }

unfoldable pub handle_request : Env → DcPreChargeRequest → Session → Float → DcPreChargeResponse
unfolding setup_header validate_header
handle_request env req s present_voltage =
    if not (validate_header s req.header.session_id)
    then record {
      header = setup_header env s;
      response_code = ResponseCode.failed_unknown_session;
      present_voltage = record { value = 0; exponent = 0 };
    }
    else record {
      header = setup_header env s;
      response_code = ResponseCode.ok;
      present_voltage = env.from_float present_voltage;
    }

unfoldable pub on_control : DcPreCharge → Option ControlEvent → DcPreCharge
on_control s (some (ControlEvent.present_voltage_current voltage current)) = record s {
  present_voltage = voltage;
}
on_control s _ = s

unfoldable pub on_message : Env → DcPreCharge → Message → Context → Fed DcPreCharge
unfolding handle_request send_signal call respond stop reject stop_session
on_message env s (Message.dc_pre_charge req) c =
    let c1 = if s.pre_charge_initiated then c else send_signal Signal.pre_charge_started c in
    let s1 = record s { pre_charge_initiated = true } in
    let res = handle_request env req c.session s.present_voltage in
    let c2 =
      call (Feedback.dc_pre_charge_target_voltage (env.from_rational req.target_voltage)) c1 in
    let c3 = respond env (Response.dc_pre_charge res) c2 in
    if is_failed res.response_code
    then fed no_result s1 (stop c3)
    else fed (enter_state StateId.power_delivery) s1 c3
on_message env s (Message.session_stop req) c = stop_session env req s c
on_message env s m c = reject env m s c

unfoldable pub feed : Env → Event → DcPreCharge → Context → Option (Fed DcPreCharge)
unfolding on_control on_message with_request
feed env Event.control_message s c = some (fed no_result (on_control s c.current_control_event) c)
feed env Event.v2gtp_message s c = with_request c (λ m c'. on_message env s m c')
feed env _ s c = some (fed no_result s c)
