-- ===== src/States/AcChargeLoop.antt =====
-- src/iso15118/d20/state/ac_charge_loop.cpp. The flag of the first entry is constructed false.
pub mod Modes
pub mod Laws
use libiso.Prelude.{ℕ, Bool, true, false, not, Option, none, some, if◌then◌else◌}
use mathlib.Core.Option.{get_or}
use libiso.Message.{
  Header, ResponseCode, is_failed, DisplayParameters, AcResControlMode, MessageType,
  default_ac_charge_loop, AcChargeLoopRequest, AcChargeLoopResponse, PowerDeliveryResponse,
  Progress, Message, Response,
}
use libiso.Session.{Session, SelectedServiceParameters}
use libiso.Config.{
  Float, ControlEvent, AcTransferLimits, AcTargetPower, AcPresentPower, UpdateDynamicModeParameters,
}
use libiso.AcDer.{AcDerControlFailureReason, AcDerControlProvider}
use libiso.Context.{
  Env, ChargeLoopReq, Context, Event, Feedback, Signal, StateId, Fed, fed, no_result, enter_state,
  respond, call, send_signal, stop, with_request,
}
use libiso.Context.Header.{setup_header, validate_header}
use libiso.States.SessionStop.{reject}
use libiso.States.PowerDelivery
use libiso.States.AcDiscovery.{no_present_power, report_failure}
use libiso.States.DcChargeLoop.{evse_status, is_stop}
use libiso.States.DynamicMode.{cached_parameters}
use libiso.States.AcChargeLoop.Modes.{ModeOutcome, control_mode_for}

pub record AcChargeLoop : Type 0 where
  pub target_frequency : Float
  pub stop : Bool
  pub pause : Bool
  pub dynamic_parameters : UpdateDynamicModeParameters
  pub target_powers : AcTargetPower
  pub present_powers : AcPresentPower
  pub first_entry_in_charge_loop : Bool

abbrev pub no_target_power : AcTargetPower
no_target_power = record {
  target_active_power = none;
  target_active_power_l2 = none;
  target_active_power_l3 = none;
  target_reactive_power = none;
  target_reactive_power_l2 = none;
  target_reactive_power_l3 = none;
  target_frequency = none;
}

-- The members after `enter`.
unfoldable pub enter : Context → AcChargeLoop
enter c = record {
  target_frequency = 0;
  stop = false;
  pause = false;
  dynamic_parameters = cached_parameters c.cache_dynamic_mode_parameters;
  target_powers = get_or c.cache_ac_target_power no_target_power;
  present_powers = get_or c.cache_ac_present_power no_present_power;
  first_entry_in_charge_loop = false;
}

-- `AcChargeLoopResult`.
pub record AcChargeLoopResult : Type 0 where
  pub response : AcChargeLoopResponse
  pub ac_der_failure_reason : AcDerControlFailureReason

abbrev pub failed_with : Header → ResponseCode → AcDerControlFailureReason → AcChargeLoopResult
failed_with h code reason = record {
  response = default_ac_charge_loop h code;
  ac_der_failure_reason = reason;
}

-- The response with a control mode, or the failure that there is none.
unfoldable pub answer_mode :
    Env → Header → SelectedServiceParameters → AcChargeLoop → ModeOutcome → AcChargeLoopResult
unfolding evse_status
answer_mode env h selected loop (ModeOutcome.failed reason) =
    failed_with h ResponseCode.failed reason
answer_mode env h selected loop (ModeOutcome.mode m) = record {
  response = record (default_ac_charge_loop h ResponseCode.ok) {
    status = evse_status loop.stop loop.pause selected.selected_control_mode;
    target_frequency = some (env.from_float loop.target_frequency);
    control_mode = m;
  };
  ac_der_failure_reason = AcDerControlFailureReason.no_failure;
}

unfoldable pub handle_request_with_diagnostics :
    Env
    → AcChargeLoopRequest
    → Session
    → AcChargeLoop
    → AcTransferLimits
    → AcDerControlProvider
    → AcChargeLoopResult
unfolding setup_header validate_header answer_mode
handle_request_with_diagnostics env req s loop limits provider =
    let h = setup_header env s in
    if not (validate_header s req.header.session_id)
    then failed_with h ResponseCode.failed_unknown_session AcDerControlFailureReason.no_failure
    else answer_mode env h s.selected_services loop (
        control_mode_for env.from_rational s.selected_services limits loop.target_powers
          loop.present_powers loop.dynamic_parameters h.timestamp provider req.control_mode)

unfoldable pub on_control : AcChargeLoop → Option ControlEvent → AcChargeLoop
on_control s (some (ControlEvent.stop_charging b)) = record s { stop = b }
on_control s (some (ControlEvent.pause_charging b)) = record s { pause = b }
on_control s (some (ControlEvent.update_dynamic_mode_parameters p)) = record s {
  dynamic_parameters = p;
}
on_control s (some (ControlEvent.ac_target_power p)) = record s { target_powers = p }
on_control s (some (ControlEvent.ac_present_power p)) = record s { present_powers = p }
on_control s _ = s

abbrev report_display : Option DisplayParameters → Context → Context
unfolding call
report_display none c = c
report_display (some d) c =
    call (Feedback.ac_charge_loop_req (ChargeLoopReq.display_parameters d)) c

abbrev report_request : AcChargeLoopRequest → Context → Context
unfolding call
report_request req c =
    let c1 = call (Feedback.ac_charge_loop_req (ChargeLoopReq.control_mode req.control_mode)) c in
    let c2 =
      call
        (Feedback.ac_charge_loop_req (ChargeLoopReq.meter_info_requested req.meter_info_requested))
        c1 in
    report_display req.display_parameters c2

-- What follows a response, in the context that it is set in: to a PowerDeliveryReq, which goes straight
-- to SessionStop, and to a request of the loop.
unfoldable pub conclude_power :
    PowerDeliveryResponse → Progress → AcChargeLoop → Context → Fed AcChargeLoop
unfolding send_signal stop
conclude_power res progress s c =
    if is_failed res.response_code
    then fed no_result s (stop c)
    else if is_stop progress
    then fed (enter_state StateId.session_stop) s
        (send_signal Signal.ac_open_contactor (send_signal Signal.charge_loop_finished c))
    else fed no_result s c

unfoldable pub conclude_loop :
    AcChargeLoopResult → AcChargeLoopRequest → AcChargeLoop → Context → Fed AcChargeLoop
unfolding call report_failure stop
conclude_loop r req s c =
    if is_failed r.response.response_code
    then fed no_result s (
        stop (
          report_failure MessageType.ac_charge_loop_req r.response.response_code
            r.ac_der_failure_reason c))
    else fed no_result s (report_request req c)

unfoldable pub on_message : Env → AcChargeLoop → Message → Context → Fed AcChargeLoop
unfolding handle_request_with_diagnostics PowerDelivery.handle_request respond send_signal reject
on_message env s (Message.power_delivery req) c =
    let res = PowerDelivery.handle_request env req c.session false in
    conclude_power res req.charge_progress s (respond env (Response.power_delivery res) c)
on_message env s (Message.ac_charge_loop req) c =
    let c1 = if s.first_entry_in_charge_loop then send_signal Signal.charge_loop_started c else c in
    let s1 = record s { first_entry_in_charge_loop = false } in
    let r =
      handle_request_with_diagnostics env req c.session s c.session_config.ac_limits
        c.session_config.ac_der_control_provider in
    conclude_loop r req s1 (respond env (Response.ac_charge_loop r.response) c1)
on_message env s m c = reject env m s c

unfoldable pub feed : Env → Event → AcChargeLoop → Context → Option (Fed AcChargeLoop)
unfolding on_control on_message with_request
feed env Event.control_message s c = some (fed no_result (on_control s c.current_control_event) c)
feed env Event.v2gtp_message s c = with_request c (λ m c'. on_message env s m c')
feed env _ s c = some (fed no_result s c)
