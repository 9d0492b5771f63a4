-- ===== src/States/DcChargeLoop.antt =====
-- src/iso15118/d20/state/dc_charge_loop.cpp.
pub mod Modes
pub mod Laws
use libiso.Prelude.{
  ℕ, Bool, true, false, not, ◌&&◌, ◌||◌, Option, none, some, if◌then◌else◌, has_value,
}
use libiso.Message.{
  ResponseCode, is_failed, Progress, EvseNotification, EvseStatus, ControlMode, ServiceCategory,
  zero_rational, DisplayParameters, DynamicClResControlMode, ScheduledDcClResControlMode,
  BptScheduledDcClResControlMode, DynamicDcClResControlMode, BptDynamicDcClResControlMode,
  DcReqControlMode, DcResControlMode, default_dc_charge_loop, DcChargeLoopRequest,
  DcChargeLoopResponse, PowerDeliveryRequest, PowerDeliveryResponse, Message, Response,
}
use libiso.Session.{Session, SelectedServiceParameters}
use libiso.Session.Modes.{selects, is_scheduled, is_dynamic, is_provided_by_secc}
use libiso.Config.{
  Float, ControlEvent, DcTransferLimits, Limit, Limits, UpdateDynamicModeParameters,
}
use libiso.Context.{
  Env, ChargeLoopReq, Context, Event, Feedback, Signal, StateId, Fed, fed, no_result, enter_state,
  respond, call, send_signal, stop, with_request,
}
use libiso.Context.Header.{setup_header, validate_header}
use libiso.States.SessionStop.{reject}
use libiso.States.PowerDelivery
use libiso.States.DynamicMode.{cached_parameters}
use libiso.States.DcChargeLoop.Modes.{control_mode_for}

pub record DcChargeLoop : Type 0 where
  pub present_voltage : Float
  pub present_current : Float
  pub stop : Bool
  pub pause : Bool
  pub dynamic_parameters : UpdateDynamicModeParameters
  pub first_entry_in_charge_loop : Bool

-- The members after `enter`.
unfoldable pub enter : Context → DcChargeLoop
enter c = record {
  present_voltage = 0;
  present_current = 0;
  stop = false;
  pause = false;
  dynamic_parameters = cached_parameters c.cache_dynamic_mode_parameters;
  first_entry_in_charge_loop = true;
}

-- The status of a response, in a loop of AC too: a request to stop goes before one to pause.
unfoldable pub evse_status : Bool → Bool → Option ControlMode → Option EvseStatus
evse_status true pause m =
    some (record { notification_max_delay = 0; notification = EvseNotification.terminate })
evse_status false true m = some (record {
  notification_max_delay = if is_dynamic m then 60 else 0;
  notification = EvseNotification.pause;
})
evse_status false false m = none

unfoldable pub handle_request :
    Env
    → DcChargeLoopRequest
    → Session
    → Float
    → Float
    → Bool
    → Bool
    → DcTransferLimits
    → UpdateDynamicModeParameters
    → DcChargeLoopResponse
unfolding setup_header validate_header control_mode_for evse_status
handle_request env req s voltage current stop pause limits p =
    let h = setup_header env s in
    if not (validate_header s req.header.session_id)
    then default_dc_charge_loop h ResponseCode.failed_unknown_session
    else elim (control_mode_for s.selected_services limits p h.timestamp req.control_mode) [
      | none ↦ default_dc_charge_loop h ResponseCode.failed
      | some mode ↦ record (default_dc_charge_loop h ResponseCode.ok) {
        status = evse_status stop pause s.selected_services.selected_control_mode;
        present_current = env.from_float current;
        present_voltage = env.from_float voltage;
        control_mode = mode;
      }
    ]

unfoldable pub on_control : DcChargeLoop → Option ControlEvent → DcChargeLoop
on_control s (some (ControlEvent.present_voltage_current voltage current)) = record s {
  present_voltage = voltage;
  present_current = current;
}
on_control s (some (ControlEvent.stop_charging b)) = record s { stop = b }
on_control s (some (ControlEvent.pause_charging b)) = record s { pause = b }
on_control s (some (ControlEvent.update_dynamic_mode_parameters p)) = record s {
  dynamic_parameters = p;
}
on_control s _ = s

abbrev pub is_stop : Progress → Bool
is_stop Progress.stop = true
is_stop _ = false

abbrev report_display : Option DisplayParameters → Context → Context
unfolding call
report_display none c = c
report_display (some d) c =
    call (Feedback.dc_charge_loop_req (ChargeLoopReq.display_parameters d)) c

abbrev report_request : DcChargeLoopRequest → Context → Context
unfolding call
report_request req c =
    let c1 = call (Feedback.dc_charge_loop_req (ChargeLoopReq.control_mode req.control_mode)) c in
    let c2 =
      call (Feedback.dc_charge_loop_req (ChargeLoopReq.present_voltage req.present_voltage)) c1 in
    let c3 =
      call
        (Feedback.dc_charge_loop_req (ChargeLoopReq.meter_info_requested req.meter_info_requested))
        c2 in
    report_display req.display_parameters c3

-- What follows a response, in the context that it is set in: to a PowerDeliveryReq, and to a request
-- of the loop.
unfoldable pub conclude_power :
    PowerDeliveryResponse → Progress → DcChargeLoop → Context → Fed DcChargeLoop
unfolding send_signal stop
conclude_power res progress s c =
    let s1 = record s { first_entry_in_charge_loop = true } in
    if is_failed res.response_code
    then fed no_result s (stop c)
    else if is_stop progress
    then fed (enter_state StateId.dc_welding_detection) s1
        (send_signal Signal.dc_open_contactor (send_signal Signal.charge_loop_finished c))
    else fed no_result s1 c

unfoldable pub conclude_loop :
    DcChargeLoopResponse → DcChargeLoopRequest → DcChargeLoop → Context → Fed DcChargeLoop
unfolding call stop
conclude_loop res req s c =
    if is_failed res.response_code
    then fed no_result s (stop c)
    else fed no_result s (report_request req c)

unfoldable pub on_message : Env → DcChargeLoop → Message → Context → Fed DcChargeLoop
unfolding handle_request PowerDelivery.handle_request respond send_signal reject
on_message env s (Message.power_delivery req) c =
    let res = PowerDelivery.handle_request env req c.session false in
    conclude_power res req.charge_progress s (respond env (Response.power_delivery res) c)
on_message env s (Message.dc_charge_loop req) c =
    let c1 = if s.first_entry_in_charge_loop then send_signal Signal.charge_loop_started c else c in
    let s1 = record s { first_entry_in_charge_loop = false } in
    let res =
      handle_request env req c.session s.present_voltage s.present_current s.stop s.pause
        c.session_config.dc_limits s.dynamic_parameters in
    conclude_loop res req s1 (respond env (Response.dc_charge_loop res) c1)
on_message env s m c = reject env m s c

unfoldable pub feed : Env → Event → DcChargeLoop → Context → Option (Fed DcChargeLoop)
unfolding on_control on_message with_request
feed env Event.control_message s c = some (fed no_result (on_control s c.current_control_event) c)
feed env Event.v2gtp_message s c = with_request c (λ m c'. on_message env s m c')
feed env _ s c = some (fed no_result s c)
