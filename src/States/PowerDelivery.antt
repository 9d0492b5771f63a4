-- ===== src/States/PowerDelivery.antt =====
-- src/iso15118/d20/state/power_delivery.cpp.
pub mod Laws
use libiso.Prelude.{Bool, true, false, not, ◌&&◌, Option, none, some, List, [], ◌∷◌, if◌then◌else◌}
use mathlib.Core.Option.{get_or}
use libiso.Message.{
  Header, ResponseCode, is_failed, Processing, Progress, PowerDeliveryRequest,
  PowerDeliveryResponse, Message, Response,
}
use libiso.Session.{Session, is_ac_charger, is_dc_charger}
use libiso.Config.{Float, ControlEvent}
use libiso.Timeouts.{TimeoutType}
use libiso.Context.{
  Env, Signal, Feedback, Context, Event, StateId, Fed, fed, no_result, enter_state, respond, call,
  send_signal, stop, start_timeout, stop_timeout, with_request,
}
use libiso.Context.Header.{setup_header, validate_header}
use libiso.States.SessionStop.{reject}
use libiso.States.PreCharge

pub record PowerDelivery : Type 0 where
  pub present_voltage : Float
  pub ac_connector_closed : Bool
  pub previous_req : Option PowerDeliveryRequest

unfoldable pub initial : PowerDelivery
initial = record { present_voltage = 0; ac_connector_closed = false; previous_req = none }

-- `PowerDeliveryRequest{}`.
abbrev default_request : PowerDeliveryRequest
default_request = record {
  header = record { session_id = 0 ∷ 0 ∷ 0 ∷ 0 ∷ 0 ∷ 0 ∷ 0 ∷ 0 ∷ []; timestamp = 0 };
  processing = Processing.finished;
  charge_progress = Progress.start;
  power_profile = none;
  channel_selection = none;
}

abbrev pub is_start : Progress → Bool
is_start Progress.start = true
is_start _ = false

abbrev pub is_standby : Progress → Bool
is_standby Progress.standby = true
is_standby _ = false

unfoldable pub handle_request : Env → PowerDeliveryRequest → Session → Bool → PowerDeliveryResponse
unfolding setup_header validate_header
handle_request env req s contactor_error =
    if not (validate_header s req.header.session_id)
    then res ResponseCode.failed_unknown_session
    else if contactor_error
    then res ResponseCode.failed_contactor_error
    else if is_standby req.charge_progress
    then res ResponseCode.warning_standby_not_allowed
    else res ResponseCode.ok
  where
    res : ResponseCode → PowerDeliveryResponse
    res code = record { header = setup_header env s; response_code = code; status = none }

-- The answer to the request that waited for the contactor.
abbrev answer_saved :
    Env → PowerDelivery → Option PowerDeliveryRequest → Context → Fed PowerDelivery
unfolding respond stop handle_request
answer_saved env s none c = fed no_result s c
answer_saved env s (some req) c =
    let res = handle_request env req c.session false in
    let c1 = respond env (Response.power_delivery res) c in
    if is_failed res.response_code
    then fed no_result s (stop c1)
    else fed (enter_state StateId.ac_charge_loop) s c1

-- `ac_connector_closed = control_data` stores whether there is a ClosedContactor event, not the
-- value that the event carries, so the test for an open contactor below it never holds.
unfoldable pub on_control : Env → PowerDelivery → Option ControlEvent → Context → Fed PowerDelivery
unfolding respond stop stop_timeout handle_request
on_control env s (some (ControlEvent.present_voltage_current voltage current)) c =
    fed no_result (record s { present_voltage = voltage }) c
on_control env s (some (ControlEvent.closed_contactor closed)) c =
    let s1 = record s { ac_connector_closed = true } in
    if not s1.ac_connector_closed
    then fed no_result s1 c
    else answer_saved env s1 s1.previous_req (stop_timeout TimeoutType.contactor c)
on_control env s _ c = fed no_result s c

unfoldable pub on_timeout : Env → PowerDelivery → Option TimeoutType → Context → Fed PowerDelivery
unfolding respond stop handle_request
on_timeout env s (some TimeoutType.contactor) c =
    let res = handle_request env (get_or s.previous_req default_request) c.session true in
    fed no_result s (stop (respond env (Response.power_delivery res) c))
on_timeout env s _ c = fed no_result s c

unfoldable pub on_message : Env → PowerDelivery → Message → Context → Fed PowerDelivery
unfolding handle_request send_signal call respond stop start_timeout reject PreCharge.handle_request
on_message env s (Message.dc_pre_charge req) c =
    let res = PreCharge.handle_request env req c.session s.present_voltage in
    let c1 =
      call (Feedback.dc_pre_charge_target_voltage (env.from_rational req.target_voltage)) c in
    let c2 = respond env (Response.dc_pre_charge res) c1 in
    if is_failed res.response_code then fed no_result s (stop c2) else fed no_result s c2
on_message env s (Message.power_delivery req) c =
    let c1 = if is_start req.charge_progress then send_signal Signal.setup_finished c else c in
    let res = handle_request env req c.session false in
    let c2 = respond env (Response.power_delivery res) c1 in
    if is_ac_charger c.session && not s.ac_connector_closed && is_start req.charge_progress
    then fed no_result (record s { previous_req = some req })
        (start_timeout env TimeoutType.contactor 3000 (send_signal Signal.ac_close_contactor c1))
    else if is_failed res.response_code
    then fed no_result s (stop c2)
    else if is_ac_charger c.session
    then fed (enter_state StateId.ac_charge_loop) s c2
    else if is_dc_charger c.session
    then fed (enter_state StateId.dc_charge_loop) s c2
    else fed no_result s (stop c2)
on_message env s m c = reject env m s c

unfoldable pub feed : Env → Event → PowerDelivery → Context → Option (Fed PowerDelivery)
unfolding on_control on_timeout on_message with_request
feed env Event.control_message s c = some (on_control env s c.current_control_event c)
feed env Event.timeout s c = some (on_timeout env s c.current_timeout c)
feed env Event.v2gtp_message s c = with_request c (λ m c'. on_message env s m c')
feed env _ s c = some (fed no_result s c)
