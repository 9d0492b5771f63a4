-- ===== src/States/ScheduleExchange.antt =====
-- src/iso15118/d20/state/schedule_exchange.cpp.
pub mod Laws
use libiso.Prelude.{
  ℕ, Bool, true, false, not, ◌&&◌, Option, none, some, List, [], ◌∷◌, if◌then◌else◌,
}
use libiso.Message.{
  ResponseCode, is_failed, Processing, RationalNumber, zero_rational, ScheduleTuple, PowerSchedule,
  PriceSchedule, ScheduleReqControlMode, ScheduleResControlMode, ScheduledSeResControlMode,
  empty_dynamic_mode, default_schedule_exchange, ScheduleExchangeRequest, ScheduleExchangeResponse,
  Message, Response,
}
use libiso.Session.{Session, SelectedServiceParameters, is_ac_charger, is_dc_charger}
use libiso.Session.Modes.{is_scheduled, is_dynamic, is_provided_by_secc, ac_connector_of}
use libiso.Config.{
  ControlEvent, UpdateDynamicModeParameters, SessionConfig, DcTransferLimits, Limit, Limits,
}
use libiso.Timeouts.{TimeoutType, timeout_ongoing}
use libiso.Context.{
  Env, Context, Event, EvseTransferLimits, Feedback, StateId, Fed, fed, no_result, enter_state,
  respond, call, stop, start_timeout, stop_timeout, with_request,
}
use libiso.Context.Header.{setup_header, validate_header}
use libiso.States.SessionStop.{reject, stop_session}
use libiso.States.DynamicMode.{no_parameters, set_schedule_parameters}

pub record ScheduleExchange : Type 0 where
  pub dynamic_parameters : UpdateDynamicModeParameters
  pub first_req_msg : Bool
  pub timeout_ongoing_reached : Bool

unfoldable pub initial : ScheduleExchange
initial = record {
  dynamic_parameters = no_parameters;
  first_req_msg = true;
  timeout_ongoing_reached = false;
}

-- One schedule, active from now for a day, at the maximum power.
unfoldable pub create_default_scheduled_control_mode :
    Env → RationalNumber → ScheduledSeResControlMode
create_default_scheduled_control_mode env max_power = record {
  schedule_tuple =
      (record {
        schedule_tuple_id = 1;
        charging_schedule = record {
          power_schedule = record {
            time_anchor = env.time_s;
            available_energy = none;
            power_tolerance = none;
            entries =
                (record { duration = 86400; power = max_power; power_l2 = none; power_l3 = none })
                ∷ [];
          };
          price_schedule = PriceSchedule.no_schedule;
        };
        discharging_schedule = none;
      })
      ∷ [];
}

-- The control mode of the response; `none` if the request does not match the selection.
unfoldable pub control_mode_for :
    Env
    → SelectedServiceParameters
    → RationalNumber
    → UpdateDynamicModeParameters
    → ℕ
    → ScheduleReqControlMode
    → Option ScheduleResControlMode
unfolding create_default_scheduled_control_mode set_schedule_parameters
control_mode_for env s max_power p timestamp (ScheduleReqControlMode.scheduled _) =
    if is_scheduled s.selected_control_mode
    then some
        (ScheduleResControlMode.scheduled (create_default_scheduled_control_mode env max_power))
    else none
control_mode_for env s max_power p timestamp (ScheduleReqControlMode.dynamic _) =
    if is_dynamic s.selected_control_mode
    then some (
        ScheduleResControlMode.dynamic (
          if is_provided_by_secc s.selected_mobility_needs_mode
          then set_schedule_parameters p timestamp empty_dynamic_mode
          else empty_dynamic_mode))
    else none

unfoldable pub handle_request :
    Env
    → ScheduleExchangeRequest
    → Session
    → RationalNumber
    → UpdateDynamicModeParameters
    → Bool
    → ScheduleExchangeResponse
unfolding setup_header validate_header control_mode_for
handle_request env req s max_power p timeout_reached =
    let h = setup_header env s in
    if not (validate_header s req.header.session_id)
    then default_schedule_exchange h ResponseCode.failed_unknown_session
    else if timeout_reached
    then default_schedule_exchange h ResponseCode.failed
    else elim (control_mode_for env s.selected_services max_power p h.timestamp req.control_mode) [
      | none ↦ default_schedule_exchange h ResponseCode.failed
      | some mode ↦ record (default_schedule_exchange h ResponseCode.ok) { control_mode = mode }
    ]

abbrev pub is_ongoing : Processing → Bool
is_ongoing Processing.ongoing = true
is_ongoing _ = false

unfoldable pub on_control : ScheduleExchange → Option ControlEvent → ScheduleExchange
on_control s (some (ControlEvent.update_dynamic_mode_parameters p)) = record s {
  dynamic_parameters = p;
}
on_control s _ = s

unfoldable pub on_timeout : ScheduleExchange → Option TimeoutType → ScheduleExchange
on_timeout s (some TimeoutType.ongoing) = record s { timeout_ongoing_reached = true }
on_timeout s _ = s

abbrev pub maximum_power : Context → RationalNumber
maximum_power c =
    if is_dc_charger c.session
    then c.session_config.dc_limits.charge_limits.power.max
    else zero_rational

abbrev no_limit : Limit
no_limit = record { max = zero_rational; min = zero_rational }

-- The first alternative of the variant, as it is constructed.
abbrev no_limits : EvseTransferLimits
no_limits = EvseTransferLimits.dc (record {
  charge_limits = record { power = no_limit; current = no_limit };
  discharge_limits = none;
  voltage = no_limit;
  power_ramp_limit = none;
})

abbrev pub evse_limits_of : Context → EvseTransferLimits
evse_limits_of c =
    if is_ac_charger c.session
    then EvseTransferLimits.ac c.session_config.ac_limits
    else if is_dc_charger c.session
    then EvseTransferLimits.dc c.session_config.dc_limits
    else no_limits

unfoldable pub notify_needs : ScheduleReqControlMode → Context → Context
unfolding call
notify_needs mode c =
    let s = c.session.selected_services in
    call
      (Feedback.notify_ev_charging_needs (record {
        energy_service = s.selected_energy_service;
        ac_connector = ac_connector_of s.selected_connector;
        control_mode = s.selected_control_mode;
        mobility_needs_mode = s.selected_mobility_needs_mode;
        evse_limits = evse_limits_of c;
        ev_limits = c.ev_transfer_limits;
        ev_control_mode = mode;
        ev_energy_services = c.ev_energy_services;
      }))
      c

-- What follows a response, in the context that it is set in.
unfoldable pub conclude :
    ScheduleExchangeResponse → ScheduleExchange → Context → Fed ScheduleExchange
unfolding stop_timeout stop
conclude res s c =
    let c1 = stop_timeout TimeoutType.ongoing c in
    if is_failed res.response_code
    then fed no_result s (stop c)
    else if is_ongoing res.processing
    then fed no_result s c
    else if is_ac_charger c.session
    then fed (enter_state StateId.power_delivery) s c1
    else if is_dc_charger c.session
    then fed (enter_state StateId.dc_cable_check) s c1
    else fed no_result s (stop c1)

unfoldable pub on_message : Env → ScheduleExchange → Message → Context → Fed ScheduleExchange
unfolding start_timeout notify_needs handle_request respond reject stop_session
on_message env s (Message.schedule_exchange req) c =
    let c1 =
      if s.first_req_msg then start_timeout env TimeoutType.ongoing timeout_ongoing c else c in
    let s1 = record s { first_req_msg = false } in
    let c2 = notify_needs req.control_mode c1 in
    let res =
      handle_request env req c.session (maximum_power c) s.dynamic_parameters
        s.timeout_ongoing_reached in
    conclude res s1 (respond env (Response.schedule_exchange res) c2)
on_message env s (Message.session_stop req) c = stop_session env req s c
on_message env s m c = reject env m s c

unfoldable pub feed : Env → Event → ScheduleExchange → Context → Option (Fed ScheduleExchange)
unfolding on_control on_timeout on_message with_request
feed env Event.control_message s c = some (fed no_result (on_control s c.current_control_event) c)
feed env Event.timeout s c = some (fed no_result (on_timeout s c.current_timeout) c)
feed env Event.v2gtp_message s c = with_request c (λ m c'. on_message env s m c')
feed env _ s c = some (fed no_result s c)
