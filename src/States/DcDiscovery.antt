-- ===== src/States/DcDiscovery.antt =====
-- src/iso15118/d20/state/dc_charge_parameter_discovery.cpp. The state object has no members of its own.
use libiso.Prelude.{not, ◌||◌, Option, none, some, if◌then◌else◌, has_value}
use libiso.Message.{
  ResponseCode, is_failed, ServiceCategory, zero_rational, DcCpdReqEnergyTransferMode,
  DcCpdResEnergyTransferMode, BptDcCpdResEnergyTransferMode, DcReqTransferMode, DcResTransferMode,
  default_dc_discovery, DcChargeParameterDiscoveryRequest, DcChargeParameterDiscoveryResponse,
  Message, Response,
}
use libiso.Session.{Session}
use libiso.Session.Modes.{selects}
use libiso.Config.{DcTransferLimits, Limits}
use libiso.Context.{
  Env, Context, DcMaximumLimits, Event, EvTransferLimits, Feedback, StateId, Fed, fed, no_result,
  enter_state, respond, call, stop, with_request,
}
use libiso.Context.Header.{setup_header, validate_header}
use libiso.States.SessionStop.{reject, stop_session}

-- `convert` to DC_CPDResEnergyTransferMode.
unfoldable pub convert_dc : DcTransferLimits → DcCpdResEnergyTransferMode
convert_dc l = record {
  max_charge_power = l.charge_limits.power.max;
  min_charge_power = l.charge_limits.power.min;
  max_charge_current = l.charge_limits.current.max;
  min_charge_current = l.charge_limits.current.min;
  max_voltage = l.voltage.max;
  min_voltage = l.voltage.min;
  power_ramp_limit = l.power_ramp_limit;
}

abbrev without_discharge : DcCpdResEnergyTransferMode → BptDcCpdResEnergyTransferMode
without_discharge m = record {
  base = m;
  max_discharge_power = zero_rational;
  min_discharge_power = zero_rational;
  max_discharge_current = zero_rational;
  min_discharge_current = zero_rational;
}

abbrev with_discharge :
    BptDcCpdResEnergyTransferMode → Option Limits → BptDcCpdResEnergyTransferMode
with_discharge m none = m
with_discharge m (some l) = record m {
  max_discharge_power = l.power.max;
  min_discharge_power = l.power.min;
  max_discharge_current = l.current.max;
  min_discharge_current = l.current.min;
}

-- `convert` to BPT_DC_CPDResEnergyTransferMode.
unfoldable pub convert_bpt : DcTransferLimits → BptDcCpdResEnergyTransferMode
unfolding convert_dc
convert_bpt l = with_discharge (without_discharge (convert_dc l)) l.discharge_limits

-- The code and, if it is OK, the mode of the response. Two alternatives are all that there are.
unfoldable pub discover :
    DcTransferLimits
    → Option ServiceCategory
    → DcReqTransferMode
    → ResponseCode × Option DcResTransferMode
unfolding convert_dc convert_bpt
discover l service (DcReqTransferMode.dc _) =
    if not (selects service ServiceCategory.dc || selects service ServiceCategory.mcs)
    then (ResponseCode.failed_wrong_charge_parameter, none)
    else (ResponseCode.ok, some (DcResTransferMode.dc (convert_dc l)))
discover l service (DcReqTransferMode.bpt _) =
    if not (selects service ServiceCategory.dc_bpt || selects service ServiceCategory.mcs_bpt)
    then (ResponseCode.failed_wrong_charge_parameter, none)
    else if not (has_value l.discharge_limits)
    then (ResponseCode.failed, none)
    else (ResponseCode.ok, some (DcResTransferMode.bpt (convert_bpt l)))

abbrev pub with_mode :
    DcChargeParameterDiscoveryResponse
    → Option DcResTransferMode
    → DcChargeParameterDiscoveryResponse
with_mode res none = res
with_mode res (some m) = record res { transfer_mode = m }

unfoldable pub handle_request :
    Env
    → DcChargeParameterDiscoveryRequest
    → Session
    → DcTransferLimits
    → DcChargeParameterDiscoveryResponse
unfolding setup_header validate_header discover
handle_request env req s limits =
    let h = setup_header env s in
    let d = discover limits s.selected_services.selected_energy_service req.transfer_mode in
    if not (validate_header s req.header.session_id)
    then default_dc_discovery h ResponseCode.failed_unknown_session
    else with_mode (default_dc_discovery h d.0) d.1

abbrev charge_limits : DcReqTransferMode → DcCpdReqEnergyTransferMode
charge_limits (DcReqTransferMode.dc m) = m
charge_limits (DcReqTransferMode.bpt m) = m.base

unfoldable pub maximum_limits : Env → DcReqTransferMode → DcMaximumLimits
maximum_limits env mode =
    let m = charge_limits mode in
    record {
      voltage = env.from_rational m.max_voltage;
      current = env.from_rational m.max_charge_current;
      power = env.from_rational m.max_charge_power;
    }

unfoldable pub on_message : Env → Unit {0} → Message → Context → Fed (Unit {0})
unfolding handle_request maximum_limits respond call stop reject stop_session
on_message env s (Message.dc_charge_parameter_discovery req) c =
    let c1 = record c { ev_transfer_limits = EvTransferLimits.dc req.transfer_mode } in
    let res = handle_request env req c.session c.session_config.powersupply_limits in
    let c2 = respond env (Response.dc_charge_parameter_discovery res) c1 in
    let c3 = call (Feedback.dc_max_limits (maximum_limits env req.transfer_mode)) c2 in
    if is_failed res.response_code
    then fed no_result s (stop c3)
    else fed (enter_state StateId.schedule_exchange) s c3
on_message env s (Message.session_stop req) c = stop_session env req s c
on_message env s m c = reject env m s c

unfoldable pub feed : Env → Event → Unit {0} → Context → Option (Fed (Unit {0}))
unfolding on_message with_request
feed env Event.v2gtp_message s c = with_request c (λ m c'. on_message env s m c')
feed env _ s c = some (fed no_result s c)
