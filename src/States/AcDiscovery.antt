-- ===== src/States/AcDiscovery.antt =====
-- src/iso15118/d20/state/ac_charge_parameter_discovery.cpp.
pub mod Laws
use libiso.Prelude.{Bool, not, Option, none, some, if◌then◌else◌}
use mathlib.Core.Option.{get_or}
use libiso.Message.{
  Header, ResponseCode, is_failed, ServiceCategory, RationalNumber, zero_rational, DerControl,
  MessageType, AcCpdResEnergyTransferMode, BptAcCpdResEnergyTransferMode,
  DerAcCpdResEnergyTransferMode, EvOperatingMode, GridConnectionMode, AcReqTransferMode,
  AcResTransferMode, default_ac_discovery, AcChargeParameterDiscoveryRequest,
  AcChargeParameterDiscoveryResponse, Message, Response,
}
use libiso.Session.{Session, SelectedServiceParameters}
use libiso.Session.Modes.{selects}
use libiso.Floats.{Float}
use libiso.Config.{AcTransferLimits, AcPresentPower, ControlEvent, Limit, Limits}
use libiso.AcDer.{AcDerControlFailureReason, AcDerControlProvider}
use libiso.Context.{
  Env, AcDerControlDiagnostic, Context, Event, EvTransferLimits, Feedback, StateId, Fed, fed,
  no_result, enter_state, respond, call, stop, with_request,
}
use libiso.Context.Header.{setup_header, validate_header}
use libiso.States.SessionStop.{reject, stop_session}
use libiso.States.DerControl.{DerOutcome, check_der}

pub record AcChargeParameterDiscovery : Type 0 where
  pub present_powers : AcPresentPower

abbrev pub no_present_power : AcPresentPower
no_present_power = record {
  present_active_power = none;
  present_active_power_l2 = none;
  present_active_power_l3 = none;
}

-- The members after `enter`.
unfoldable pub enter : Context → AcChargeParameterDiscovery
enter c = record { present_powers = get_or c.cache_ac_present_power no_present_power }

abbrev pub min_of : Option Limit → Option RationalNumber
min_of none = none
min_of (some l) = some l.min

abbrev pub max_of : Option Limit → Option RationalNumber
max_of none = none
max_of (some l) = some l.max

-- `convert` to AC_CPDResEnergyTransferMode, of a new mode.
unfoldable pub convert_ac : AcTransferLimits → AcPresentPower → AcCpdResEnergyTransferMode
convert_ac l p = record {
  max_charge_power = l.charge_power.max;
  max_charge_power_l2 = max_of l.charge_power_l2;
  max_charge_power_l3 = max_of l.charge_power_l3;
  min_charge_power = l.charge_power.min;
  min_charge_power_l2 = min_of l.charge_power_l2;
  min_charge_power_l3 = min_of l.charge_power_l3;
  nominal_frequency = l.nominal_frequency;
  max_power_asymmetry = l.max_power_asymmetry;
  power_ramp_limitation = l.power_ramp_limitation;
  present_active_power = p.present_active_power;
  present_active_power_l2 = p.present_active_power_l2;
  present_active_power_l3 = p.present_active_power_l3;
}

-- `convert` to BPT_AC_CPDResEnergyTransferMode.
unfoldable pub convert_bpt : AcTransferLimits → AcPresentPower → BptAcCpdResEnergyTransferMode
unfolding convert_ac
convert_bpt l p = record {
  base = convert_ac l p;
  max_discharge_power = get_or (max_of l.discharge_power) zero_rational;
  max_discharge_power_l2 = max_of l.discharge_power_l2;
  max_discharge_power_l3 = max_of l.discharge_power_l3;
  min_discharge_power = get_or (min_of l.discharge_power) zero_rational;
  min_discharge_power_l2 = min_of l.discharge_power_l2;
  min_discharge_power_l3 = min_of l.discharge_power_l3;
}

-- `convert` to DER_AC_CPDResEnergyTransferMode, and the controls that are set after it.
unfoldable pub convert_der :
    AcTransferLimits → AcPresentPower → DerControl → DerAcCpdResEnergyTransferMode
unfolding convert_ac
convert_der l p control = record {
  base = convert_ac l p;
  nominal_charge_power = l.charge_power.max;
  nominal_charge_power_l2 = max_of l.charge_power_l2;
  nominal_charge_power_l3 = max_of l.charge_power_l3;
  nominal_discharge_power = get_or (max_of l.discharge_power) zero_rational;
  nominal_discharge_power_l2 = max_of l.discharge_power_l2;
  nominal_discharge_power_l3 = max_of l.discharge_power_l3;
  max_discharge_power = get_or (max_of l.discharge_power) zero_rational;
  max_discharge_power_l2 = max_of l.discharge_power_l2;
  max_discharge_power_l3 = max_of l.discharge_power_l3;
  operating_mode = EvOperatingMode.grid_following;
  grid_connection_mode = GridConnectionMode.grid_connected;
  der_control = control;
}

-- `AcChargeParameterDiscoveryResult`.
pub record AcDiscoveryResult : Type 0 where
  pub response : AcChargeParameterDiscoveryResponse
  pub ac_der_failure_reason : AcDerControlFailureReason

abbrev pub failed_with : Header → ResponseCode → AcDerControlFailureReason → AcDiscoveryResult
failed_with h code reason = record {
  response = default_ac_discovery h code;
  ac_der_failure_reason = reason;
}

abbrev pub succeeded : Header → AcResTransferMode → AcDiscoveryResult
succeeded h mode = record {
  response = record (default_ac_discovery h ResponseCode.ok) { transfer_mode = mode };
  ac_der_failure_reason = AcDerControlFailureReason.no_failure;
}

abbrev pub der_result : Header → AcTransferLimits → AcPresentPower → DerOutcome → AcDiscoveryResult
unfolding convert_der
der_result h l p (DerOutcome.refused reason) =
    failed_with h ResponseCode.failed_wrong_charge_parameter reason
der_result h l p (DerOutcome.granted controls config) =
    succeeded h (AcResTransferMode.der (convert_der l p config.cpd_control))

-- The branches over the transfer mode. The three alternatives are all that there are.
unfoldable pub discover :
    (RationalNumber → Float)
    → Header
    → AcTransferLimits
    → AcPresentPower
    → AcDerControlProvider
    → SelectedServiceParameters
    → AcReqTransferMode
    → AcDiscoveryResult
unfolding convert_ac convert_bpt convert_der
discover value_of h l p provider s (AcReqTransferMode.ac _) =
    if not (selects s.selected_energy_service ServiceCategory.ac)
    then failed_with h ResponseCode.failed_wrong_charge_parameter
        AcDerControlFailureReason.no_failure
    else succeeded h (AcResTransferMode.ac (convert_ac l p))
discover value_of h l p provider s (AcReqTransferMode.bpt _) =
    if not (selects s.selected_energy_service ServiceCategory.ac_bpt)
    then failed_with h ResponseCode.failed_wrong_charge_parameter
        AcDerControlFailureReason.no_failure
    else succeeded h (AcResTransferMode.bpt (convert_bpt l p))
discover value_of h l p provider s (AcReqTransferMode.der _) =
    der_result h l p
      (check_der value_of provider s (selects s.selected_energy_service ServiceCategory.ac_der))

unfoldable pub handle_request_with_diagnostics :
    Env
    → AcChargeParameterDiscoveryRequest
    → Session
    → AcTransferLimits
    → AcPresentPower
    → AcDerControlProvider
    → AcDiscoveryResult
unfolding setup_header validate_header discover
handle_request_with_diagnostics env req s l p provider =
    let h = setup_header env s in
    if not (validate_header s req.header.session_id)
    then failed_with h ResponseCode.failed_unknown_session AcDerControlFailureReason.no_failure
    else discover env.from_rational h l p provider s.selected_services req.transfer_mode

unfoldable pub on_control :
    AcChargeParameterDiscovery → Option ControlEvent → AcChargeParameterDiscovery
on_control s (some (ControlEvent.ac_present_power p)) = record s { present_powers = p }
on_control s _ = s

-- A diagnostic is sent for a failure that has a reason.
unfoldable pub report_failure :
    MessageType → ResponseCode → AcDerControlFailureReason → Context → Context
unfolding call
report_failure type code AcDerControlFailureReason.no_failure c = c
report_failure type code reason c =
    call
      (Feedback.ac_der_control_diagnostic
        (record { request_type = type; response_code = code; failure_reason = reason }))
      c

-- What follows a response, in the context that it is set in.
unfoldable pub conclude :
    AcDiscoveryResult
    → AcReqTransferMode
    → AcChargeParameterDiscovery
    → Context
    → Fed AcChargeParameterDiscovery
unfolding call report_failure stop
conclude r mode s c =
    if is_failed r.response.response_code
    then fed no_result s (
        stop (
          report_failure MessageType.ac_charge_parameter_discovery_req r.response.response_code
            r.ac_der_failure_reason c))
    else fed (enter_state StateId.schedule_exchange) s (call (Feedback.ac_limits mode) c)

unfoldable pub on_message :
    Env → AcChargeParameterDiscovery → Message → Context → Fed AcChargeParameterDiscovery
unfolding handle_request_with_diagnostics respond reject stop_session
on_message env s (Message.ac_charge_parameter_discovery req) c =
    let c1 = record c { ev_transfer_limits = EvTransferLimits.ac req.transfer_mode } in
    let r =
      handle_request_with_diagnostics env req c.session c.session_config.ac_limits s.present_powers
        c.session_config.ac_der_control_provider in
    conclude r req.transfer_mode s
      (respond env (Response.ac_charge_parameter_discovery r.response) c1)
on_message env s (Message.session_stop req) c = stop_session env req s c
on_message env s m c = reject env m s c

unfoldable pub feed :
    Env → Event → AcChargeParameterDiscovery → Context → Option (Fed AcChargeParameterDiscovery)
unfolding on_control on_message with_request
feed env Event.control_message s c = some (fed no_result (on_control s c.current_control_event) c)
feed env Event.v2gtp_message s c = with_request c (λ m c'. on_message env s m c')
feed env _ s c = some (fed no_result s c)
