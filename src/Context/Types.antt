-- ===== src/Context/Types.antt =====
-- The record types of the context, and what a call takes from outside the library.
use Prim.Native.String.{String}
use libiso.Prelude.{ℕ, Bool, true, false, Option, none, some, List}
use libiso.Message.{
  SessionId, GenChallenge, RationalNumber, ServiceCategory, SupportedAppProtocol, MessageType,
  Response, ResponseCode, ParameterSet, VasSelectedService, DcReqTransferMode, AcReqTransferMode,
  DisplayParameters, DcReqControlMode, AcReqControlMode, ScheduleReqControlMode, AcConnector,
  ControlMode, MobilityNeedsMode,
}
use libiso.AcDer.{AcDerControlFailureReason}
use libiso.Session.{Session, SelectedServiceParameters, PauseContext}
use libiso.Config.{
  Float, SessionConfig, ControlEvent, UpdateDynamicModeParameters, DcTransferLimits,
  AcTransferLimits, AcTargetPower, AcPresentPower,
}
use libiso.Exchange.{MessageExchange}
use libiso.Timeouts.{TimePoint, TimeoutType, Timeouts}

-- What one call reads from outside: the clocks, fresh random bytes, the EXI encoder's result size,
-- SHA-512 (`EVP_Digest`, `none` if it fails), the conversions between float and the rational numbers of
-- the messages (floating-point arithmetic, message/common_types.cpp) and from uint32_t to float, and
-- what the callback for the parameters of a value added service answers.
pub record Env : Type 0 where
  pub time_s : ℕ  -- std::time(nullptr), uint64_t
  pub now : TimePoint
  pub fresh_session_id : SessionId
  pub fresh_challenge : GenChallenge
  pub serialize : Response → ℕ
  pub sha512 : List ℕ → Option (List ℕ)
  pub from_float : Float → RationalNumber
  pub from_rational : RationalNumber → Float
  pub to_float : ℕ → Float
  pub get_vas_parameters : ℕ → Option (List ParameterSet)

pub data Signal : Type 0 where
  require_auth_eim start_cable_check setup_finished pre_charge_started : Signal
  charge_loop_started charge_loop_finished dc_open_contactor ac_close_contactor : Signal
  ac_open_contactor dlink_terminate dlink_error dlink_pause : Signal

pub record EvInformation : Type 0 where
  pub ev_supported_app_protocols : List SupportedAppProtocol
  pub selected_app_protocol : Option SupportedAppProtocol  -- `none` before one is selected
  pub evcc_id : String
  pub ev_tls_leaf_cert : Option String
  pub ev_tls_sub_ca_1_cert : Option String
  pub ev_tls_sub_ca_2_cert : Option String
  pub ev_tls_root_cert : Option String

-- `feedback::EvTransferLimits`.
pub data EvTransferLimits : Type 0 where
  dc : DcReqTransferMode → EvTransferLimits
  ac : AcReqTransferMode → EvTransferLimits

-- `feedback::EvseTransferLimits`.
pub data EvseTransferLimits : Type 0 where
  dc : DcTransferLimits → EvseTransferLimits
  ac : AcTransferLimits → EvseTransferLimits

-- `feedback::DcMaximumLimits`.
pub record DcMaximumLimits : Type 0 where
  pub voltage : Float
  pub current : Float
  pub power : Float

-- `feedback::AcDerControlDiagnostic`.
pub record AcDerControlDiagnostic : Type 0 where
  pub request_type : MessageType
  pub response_code : ResponseCode
  pub failure_reason : AcDerControlFailureReason

-- `feedback::DcChargeLoopReq` and `feedback::AcChargeLoopReq`, which has no present voltage.
pub data ChargeLoopReq (Mode : Type 0) : Type 0 where
  control_mode : Mode → ChargeLoopReq Mode
  display_parameters : DisplayParameters → ChargeLoopReq Mode
  present_voltage : RationalNumber → ChargeLoopReq Mode
  meter_info_requested : Bool → ChargeLoopReq Mode

-- The arguments of `notify_ev_charging_needs`.
pub record ChargingNeeds : Type 0 where
  pub energy_service : Option ServiceCategory
  pub ac_connector : Option AcConnector
  pub control_mode : Option ControlMode
  pub mobility_needs_mode : Option MobilityNeedsMode
  pub evse_limits : EvseTransferLimits
  pub ev_limits : EvTransferLimits
  pub ev_control_mode : ScheduleReqControlMode
  pub ev_energy_services : List ServiceCategory

-- A call of a feedback callback.
pub data Feedback : Type 0 where
  signal : Signal → Feedback
  dc_pre_charge_target_voltage : Float → Feedback
  v2g_message : Option MessageType → Feedback
  evcc_id : String → Feedback
  selected_protocol : String → Feedback
  ev_information : EvInformation → Feedback
  selected_service_parameters : SelectedServiceParameters → Feedback
  ev_termination : String → String → Feedback
  get_vas_parameters : ℕ → Feedback
  selected_vas_services : List VasSelectedService → Feedback
  dc_max_limits : DcMaximumLimits → Feedback
  ac_limits : AcReqTransferMode → Feedback
  ac_der_control_diagnostic : AcDerControlDiagnostic → Feedback
  notify_ev_charging_needs : ChargingNeeds → Feedback
  dc_charge_loop_req : ChargeLoopReq DcReqControlMode → Feedback
  ac_charge_loop_req : ChargeLoopReq AcReqControlMode → Feedback

-- `calls` are the callbacks made so far, the latest first. Of `EVSessionInfo` the limits and
-- the services of the EV stand here; nothing reads or sets its control mode.
pub record Context : Type 0 where
  pub calls : List Feedback
  pub session : Session
  pub session_config : SessionConfig
  pub ev_transfer_limits : EvTransferLimits
  pub ev_energy_services : List ServiceCategory
  pub ev_info : EvInformation
  pub pause_ctx : Option PauseContext
  pub session_stopped : Bool
  pub session_paused : Bool
  pub cache_dynamic_mode_parameters : Option UpdateDynamicModeParameters
  pub cache_ac_target_power : Option AcTargetPower
  pub cache_ac_present_power : Option AcPresentPower
  pub current_control_event : Option ControlEvent
  pub message_exchange : MessageExchange
  pub vehicle_cert_hash : Option (List ℕ)
  pub timeouts : Timeouts
  pub current_timeout : Option TimeoutType

-- `d20::Event`.
pub data Event : Type 0 where
  reset v2gtp_message control_message timeout failed : Event

pub data StateId : Type 0 where
  supported_app_protocol session_setup authorization_setup authorization : StateId
  service_detail service_discovery service_selection : StateId
  ac_charge_parameter_discovery ac_charge_loop dc_charge_parameter_discovery : StateId
  dc_pre_charge dc_charge_loop dc_welding_detection dc_cable_check power_delivery : StateId
  schedule_exchange session_stop : StateId

-- `d20::Result`. The state that `create_state` makes is known by its id: each is made by the same
-- constructor, with the same initial members.
pub record Result : Type 0 where
  pub unhandled : Bool
  pub new_state : Option StateId

-- `return {}` value-initialises a Result: it says that the event was not handled.
abbrev pub no_result : Result
no_result = record { unhandled = true; new_state = none }

-- `return m_ctx.create_state<S>()`.
abbrev pub enter_state : StateId → Result
enter_state s = record { unhandled = false; new_state = some s }

-- What `feed` leaves: its result, the members of the state object, and the context.
pub record Fed (S : Type 0) : Type 0 where
  pub result : Result
  pub self : S
  pub ctx : Context

abbrev pub fed : {S : Type 0} → Result → S → Context → Fed S
fed r s c = record { result = r; self = s; ctx = c }
