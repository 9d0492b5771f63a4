-- ===== src/Message/Requests.antt =====
-- The requests of include/iso15118/message that the states look into, and the variant that
-- a decoded V2GTP payload is (message/variant.hpp).
use Prim.Native.String.{String}
use libiso.Prelude.{ℕ, Option, List}
use libiso.Message.Datatypes.{
  Header, Processing, RationalNumber, Authorization, GenChallenge, ChargingSession, Progress,
  ChannelSelection, PowerToleranceAcceptance, PowerScheduleEntry, MessageType,
}
use libiso.Message.Services.{ServiceDetailRequest, ServiceSelectionRequest}
use libiso.Message.AcDiscovery.{AcChargeParameterDiscoveryRequest}
use libiso.Message.DcDiscovery.{DcChargeParameterDiscoveryRequest}
use libiso.Message.Schedule.{ScheduleExchangeRequest}
use libiso.Message.AcLoop.{AcChargeLoopRequest}
use libiso.Message.DcLoop.{DcChargeLoopRequest}

pub record SupportedAppProtocol : Type 0 where
  pub protocol_namespace : String
  pub version_number_major : ℕ  -- uint32_t
  pub version_number_minor : ℕ  -- uint32_t
  pub schema_id : ℕ  -- uint8_t
  pub priority : ℕ  -- uint8_t

pub record SupportedAppProtocolRequest : Type 0 where
  pub app_protocol : List SupportedAppProtocol

pub record SessionSetupRequest : Type 0 where
  pub header : Header
  pub evccid : String

pub record AuthorizationSetupRequest : Type 0 where
  pub header : Header

pub record ContractCertificateChain : Type 0 where
  pub certificate : String
  pub sub_certificates : List String

pub data AuthorizationRequestMode : Type 0 where
  eim : AuthorizationRequestMode
  pnc : String → GenChallenge → ContractCertificateChain → AuthorizationRequestMode

pub record AuthorizationRequest : Type 0 where
  pub header : Header
  pub selected_authorization_service : Authorization
  pub authorization_mode : AuthorizationRequestMode

pub record ServiceDiscoveryRequest : Type 0 where
  pub header : Header
  pub supported_service_ids : Option (List ℕ)  -- uint16_t

pub record DcCableCheckRequest : Type 0 where
  pub header : Header

pub record DcPreChargeRequest : Type 0 where
  pub header : Header
  pub processing : Processing
  pub present_voltage : RationalNumber
  pub target_voltage : RationalNumber

pub record DcWeldingDetectionRequest : Type 0 where
  pub header : Header
  pub processing : Processing

pub record SessionStopRequest : Type 0 where
  pub header : Header
  pub charging_session : ChargingSession
  pub ev_termination_code : Option String
  pub ev_termination_explanation : Option String

pub data EvPptControlMode : Type 0 where
  dynamic : EvPptControlMode
  scheduled : ℕ → Option PowerToleranceAcceptance → EvPptControlMode

pub record PowerProfile : Type 0 where
  pub time_anchor : ℕ  -- uint64_t
  pub control_mode : EvPptControlMode
  pub entries : List PowerScheduleEntry

pub record PowerDeliveryRequest : Type 0 where
  pub header : Header
  pub processing : Processing
  pub charge_progress : Progress
  pub power_profile : Option PowerProfile
  pub channel_selection : Option ChannelSelection

-- What `get_if` tells apart. `other t` is a response, of type `t`, or an undecoded payload, of type
-- `none`: no state looks inside it.
pub data Message : Type 0 where
  supported_app_protocol : SupportedAppProtocolRequest → Message
  session_setup : SessionSetupRequest → Message
  authorization_setup : AuthorizationSetupRequest → Message
  authorization : AuthorizationRequest → Message
  service_discovery : ServiceDiscoveryRequest → Message
  dc_cable_check : DcCableCheckRequest → Message
  dc_pre_charge : DcPreChargeRequest → Message
  dc_welding_detection : DcWeldingDetectionRequest → Message
  power_delivery : PowerDeliveryRequest → Message
  session_stop : SessionStopRequest → Message
  service_detail : ServiceDetailRequest → Message
  service_selection : ServiceSelectionRequest → Message
  ac_charge_parameter_discovery : AcChargeParameterDiscoveryRequest → Message
  dc_charge_parameter_discovery : DcChargeParameterDiscoveryRequest → Message
  schedule_exchange : ScheduleExchangeRequest → Message
  ac_charge_loop : AcChargeLoopRequest → Message
  dc_charge_loop : DcChargeLoopRequest → Message
  other : MessageType → Message

-- `Variant::get_type`.
abbrev pub get_type : Message → MessageType
get_type (Message.supported_app_protocol _) = MessageType.supported_app_protocol_req
get_type (Message.session_setup _) = MessageType.session_setup_req
get_type (Message.authorization_setup _) = MessageType.authorization_setup_req
get_type (Message.authorization _) = MessageType.authorization_req
get_type (Message.service_discovery _) = MessageType.service_discovery_req
get_type (Message.dc_cable_check _) = MessageType.dc_cable_check_req
get_type (Message.dc_pre_charge _) = MessageType.dc_pre_charge_req
get_type (Message.dc_welding_detection _) = MessageType.dc_welding_detection_req
get_type (Message.power_delivery _) = MessageType.power_delivery_req
get_type (Message.session_stop _) = MessageType.session_stop_req
get_type (Message.service_detail _) = MessageType.service_detail_req
get_type (Message.service_selection _) = MessageType.service_selection_req
get_type (Message.ac_charge_parameter_discovery _) = MessageType.ac_charge_parameter_discovery_req
get_type (Message.dc_charge_parameter_discovery _) = MessageType.dc_charge_parameter_discovery_req
get_type (Message.schedule_exchange _) = MessageType.schedule_exchange_req
get_type (Message.ac_charge_loop _) = MessageType.ac_charge_loop_req
get_type (Message.dc_charge_loop _) = MessageType.dc_charge_loop_req
get_type (Message.other t) = t
