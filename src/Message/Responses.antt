-- ===== src/Message/Responses.antt =====
-- The responses of include/iso15118/message, with their payload types (payload_type.hpp).
use Prim.Native.String.{String}
use libiso.Prelude.{ℕ, Bool, Option, List}
use libiso.Message.Datatypes.{
  Header, ResponseCode, Processing, RationalNumber, Authorization, GenChallenge, ServiceCategory,
  EvseStatus, MessageType, PayloadType,
}
use libiso.Message.Services.{ServiceDetailResponse, ServiceSelectionResponse}
use libiso.Message.AcDiscovery.{AcChargeParameterDiscoveryResponse}
use libiso.Message.DcDiscovery.{DcChargeParameterDiscoveryResponse}
use libiso.Message.Schedule.{ScheduleExchangeResponse}
use libiso.Message.AcLoop.{AcChargeLoopResponse}
use libiso.Message.DcLoop.{DcChargeLoopResponse}

-- `SupportedAppProtocolResponse::ResponseCode`.
pub data NegotiationCode : Type 0 where
  ok_successful_negotiation ok_successful_negotiation_with_minor_deviation : NegotiationCode
  failed_no_negotiation : NegotiationCode

pub record SupportedAppProtocolResponse : Type 0 where
  pub response_code : NegotiationCode
  pub schema_id : Option ℕ  -- uint8_t

pub record SessionSetupResponse : Type 0 where
  pub header : Header
  pub response_code : ResponseCode
  pub evseid : String

pub data AuthorizationResponseMode : Type 0 where
  eim : AuthorizationResponseMode
  pnc : GenChallenge → Option (List String) → AuthorizationResponseMode

pub record AuthorizationSetupResponse : Type 0 where
  pub header : Header
  pub response_code : ResponseCode
  pub authorization_services : List Authorization
  pub certificate_installation_service : Bool
  pub authorization_mode : AuthorizationResponseMode

pub record AuthorizationResponse : Type 0 where
  pub header : Header
  pub response_code : ResponseCode
  pub evse_processing : Processing

pub record Service : Type 0 where
  pub service_id : ServiceCategory
  pub free_service : Bool

pub record VasService : Type 0 where
  pub service_id : ℕ  -- uint16_t
  pub free_service : Bool

pub record ServiceDiscoveryResponse : Type 0 where
  pub header : Header
  pub response_code : ResponseCode
  pub service_renegotiation_supported : Bool
  pub energy_transfer_service_list : List Service
  pub vas_list : Option (List VasService)

pub record DcCableCheckResponse : Type 0 where
  pub header : Header
  pub response_code : ResponseCode
  pub processing : Processing

pub record DcPreChargeResponse : Type 0 where
  pub header : Header
  pub response_code : ResponseCode
  pub present_voltage : RationalNumber

pub record DcWeldingDetectionResponse : Type 0 where
  pub header : Header
  pub response_code : ResponseCode
  pub present_voltage : RationalNumber

pub record PowerDeliveryResponse : Type 0 where
  pub header : Header
  pub response_code : ResponseCode
  pub status : Option EvseStatus

pub record SessionStopResponse : Type 0 where
  pub header : Header
  pub response_code : ResponseCode

pub data Response : Type 0 where
  supported_app_protocol : SupportedAppProtocolResponse → Response
  session_setup : SessionSetupResponse → Response
  authorization_setup : AuthorizationSetupResponse → Response
  authorization : AuthorizationResponse → Response
  service_discovery : ServiceDiscoveryResponse → Response
  dc_cable_check : DcCableCheckResponse → Response
  dc_pre_charge : DcPreChargeResponse → Response
  dc_welding_detection : DcWeldingDetectionResponse → Response
  power_delivery : PowerDeliveryResponse → Response
  session_stop : SessionStopResponse → Response
  service_detail : ServiceDetailResponse → Response
  service_selection : ServiceSelectionResponse → Response
  ac_charge_parameter_discovery : AcChargeParameterDiscoveryResponse → Response
  dc_charge_parameter_discovery : DcChargeParameterDiscoveryResponse → Response
  schedule_exchange : ScheduleExchangeResponse → Response
  ac_charge_loop : AcChargeLoopResponse → Response
  dc_charge_loop : DcChargeLoopResponse → Response

-- `TypeTrait<MessageType>::type`.
abbrev pub response_type : Response → MessageType
response_type (Response.supported_app_protocol _) = MessageType.supported_app_protocol_res
response_type (Response.session_setup _) = MessageType.session_setup_res
response_type (Response.authorization_setup _) = MessageType.authorization_setup_res
response_type (Response.authorization _) = MessageType.authorization_res
response_type (Response.service_discovery _) = MessageType.service_discovery_res
response_type (Response.dc_cable_check _) = MessageType.dc_cable_check_res
response_type (Response.dc_pre_charge _) = MessageType.dc_pre_charge_res
response_type (Response.dc_welding_detection _) = MessageType.dc_welding_detection_res
response_type (Response.power_delivery _) = MessageType.power_delivery_res
response_type (Response.session_stop _) = MessageType.session_stop_res
response_type (Response.service_detail _) = MessageType.service_detail_res
response_type (Response.service_selection _) = MessageType.service_selection_res
response_type (Response.ac_charge_parameter_discovery _) =
    MessageType.ac_charge_parameter_discovery_res
response_type (Response.dc_charge_parameter_discovery _) =
    MessageType.dc_charge_parameter_discovery_res
response_type (Response.schedule_exchange _) = MessageType.schedule_exchange_res
response_type (Response.ac_charge_loop _) = MessageType.ac_charge_loop_res
response_type (Response.dc_charge_loop _) = MessageType.dc_charge_loop_res

-- `PayloadTypeTrait<MessageType>::type`.
abbrev pub payload_type : Response → PayloadType
payload_type (Response.supported_app_protocol _) = PayloadType.sap
payload_type (Response.dc_cable_check _) = PayloadType.part20_dc
payload_type (Response.dc_pre_charge _) = PayloadType.part20_dc
payload_type (Response.dc_welding_detection _) = PayloadType.part20_dc
payload_type (Response.dc_charge_parameter_discovery _) = PayloadType.part20_dc
payload_type (Response.dc_charge_loop _) = PayloadType.part20_dc
payload_type (Response.ac_charge_parameter_discovery _) = PayloadType.part20_ac
payload_type (Response.ac_charge_loop _) = PayloadType.part20_ac
payload_type _ = PayloadType.part20_main

-- The code of a response of ISO 15118-20; the protocol negotiation has codes of its own.
abbrev pub response_code : Response → Option ResponseCode
response_code (Response.supported_app_protocol _) = Option.none
response_code (Response.session_setup r) = Option.some r.response_code
response_code (Response.authorization_setup r) = Option.some r.response_code
response_code (Response.authorization r) = Option.some r.response_code
response_code (Response.service_discovery r) = Option.some r.response_code
response_code (Response.dc_cable_check r) = Option.some r.response_code
response_code (Response.dc_pre_charge r) = Option.some r.response_code
response_code (Response.dc_welding_detection r) = Option.some r.response_code
response_code (Response.power_delivery r) = Option.some r.response_code
response_code (Response.session_stop r) = Option.some r.response_code
response_code (Response.service_detail r) = Option.some r.response_code
response_code (Response.service_selection r) = Option.some r.response_code
response_code (Response.ac_charge_parameter_discovery r) = Option.some r.response_code
response_code (Response.dc_charge_parameter_discovery r) = Option.some r.response_code
response_code (Response.schedule_exchange r) = Option.some r.response_code
response_code (Response.ac_charge_loop r) = Option.some r.response_code
response_code (Response.dc_charge_loop r) = Option.some r.response_code
