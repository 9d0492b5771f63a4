-- ===== src/Message/Datatypes.antt =====
-- include/iso15118/message/common_types.hpp and type.hpp: enumerations, and the header.
-- Integers of fixed width are the numbers of their bit patterns.
use libiso.Prelude.{ℕ, Bool, Option, List, leb}

-- `SessionId` is 8 bytes, `GenChallenge` 16.
abbrev pub SessionId : Type 0
SessionId = List ℕ

abbrev pub GenChallenge : Type 0
GenChallenge = List ℕ

pub data ResponseCode : Type 0 where
  ok ok_certificate_expires_soon ok_new_session_established ok_old_session_joined : ResponseCode
  ok_power_tolerance_confirmed : ResponseCode
  warning_authorization_selection_invalid warning_certificate_expired : ResponseCode
  warning_certificate_not_yet_valid warning_certificate_revoked : ResponseCode
  warning_certificate_validation_error warning_challenge_invalid : ResponseCode
  warning_eim_authorization_failure warning_emsp_unknown : ResponseCode
  warning_ev_power_profile_violation warning_general_pnc_authorization_error : ResponseCode
  warning_no_certificate_available warning_no_contract_matching_pcid_found : ResponseCode
  warning_power_tolerance_not_confirmed warning_schedule_renegotiation_failed : ResponseCode
  warning_standby_not_allowed warning_wpt : ResponseCode
  failed failed_association_error failed_contactor_error : ResponseCode
  failed_ev_power_profile_invalid failed_ev_power_profile_violation : ResponseCode
  failed_metering_signature_not_valid failed_no_energy_transfer_service_selected : ResponseCode
  failed_no_service_renegotiation_supported failed_pause_not_allowed : ResponseCode
  failed_power_delivery_not_applied failed_power_tolerance_not_confirmed : ResponseCode
  failed_schedule_renegotiation failed_schedule_selection_invalid : ResponseCode
  failed_sequence_error failed_service_id_invalid failed_service_selection_invalid : ResponseCode
  failed_signature_error failed_unknown_session failed_wrong_charge_parameter : ResponseCode

-- The values of the enumeration.
abbrev pub underlying_value : ResponseCode → ℕ
underlying_value ResponseCode.ok = 0
underlying_value ResponseCode.ok_certificate_expires_soon = 1
underlying_value ResponseCode.ok_new_session_established = 2
underlying_value ResponseCode.ok_old_session_joined = 3
underlying_value ResponseCode.ok_power_tolerance_confirmed = 4
underlying_value ResponseCode.warning_authorization_selection_invalid = 5
underlying_value ResponseCode.warning_certificate_expired = 6
underlying_value ResponseCode.warning_certificate_not_yet_valid = 7
underlying_value ResponseCode.warning_certificate_revoked = 8
underlying_value ResponseCode.warning_certificate_validation_error = 9
underlying_value ResponseCode.warning_challenge_invalid = 10
underlying_value ResponseCode.warning_eim_authorization_failure = 11
underlying_value ResponseCode.warning_emsp_unknown = 12
underlying_value ResponseCode.warning_ev_power_profile_violation = 13
underlying_value ResponseCode.warning_general_pnc_authorization_error = 14
underlying_value ResponseCode.warning_no_certificate_available = 15
underlying_value ResponseCode.warning_no_contract_matching_pcid_found = 16
underlying_value ResponseCode.warning_power_tolerance_not_confirmed = 17
underlying_value ResponseCode.warning_schedule_renegotiation_failed = 18
underlying_value ResponseCode.warning_standby_not_allowed = 19
underlying_value ResponseCode.warning_wpt = 20
underlying_value ResponseCode.failed = 21
underlying_value ResponseCode.failed_association_error = 22
underlying_value ResponseCode.failed_contactor_error = 23
underlying_value ResponseCode.failed_ev_power_profile_invalid = 24
underlying_value ResponseCode.failed_ev_power_profile_violation = 25
underlying_value ResponseCode.failed_metering_signature_not_valid = 26
underlying_value ResponseCode.failed_no_energy_transfer_service_selected = 27
underlying_value ResponseCode.failed_no_service_renegotiation_supported = 28
underlying_value ResponseCode.failed_pause_not_allowed = 29
underlying_value ResponseCode.failed_power_delivery_not_applied = 30
underlying_value ResponseCode.failed_power_tolerance_not_confirmed = 31
underlying_value ResponseCode.failed_schedule_renegotiation = 32
underlying_value ResponseCode.failed_schedule_selection_invalid = 33
underlying_value ResponseCode.failed_sequence_error = 34
underlying_value ResponseCode.failed_service_id_invalid = 35
underlying_value ResponseCode.failed_service_selection_invalid = 36
underlying_value ResponseCode.failed_signature_error = 37
underlying_value ResponseCode.failed_unknown_session = 38
underlying_value ResponseCode.failed_wrong_charge_parameter = 39

-- `code >= ResponseCode::FAILED`.
abbrev pub is_failed : ResponseCode → Bool
is_failed c = leb 21 (underlying_value c)

pub data Processing : Type 0 where
  finished ongoing ongoing_waiting_for_customer_interaction : Processing

pub data Authorization : Type 0 where
  eim pnc : Authorization

pub data ServiceCategory : Type 0 where
  ac dc wpt dc_acdp ac_bpt dc_bpt dc_acdp_bpt mcs mcs_bpt ac_der : ServiceCategory
  internet parking_status : ServiceCategory

-- `to_underlying_value` of a ServiceCategory.
abbrev pub service_id : ServiceCategory → ℕ
service_id ServiceCategory.ac = 1
service_id ServiceCategory.dc = 2
service_id ServiceCategory.wpt = 3
service_id ServiceCategory.dc_acdp = 4
service_id ServiceCategory.ac_bpt = 5
service_id ServiceCategory.dc_bpt = 6
service_id ServiceCategory.dc_acdp_bpt = 7
service_id ServiceCategory.mcs = 8
service_id ServiceCategory.mcs_bpt = 9
service_id ServiceCategory.ac_der = 10
service_id ServiceCategory.internet = 65
service_id ServiceCategory.parking_status = 66

pub data EvseNotification : Type 0 where
  pause exit_standby terminate schedule_renegotiation : EvseNotification
  service_renegotiation metering_confirmation : EvseNotification

pub data ChargingSession : Type 0 where
  pause terminate service_renegotiation : ChargingSession

pub data AcConnector : Type 0 where
  single_phase three_phase : AcConnector

pub data DcConnector : Type 0 where
  core extended dual2 dual4 : DcConnector

pub data McsConnector : Type 0 where
  mcs chaoji ultra_chaoji r_mcs x_mcs aviation marine : McsConnector

pub data ControlMode : Type 0 where
  scheduled dynamic : ControlMode

pub data MobilityNeedsMode : Type 0 where
  provided_by_evcc provided_by_secc : MobilityNeedsMode

pub data Pricing : Type 0 where
  no_pricing absolute_pricing price_levels : Pricing

pub data BptChannel : Type 0 where
  unified separated : BptChannel

pub data GeneratorMode : Type 0 where
  grid_following grid_forming : GeneratorMode

pub data GridCodeIslandingDetectionMethod : Type 0 where
  active passive : GridCodeIslandingDetectionMethod

pub data Protocol : Type 0 where
  ftp http https : Protocol

pub data Port : Type 0 where
  port20 port21 port80 port443 : Port

-- The underlying value: `static_cast` makes any 32-bit value one of these enumerations.
abbrev pub IntendedService : Type 0
IntendedService = ℕ

abbrev pub ParkingStatus : Type 0
ParkingStatus = ℕ

pub data AuthStatus : Type 0 where
  accepted pending rejected : AuthStatus

pub data Progress : Type 0 where
  start stop standby schedule_renegotiation : Progress

pub data ChannelSelection : Type 0 where
  charge discharge : ChannelSelection

pub data PowerToleranceAcceptance : Type 0 where
  not_confirmed confirmed : PowerToleranceAcceptance

pub record RationalNumber : Type 0 where
  pub value : ℕ  -- int16_t, as its pattern below 2 ^ 16
  pub exponent : ℕ  -- int8_t, as its pattern below 2 ^ 8

-- `{0, 0}`.
abbrev pub zero_rational : RationalNumber
zero_rational = record { value = 0; exponent = 0 }

pub record EvseStatus : Type 0 where
  pub notification_max_delay : ℕ  -- uint16_t
  pub notification : EvseNotification

pub record DerControlFunctions : Type 0 where
  pub standard_bitmap : ℕ  -- uint32_t
  pub extended_bitmap : ℕ  -- uint32_t
  pub volt_watt : Bool
  pub dso_q_setpoint_provision : Bool
  pub dso_cos_phi_setpoint_provision : Bool
  pub dc_injection_restriction : Bool
  pub under_frequency_watt : Bool
  pub over_frequency_watt : Bool
  pub volt_var : Bool
  pub watt_var : Bool
  pub watt_cos_phi : Bool
  pub over_voltage_fault_ride_through : Bool
  pub under_voltage_fault_ride_through : Bool
  pub zero_current : Bool

pub record Header : Type 0 where
  pub session_id : SessionId
  pub timestamp : ℕ  -- uint64_t

pub record PowerScheduleEntry : Type 0 where
  pub duration : ℕ  -- uint32_t
  pub power : RationalNumber
  pub power_l2 : Option RationalNumber
  pub power_l3 : Option RationalNumber

-- `message_20::Type`.
pub data MessageType : Type 0 where
  none : MessageType
  supported_app_protocol_req supported_app_protocol_res session_setup_req : MessageType
  session_setup_res authorization_setup_req authorization_setup_res : MessageType
  authorization_req authorization_res service_discovery_req service_discovery_res : MessageType
  service_detail_req service_detail_res service_selection_req : MessageType
  service_selection_res dc_charge_parameter_discovery_req : MessageType
  dc_charge_parameter_discovery_res schedule_exchange_req schedule_exchange_res : MessageType
  dc_cable_check_req dc_cable_check_res dc_pre_charge_req dc_pre_charge_res : MessageType
  power_delivery_req power_delivery_res dc_charge_loop_req dc_charge_loop_res : MessageType
  dc_welding_detection_req dc_welding_detection_res session_stop_req : MessageType
  session_stop_res ac_charge_parameter_discovery_req : MessageType
  ac_charge_parameter_discovery_res ac_charge_loop_req ac_charge_loop_res : MessageType

-- `io::v2gtp::PayloadType`.
pub data PayloadType : Type 0 where
  sap part20_main part20_ac part20_dc : PayloadType
