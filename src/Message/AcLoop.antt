-- ===== src/Message/AcLoop.antt =====
-- include/iso15118/message/ac_charge_loop.hpp. The bidirectional response modes add no field to their
-- bases.
use libiso.Prelude.{ℕ, Bool, Option, none}
use libiso.Message.Datatypes.{EvseStatus, Header, RationalNumber, ResponseCode}
use libiso.Message.Loop.{
  DisplayParameters, DynamicClReqControlMode, DynamicClResControlMode, MeterInfo, Receipt,
  ScheduledClReqControlMode,
}
use libiso.Message.Der.{DsoCosPhiSetpoint, DsoQSetpoint}

pub record ScheduledAcClReqControlMode : Type 0 where
  pub common : ScheduledClReqControlMode
  pub open common use *
  pub max_charge_power : Option RationalNumber
  pub max_charge_power_l2 : Option RationalNumber
  pub max_charge_power_l3 : Option RationalNumber
  pub min_charge_power : Option RationalNumber
  pub min_charge_power_l2 : Option RationalNumber
  pub min_charge_power_l3 : Option RationalNumber
  pub present_active_power : RationalNumber
  pub present_active_power_l2 : Option RationalNumber
  pub present_active_power_l3 : Option RationalNumber
  pub present_reactive_power : Option RationalNumber
  pub present_reactive_power_l2 : Option RationalNumber
  pub present_reactive_power_l3 : Option RationalNumber

pub record BptScheduledAcClReqControlMode : Type 0 where
  pub base : ScheduledAcClReqControlMode
  pub open base use *
  pub max_discharge_power : Option RationalNumber
  pub max_discharge_power_l2 : Option RationalNumber
  pub max_discharge_power_l3 : Option RationalNumber
  pub min_discharge_power : Option RationalNumber
  pub min_discharge_power_l2 : Option RationalNumber
  pub min_discharge_power_l3 : Option RationalNumber

pub record DerScheduledAcClReqControlMode : Type 0 where
  pub bpt : BptScheduledAcClReqControlMode
  pub open bpt use *
  pub max_charge_reactive_power : Option RationalNumber
  pub max_charge_reactive_power_l2 : Option RationalNumber
  pub max_charge_reactive_power_l3 : Option RationalNumber
  pub max_discharge_reactive_power : Option RationalNumber
  pub max_discharge_reactive_power_l2 : Option RationalNumber
  pub max_discharge_reactive_power_l3 : Option RationalNumber
  pub grid_event_condition : ℕ  -- uint8_t

pub record DynamicAcClReqControlMode : Type 0 where
  pub common : DynamicClReqControlMode
  pub open common use *
  pub max_charge_power : RationalNumber
  pub max_charge_power_l2 : Option RationalNumber
  pub max_charge_power_l3 : Option RationalNumber
  pub min_charge_power : RationalNumber
  pub min_charge_power_l2 : Option RationalNumber
  pub min_charge_power_l3 : Option RationalNumber
  pub present_active_power : RationalNumber
  pub present_active_power_l2 : Option RationalNumber
  pub present_active_power_l3 : Option RationalNumber
  pub present_reactive_power : RationalNumber
  pub present_reactive_power_l2 : Option RationalNumber
  pub present_reactive_power_l3 : Option RationalNumber

pub record BptDynamicAcClReqControlMode : Type 0 where
  pub base : DynamicAcClReqControlMode
  pub open base use *
  pub max_discharge_power : RationalNumber
  pub max_discharge_power_l2 : Option RationalNumber
  pub max_discharge_power_l3 : Option RationalNumber
  pub min_discharge_power : RationalNumber
  pub min_discharge_power_l2 : Option RationalNumber
  pub min_discharge_power_l3 : Option RationalNumber
  pub max_v2x_energy_request : Option RationalNumber
  pub min_v2x_energy_request : Option RationalNumber

pub record DerDynamicAcClReqControlMode : Type 0 where
  pub bpt : BptDynamicAcClReqControlMode
  pub open bpt use *
  pub max_charge_reactive_power : Option RationalNumber
  pub max_charge_reactive_power_l2 : Option RationalNumber
  pub max_charge_reactive_power_l3 : Option RationalNumber
  pub max_discharge_reactive_power : Option RationalNumber
  pub max_discharge_reactive_power_l2 : Option RationalNumber
  pub max_discharge_reactive_power_l3 : Option RationalNumber
  pub grid_event_condition : ℕ  -- uint8_t
  pub session_total_discharge_energy_available : Option RationalNumber

pub record ScheduledAcClResControlMode : Type 0 where
  pub target_active_power : Option RationalNumber
  pub target_active_power_l2 : Option RationalNumber
  pub target_active_power_l3 : Option RationalNumber
  pub target_reactive_power : Option RationalNumber
  pub target_reactive_power_l2 : Option RationalNumber
  pub target_reactive_power_l3 : Option RationalNumber
  pub present_active_power : Option RationalNumber
  pub present_active_power_l2 : Option RationalNumber
  pub present_active_power_l3 : Option RationalNumber

pub record DerScheduledAcClResControlMode : Type 0 where
  pub base : ScheduledAcClResControlMode
  pub open base use *
  pub max_charge_power : RationalNumber
  pub max_charge_power_l2 : Option RationalNumber
  pub max_charge_power_l3 : Option RationalNumber
  pub max_discharge_power : RationalNumber
  pub max_discharge_power_l2 : Option RationalNumber
  pub max_discharge_power_l3 : Option RationalNumber
  pub dso_max_discharge_power : Option RationalNumber
  pub dso_max_discharge_power_l2 : Option RationalNumber
  pub dso_max_discharge_power_l3 : Option RationalNumber
  pub dso_q_setpoint : Option DsoQSetpoint
  pub dso_cos_phi_setpoint : Option DsoCosPhiSetpoint

pub record DynamicAcClResControlMode : Type 0 where
  pub common : DynamicClResControlMode
  pub open common use *
  pub target_active_power : RationalNumber
  pub target_active_power_l2 : Option RationalNumber
  pub target_active_power_l3 : Option RationalNumber
  pub target_reactive_power : Option RationalNumber
  pub target_reactive_power_l2 : Option RationalNumber
  pub target_reactive_power_l3 : Option RationalNumber
  pub present_active_power : Option RationalNumber
  pub present_active_power_l2 : Option RationalNumber
  pub present_active_power_l3 : Option RationalNumber

pub record DerDynamicAcClResControlMode : Type 0 where
  pub base : DynamicAcClResControlMode
  pub open base use *
  pub max_charge_power : RationalNumber
  pub max_charge_power_l2 : Option RationalNumber
  pub max_charge_power_l3 : Option RationalNumber
  pub max_discharge_power : RationalNumber
  pub max_discharge_power_l2 : Option RationalNumber
  pub max_discharge_power_l3 : Option RationalNumber
  pub dso_max_discharge_power : Option RationalNumber
  pub dso_max_discharge_power_l2 : Option RationalNumber
  pub dso_max_discharge_power_l3 : Option RationalNumber
  pub dso_q_setpoint : Option DsoQSetpoint
  pub dso_cos_phi_setpoint : Option DsoCosPhiSetpoint

-- The alternatives of the variant `control_mode`, of a request and of a response.
pub data AcReqControlMode : Type 0 where
  scheduled : ScheduledAcClReqControlMode → AcReqControlMode
  bpt_scheduled : BptScheduledAcClReqControlMode → AcReqControlMode
  der_scheduled : DerScheduledAcClReqControlMode → AcReqControlMode
  dynamic : DynamicAcClReqControlMode → AcReqControlMode
  bpt_dynamic : BptDynamicAcClReqControlMode → AcReqControlMode
  der_dynamic : DerDynamicAcClReqControlMode → AcReqControlMode

pub data AcResControlMode : Type 0 where
  scheduled : ScheduledAcClResControlMode → AcResControlMode
  bpt_scheduled : ScheduledAcClResControlMode → AcResControlMode
  der_scheduled : DerScheduledAcClResControlMode → AcResControlMode
  dynamic : DynamicAcClResControlMode → AcResControlMode
  bpt_dynamic : DynamicAcClResControlMode → AcResControlMode
  der_dynamic : DerDynamicAcClResControlMode → AcResControlMode

pub record AcChargeLoopRequest : Type 0 where
  pub header : Header
  pub display_parameters : Option DisplayParameters
  pub meter_info_requested : Bool
  pub control_mode : AcReqControlMode

pub record AcChargeLoopResponse : Type 0 where
  pub header : Header
  pub response_code : ResponseCode
  pub status : Option EvseStatus
  pub meter_info : Option MeterInfo
  pub receipt : Option Receipt
  pub target_frequency : Option RationalNumber
  pub control_mode : AcResControlMode

-- The response as constructed: an empty scheduled mode.
abbrev pub default_ac_charge_loop : Header → ResponseCode → AcChargeLoopResponse
default_ac_charge_loop h code = record {
  header = h;
  response_code = code;
  status = none;
  meter_info = none;
  receipt = none;
  target_frequency = none;
  control_mode = AcResControlMode.scheduled (record {
    target_active_power = none;
    target_active_power_l2 = none;
    target_active_power_l3 = none;
    target_reactive_power = none;
    target_reactive_power_l2 = none;
    target_reactive_power_l3 = none;
    present_active_power = none;
    present_active_power_l2 = none;
    present_active_power_l3 = none;
  });
}
