-- ===== src/Message/DcLoop.antt =====
-- include/iso15118/message/dc_charge_loop.hpp.
use libiso.Prelude.{Bool, Option, none, false}
use libiso.Message.Datatypes.{EvseStatus, Header, RationalNumber, ResponseCode, zero_rational}
use libiso.Message.Loop.{
  DisplayParameters, DynamicClReqControlMode, DynamicClResControlMode, MeterInfo, Receipt,
  ScheduledClReqControlMode,
}

pub record ScheduledDcClReqControlMode : Type 0 where
  pub common : ScheduledClReqControlMode
  pub open common use *
  pub target_current : RationalNumber
  pub target_voltage : RationalNumber
  pub max_charge_power : Option RationalNumber
  pub min_charge_power : Option RationalNumber
  pub max_charge_current : Option RationalNumber
  pub max_voltage : Option RationalNumber
  pub min_voltage : Option RationalNumber

pub record BptScheduledDcClReqControlMode : Type 0 where
  pub base : ScheduledDcClReqControlMode
  pub open base use *
  pub max_discharge_power : Option RationalNumber
  pub min_discharge_power : Option RationalNumber
  pub max_discharge_current : Option RationalNumber

pub record DynamicDcClReqControlMode : Type 0 where
  pub common : DynamicClReqControlMode
  pub open common use *
  pub max_charge_power : RationalNumber
  pub min_charge_power : RationalNumber
  pub max_charge_current : RationalNumber
  pub max_voltage : RationalNumber
  pub min_voltage : RationalNumber

pub record BptDynamicDcClReqControlMode : Type 0 where
  pub base : DynamicDcClReqControlMode
  pub open base use *
  pub max_discharge_power : RationalNumber
  pub min_discharge_power : RationalNumber
  pub max_discharge_current : RationalNumber
  pub max_v2x_energy_request : Option RationalNumber
  pub min_v2x_energy_request : Option RationalNumber

pub record ScheduledDcClResControlMode : Type 0 where
  pub max_charge_power : Option RationalNumber
  pub min_charge_power : Option RationalNumber
  pub max_charge_current : Option RationalNumber
  pub max_voltage : Option RationalNumber

pub record BptScheduledDcClResControlMode : Type 0 where
  pub base : ScheduledDcClResControlMode
  pub open base use *
  pub max_discharge_power : Option RationalNumber
  pub min_discharge_power : Option RationalNumber
  pub max_discharge_current : Option RationalNumber
  pub min_voltage : Option RationalNumber

pub record DynamicDcClResControlMode : Type 0 where
  pub common : DynamicClResControlMode
  pub open common use *
  pub max_charge_power : RationalNumber
  pub min_charge_power : RationalNumber
  pub max_charge_current : RationalNumber
  pub max_voltage : RationalNumber

pub record BptDynamicDcClResControlMode : Type 0 where
  pub base : DynamicDcClResControlMode
  pub open base use *
  pub max_discharge_power : RationalNumber
  pub min_discharge_power : RationalNumber
  pub max_discharge_current : RationalNumber
  pub min_voltage : RationalNumber

-- The alternatives of the variant `control_mode`, of a request and of a response.
pub data DcReqControlMode : Type 0 where
  scheduled : ScheduledDcClReqControlMode → DcReqControlMode
  bpt_scheduled : BptScheduledDcClReqControlMode → DcReqControlMode
  dynamic : DynamicDcClReqControlMode → DcReqControlMode
  bpt_dynamic : BptDynamicDcClReqControlMode → DcReqControlMode

pub data DcResControlMode : Type 0 where
  scheduled : ScheduledDcClResControlMode → DcResControlMode
  bpt_scheduled : BptScheduledDcClResControlMode → DcResControlMode
  dynamic : DynamicDcClResControlMode → DcResControlMode
  bpt_dynamic : BptDynamicDcClResControlMode → DcResControlMode

pub record DcChargeLoopRequest : Type 0 where
  pub header : Header
  pub display_parameters : Option DisplayParameters
  pub meter_info_requested : Bool
  pub present_voltage : RationalNumber
  pub control_mode : DcReqControlMode

pub record DcChargeLoopResponse : Type 0 where
  pub header : Header
  pub response_code : ResponseCode
  pub status : Option EvseStatus
  pub meter_info : Option MeterInfo
  pub receipt : Option Receipt
  pub present_current : RationalNumber
  pub present_voltage : RationalNumber
  pub power_limit_achieved : Bool
  pub current_limit_achieved : Bool
  pub voltage_limit_achieved : Bool
  pub control_mode : DcResControlMode

-- The response as constructed: an empty scheduled mode.
abbrev pub default_dc_charge_loop : Header → ResponseCode → DcChargeLoopResponse
default_dc_charge_loop h code = record {
  header = h;
  response_code = code;
  status = none;
  meter_info = none;
  receipt = none;
  present_current = zero_rational;
  present_voltage = zero_rational;
  power_limit_achieved = false;
  current_limit_achieved = false;
  voltage_limit_achieved = false;
  control_mode = DcResControlMode.scheduled (record {
    max_charge_power = none;
    min_charge_power = none;
    max_charge_current = none;
    max_voltage = none;
  });
}
