-- ===== src/Message/AcDiscovery.antt =====
-- include/iso15118/message/ac_charge_parameter_discovery.hpp: the limits of an AC session.
use libiso.Prelude.{Option, none}
use libiso.Message.Datatypes.{Header, Processing, RationalNumber, ResponseCode, zero_rational}
use libiso.Message.Der.{DerControl}

pub data EvOperatingMode : Type 0 where
  grid_following grid_forming : EvOperatingMode

pub data GridConnectionMode : Type 0 where
  grid_connected grid_islanded : GridConnectionMode

pub record AcCpdReqEnergyTransferMode : Type 0 where
  pub max_charge_power : RationalNumber
  pub max_charge_power_l2 : Option RationalNumber
  pub max_charge_power_l3 : Option RationalNumber
  pub min_charge_power : RationalNumber
  pub min_charge_power_l2 : Option RationalNumber
  pub min_charge_power_l3 : Option RationalNumber

pub record BptAcCpdReqEnergyTransferMode : Type 0 where
  pub base : AcCpdReqEnergyTransferMode
  pub open base use *
  pub max_discharge_power : RationalNumber
  pub max_discharge_power_l2 : Option RationalNumber
  pub max_discharge_power_l3 : Option RationalNumber
  pub min_discharge_power : RationalNumber
  pub min_discharge_power_l2 : Option RationalNumber
  pub min_discharge_power_l3 : Option RationalNumber

pub record EvReactivePowerLimits : Type 0 where
  pub max_charge_reactive_power : RationalNumber
  pub max_charge_reactive_power_l2 : Option RationalNumber
  pub max_charge_reactive_power_l3 : Option RationalNumber
  pub min_charge_reactive_power : Option RationalNumber
  pub min_charge_reactive_power_l2 : Option RationalNumber
  pub min_charge_reactive_power_l3 : Option RationalNumber
  pub max_discharge_reactive_power : RationalNumber
  pub max_discharge_reactive_power_l2 : Option RationalNumber
  pub max_discharge_reactive_power_l3 : Option RationalNumber
  pub min_discharge_reactive_power : Option RationalNumber
  pub min_discharge_reactive_power_l2 : Option RationalNumber
  pub min_discharge_reactive_power_l3 : Option RationalNumber

pub record DerAcCpdReqEnergyTransferMode : Type 0 where
  pub bpt : BptAcCpdReqEnergyTransferMode
  pub open bpt use *
  pub processing : Processing
  pub session_total_discharge_energy_available : Option RationalNumber
  pub reactive_power_limits : Option EvReactivePowerLimits

pub record AcCpdResEnergyTransferMode : Type 0 where
  pub max_charge_power : RationalNumber
  pub max_charge_power_l2 : Option RationalNumber
  pub max_charge_power_l3 : Option RationalNumber
  pub min_charge_power : RationalNumber
  pub min_charge_power_l2 : Option RationalNumber
  pub min_charge_power_l3 : Option RationalNumber
  pub nominal_frequency : RationalNumber
  pub max_power_asymmetry : Option RationalNumber
  pub power_ramp_limitation : Option RationalNumber
  pub present_active_power : Option RationalNumber
  pub present_active_power_l2 : Option RationalNumber
  pub present_active_power_l3 : Option RationalNumber

pub record BptAcCpdResEnergyTransferMode : Type 0 where
  pub base : AcCpdResEnergyTransferMode
  pub open base use *
  pub max_discharge_power : RationalNumber
  pub max_discharge_power_l2 : Option RationalNumber
  pub max_discharge_power_l3 : Option RationalNumber
  pub min_discharge_power : RationalNumber
  pub min_discharge_power_l2 : Option RationalNumber
  pub min_discharge_power_l3 : Option RationalNumber

pub record DerAcCpdResEnergyTransferMode : Type 0 where
  pub base : AcCpdResEnergyTransferMode
  pub open base use *
  pub nominal_charge_power : RationalNumber
  pub nominal_charge_power_l2 : Option RationalNumber
  pub nominal_charge_power_l3 : Option RationalNumber
  pub nominal_discharge_power : RationalNumber
  pub nominal_discharge_power_l2 : Option RationalNumber
  pub nominal_discharge_power_l3 : Option RationalNumber
  pub max_discharge_power : RationalNumber
  pub max_discharge_power_l2 : Option RationalNumber
  pub max_discharge_power_l3 : Option RationalNumber
  pub operating_mode : EvOperatingMode
  pub grid_connection_mode : GridConnectionMode
  pub der_control : DerControl

-- The alternatives of the variant `transfer_mode`, of a request and of a response.
pub data AcReqTransferMode : Type 0 where
  ac : AcCpdReqEnergyTransferMode → AcReqTransferMode
  bpt : BptAcCpdReqEnergyTransferMode → AcReqTransferMode
  der : DerAcCpdReqEnergyTransferMode → AcReqTransferMode

pub data AcResTransferMode : Type 0 where
  ac : AcCpdResEnergyTransferMode → AcResTransferMode
  bpt : BptAcCpdResEnergyTransferMode → AcResTransferMode
  der : DerAcCpdResEnergyTransferMode → AcResTransferMode

pub record AcChargeParameterDiscoveryRequest : Type 0 where
  pub header : Header
  pub transfer_mode : AcReqTransferMode

pub record AcChargeParameterDiscoveryResponse : Type 0 where
  pub header : Header
  pub response_code : ResponseCode
  pub transfer_mode : AcResTransferMode

-- The response as constructed: the mode of an AC session, with every power 0.
abbrev pub default_ac_discovery : Header → ResponseCode → AcChargeParameterDiscoveryResponse
default_ac_discovery h code = record {
  header = h;
  response_code = code;
  transfer_mode = AcResTransferMode.ac (record {
    max_charge_power = zero_rational;
    max_charge_power_l2 = none;
    max_charge_power_l3 = none;
    min_charge_power = zero_rational;
    min_charge_power_l2 = none;
    min_charge_power_l3 = none;
    nominal_frequency = zero_rational;
    max_power_asymmetry = none;
    power_ramp_limitation = none;
    present_active_power = none;
    present_active_power_l2 = none;
    present_active_power_l3 = none;
  });
}
