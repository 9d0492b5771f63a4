-- ===== src/Message/DcDiscovery.antt =====
-- include/iso15118/message/dc_charge_parameter_discovery.hpp: the limits of a DC session.
use libiso.Prelude.{ℕ, Option, none}
use libiso.Message.Datatypes.{Header, RationalNumber, ResponseCode, zero_rational}

pub record DcCpdReqEnergyTransferMode : Type 0 where
  pub max_charge_power : RationalNumber
  pub min_charge_power : RationalNumber
  pub max_charge_current : RationalNumber
  pub min_charge_current : RationalNumber
  pub max_voltage : RationalNumber
  pub min_voltage : RationalNumber
  pub target_soc : Option ℕ  -- uint8_t

pub record BptDcCpdReqEnergyTransferMode : Type 0 where
  pub base : DcCpdReqEnergyTransferMode
  pub open base use *
  pub max_discharge_power : RationalNumber
  pub min_discharge_power : RationalNumber
  pub max_discharge_current : RationalNumber
  pub min_discharge_current : RationalNumber

pub record DcCpdResEnergyTransferMode : Type 0 where
  pub max_charge_power : RationalNumber
  pub min_charge_power : RationalNumber
  pub max_charge_current : RationalNumber
  pub min_charge_current : RationalNumber
  pub max_voltage : RationalNumber
  pub min_voltage : RationalNumber
  pub power_ramp_limit : Option RationalNumber

pub record BptDcCpdResEnergyTransferMode : Type 0 where
  pub base : DcCpdResEnergyTransferMode
  pub open base use *
  pub max_discharge_power : RationalNumber
  pub min_discharge_power : RationalNumber
  pub max_discharge_current : RationalNumber
  pub min_discharge_current : RationalNumber

-- The alternatives of the variant `transfer_mode`, of a request and of a response.
pub data DcReqTransferMode : Type 0 where
  dc : DcCpdReqEnergyTransferMode → DcReqTransferMode
  bpt : BptDcCpdReqEnergyTransferMode → DcReqTransferMode

pub data DcResTransferMode : Type 0 where
  dc : DcCpdResEnergyTransferMode → DcResTransferMode
  bpt : BptDcCpdResEnergyTransferMode → DcResTransferMode

pub record DcChargeParameterDiscoveryRequest : Type 0 where
  pub header : Header
  pub transfer_mode : DcReqTransferMode

pub record DcChargeParameterDiscoveryResponse : Type 0 where
  pub header : Header
  pub response_code : ResponseCode
  pub transfer_mode : DcResTransferMode

-- The response as constructed: the mode of a DC session, with every limit 0.
abbrev pub default_dc_discovery : Header → ResponseCode → DcChargeParameterDiscoveryResponse
default_dc_discovery h code = record {
  header = h;
  response_code = code;
  transfer_mode = DcResTransferMode.dc (record {
    max_charge_power = zero_rational;
    min_charge_power = zero_rational;
    max_charge_current = zero_rational;
    min_charge_current = zero_rational;
    max_voltage = zero_rational;
    min_voltage = zero_rational;
    power_ramp_limit = none;
  });
}
