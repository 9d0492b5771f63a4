-- ===== src/Message/Loop.antt =====
-- What the charge loops of AC and DC share, of include/iso15118/message/common_types.hpp. A scheduled
-- response mode has no field in common.
use Prim.Native.String.{String}
use libiso.Prelude.{ℕ, Bool, Option, List}
use libiso.Message.Datatypes.{RationalNumber}

pub record ScheduledClReqControlMode : Type 0 where
  pub target_energy_request : Option RationalNumber
  pub max_energy_request : Option RationalNumber
  pub min_energy_request : Option RationalNumber

pub record DynamicClReqControlMode : Type 0 where
  pub departure_time : Option ℕ  -- uint32_t
  pub target_energy_request : RationalNumber
  pub max_energy_request : RationalNumber
  pub min_energy_request : RationalNumber

pub record DynamicClResControlMode : Type 0 where
  pub departure_time : Option ℕ  -- uint32_t
  pub minimum_soc : Option ℕ  -- uint8_t
  pub target_soc : Option ℕ  -- uint8_t
  pub ack_max_delay : Option ℕ  -- uint16_t

pub record MeterInfo : Type 0 where
  pub meter_id : String
  pub charged_energy_reading_wh : ℕ  -- uint64_t
  pub bpt_discharged_energy_reading_wh : Option ℕ  -- uint64_t
  pub capacitive_energy_reading_varh : Option ℕ  -- uint64_t
  pub bpt_inductive_energy_reading_varh : Option ℕ  -- uint64_t
  pub meter_signature : Option String
  pub meter_status : Option ℕ  -- int16_t
  pub meter_timestamp : Option ℕ  -- uint64_t

pub record DisplayParameters : Type 0 where
  pub present_soc : Option ℕ  -- uint8_t
  pub min_soc : Option ℕ  -- uint8_t
  pub target_soc : Option ℕ  -- uint8_t
  pub max_soc : Option ℕ  -- uint8_t
  pub remaining_time_to_min_soc : Option ℕ  -- uint32_t
  pub remaining_time_to_target_soc : Option ℕ  -- uint32_t
  pub remaining_time_to_max_soc : Option ℕ  -- uint32_t
  pub charging_complete : Option Bool
  pub battery_energy_capacity : Option RationalNumber
  pub inlet_hot : Option Bool

pub record DetailedCost : Type 0 where
  pub amount : RationalNumber
  pub cost_per_unit : RationalNumber

pub record DetailedTax : Type 0 where
  pub tax_rule_id : ℕ  -- uint32_t
  pub amount : RationalNumber

pub record Receipt : Type 0 where
  pub time_anchor : ℕ  -- uint64_t
  pub energy_costs : Option DetailedCost
  pub occupancy_costs : Option DetailedCost
  pub additional_service_costs : Option DetailedCost
  pub overstay_costs : Option DetailedCost
  pub tax_costs : List DetailedTax
