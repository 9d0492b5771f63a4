-- ===== src/Message/Schedule.antt =====
-- The schedules of include/iso15118/message/schedule_exchange.hpp.
use Prim.Native.String.{String}
use libiso.Prelude.{ℕ, Bool, Option, none, List}
use libiso.Message.Datatypes.{Header, PowerScheduleEntry, Processing, RationalNumber, ResponseCode}
use libiso.Message.Prices.{PriceSchedule}

pub record DynamicSeReqControlMode : Type 0 where
  pub departure_time : ℕ  -- uint32_t
  pub minimum_soc : Option ℕ  -- uint8_t
  pub target_soc : Option ℕ  -- uint8_t
  pub target_energy : RationalNumber
  pub max_energy : RationalNumber
  pub min_energy : RationalNumber
  pub max_v2x_energy : Option RationalNumber
  pub min_v2x_energy : Option RationalNumber

pub record EvPowerScheduleEntry : Type 0 where
  pub duration : ℕ  -- uint32_t
  pub power : RationalNumber

pub record EvPowerSchedule : Type 0 where
  pub time_anchor : ℕ  -- uint64_t
  pub entries : List EvPowerScheduleEntry

pub record EvPriceRule : Type 0 where
  pub energy_fee : RationalNumber
  pub power_range_start : RationalNumber

pub record EvPriceRuleStack : Type 0 where
  pub duration : ℕ  -- uint32_t
  pub price_rules : List EvPriceRule

pub record EvAbsolutePriceSchedule : Type 0 where
  pub time_anchor : ℕ  -- uint64_t
  pub currency : String
  pub price_algorithm : String
  pub price_rule_stacks : List EvPriceRuleStack

pub record EvEnergyOffer : Type 0 where
  pub power_schedule : EvPowerSchedule
  pub absolute_price_schedule : EvAbsolutePriceSchedule

pub record ScheduledSeReqControlMode : Type 0 where
  pub departure_time : Option ℕ  -- uint32_t
  pub target_energy : Option RationalNumber
  pub max_energy : Option RationalNumber
  pub min_energy : Option RationalNumber
  pub energy_offer : Option EvEnergyOffer

pub record DynamicSeResControlMode : Type 0 where
  pub departure_time : Option ℕ  -- uint32_t
  pub minimum_soc : Option ℕ  -- uint8_t
  pub target_soc : Option ℕ  -- uint8_t
  pub price_schedule : PriceSchedule

pub record PowerSchedule : Type 0 where
  pub time_anchor : ℕ  -- uint64_t
  pub available_energy : Option RationalNumber
  pub power_tolerance : Option RationalNumber
  pub entries : List PowerScheduleEntry

pub record ChargingSchedule : Type 0 where
  pub power_schedule : PowerSchedule
  pub price_schedule : PriceSchedule

pub record ScheduleTuple : Type 0 where
  pub schedule_tuple_id : ℕ  -- uint32_t
  pub charging_schedule : ChargingSchedule
  pub discharging_schedule : Option ChargingSchedule

pub record ScheduledSeResControlMode : Type 0 where
  pub schedule_tuple : List ScheduleTuple

-- The alternatives of the variant `control_mode`, of a request and of a response.
pub data ScheduleReqControlMode : Type 0 where
  dynamic : DynamicSeReqControlMode → ScheduleReqControlMode
  scheduled : ScheduledSeReqControlMode → ScheduleReqControlMode

pub data ScheduleResControlMode : Type 0 where
  dynamic : DynamicSeResControlMode → ScheduleResControlMode
  scheduled : ScheduledSeResControlMode → ScheduleResControlMode

pub record ScheduleExchangeRequest : Type 0 where
  pub header : Header
  pub max_supporting_points : ℕ  -- uint16_t
  pub control_mode : ScheduleReqControlMode

pub record ScheduleExchangeResponse : Type 0 where
  pub header : Header
  pub response_code : ResponseCode
  pub processing : Processing
  pub go_to_pause : Option Bool
  pub control_mode : ScheduleResControlMode

abbrev pub empty_dynamic_mode : DynamicSeResControlMode
empty_dynamic_mode = record {
  departure_time = none;
  minimum_soc = none;
  target_soc = none;
  price_schedule = PriceSchedule.no_schedule;
}

-- The response as constructed: an empty dynamic mode.
abbrev pub default_schedule_exchange : Header → ResponseCode → ScheduleExchangeResponse
default_schedule_exchange h code = record {
  header = h;
  response_code = code;
  processing = Processing.finished;
  go_to_pause = none;
  control_mode = ScheduleResControlMode.dynamic empty_dynamic_mode;
}
