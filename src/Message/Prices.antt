-- ===== src/Message/Prices.antt =====
-- The prices of include/iso15118/message/schedule_exchange.hpp.
use Prim.Native.String.{String}
use libiso.Prelude.{ℕ, Bool, Option, List}
use libiso.Message.Datatypes.{RationalNumber}

pub record TaxRule : Type 0 where
  pub tax_rule_id : ℕ  -- uint32_t
  pub tax_rule_name : Option String
  pub tax_rate : RationalNumber
  pub tax_included_in_price : Option Bool
  pub applies_to_energy_fee : Bool
  pub applies_to_parking_fee : Bool
  pub applies_to_overstay_fee : Bool
  pub applies_to_minimum_maximum_cost : Bool

pub record PriceRule : Type 0 where
  pub energy_fee : RationalNumber
  pub parking_fee : Option RationalNumber
  pub parking_fee_period : Option ℕ  -- uint32_t
  pub carbon_dioxide_emission : Option ℕ  -- uint16_t
  pub renewable_generation_percentage : Option ℕ  -- uint8_t
  pub power_range_start : RationalNumber

pub record PriceRuleStack : Type 0 where
  pub duration : ℕ  -- uint32_t
  pub price_rule : List PriceRule  -- 8 of them

pub record AdditionalService : Type 0 where
  pub service_name : String
  pub service_fee : RationalNumber

pub record OverstayRule : Type 0 where
  pub overstay_rule_description : Option String
  pub start_time : ℕ  -- uint32_t
  pub overstay_fee : RationalNumber
  pub overstay_fee_period : ℕ  -- uint32_t

pub record OverstayRulesList : Type 0 where
  pub overstay_time_threshold : Option ℕ  -- uint32_t
  pub overstay_power_threshold : Option RationalNumber
  pub overstay_rule : List OverstayRule

pub record AbsolutePriceSchedule : Type 0 where
  pub id : Option String
  pub time_anchor : ℕ  -- uint64_t
  pub price_schedule_id : ℕ  -- uint32_t
  pub price_schedule_description : Option String
  pub currency : String
  pub language : String
  pub price_algorithm : String
  pub minimum_cost : Option RationalNumber
  pub maximum_cost : Option RationalNumber
  pub tax_rules : Option (List TaxRule)  -- 10 of them
  pub price_rule_stacks : List PriceRuleStack  -- 1024 of them
  pub overstay_rules : Option OverstayRulesList
  pub additional_selected_services : Option (List AdditionalService)  -- 5 of them

pub record PriceLevelScheduleEntry : Type 0 where
  pub duration : ℕ  -- uint32_t
  pub price_level : ℕ  -- uint8_t

pub record PriceLevelSchedule : Type 0 where
  pub id : Option String
  pub time_anchor : ℕ  -- uint64_t
  pub price_schedule_id : ℕ  -- uint32_t
  pub price_schedule_description : Option String
  pub number_of_price_levels : ℕ  -- uint8_t
  pub price_level_schedule_entries : List PriceLevelScheduleEntry

-- The alternatives of a `price_schedule`.
pub data PriceSchedule : Type 0 where
  no_schedule : PriceSchedule
  absolute : AbsolutePriceSchedule → PriceSchedule
  levels : PriceLevelSchedule → PriceSchedule
