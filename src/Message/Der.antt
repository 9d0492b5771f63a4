-- ===== src/Message/Der.antt =====
-- The grid codes of distributed energy resources, of common_types.hpp, ac_charge_loop.hpp and
-- ac_charge_parameter_discovery.hpp in include/iso15118/message.
use libiso.Prelude.{ℕ, Bool, Option, List}
use libiso.Message.Datatypes.{RationalNumber}

pub data DerCurveDataUnit : Type 0 where
  unit_v unit_hz unit_w unit_s unit_var : DerCurveDataUnit

pub data DerPowerReference : Type 0 where
  maximum_discharge_power momentary_power : DerPowerReference

pub data DerPowerFactorExcitation : Type 0 where
  over_excited under_excited : DerPowerFactorExcitation

pub record DerSetpointExcitation : Type 0 where
  pub setpoint_value : RationalNumber
  pub excitation : Option DerPowerFactorExcitation

pub record DerCurveDataPoint : Type 0 where
  pub x_value : RationalNumber
  pub y_value : DerSetpointExcitation

pub record DerCurve : Type 0 where
  pub x_unit : DerCurveDataUnit
  pub y_unit : DerCurveDataUnit
  pub curve_data_points : List DerCurveDataPoint
  pub min_cos_phi : Option RationalNumber
  pub lock_value_unit : Option DerCurveDataUnit
  pub lock_in_value : Option RationalNumber
  pub lock_out_value : Option RationalNumber
  pub pt1_response_reactive_power : Bool
  pub step_response_time_constant_reactive_power : RationalNumber
  pub intentional_delay : Option RationalNumber

pub record FrequencyWatt : Type 0 where
  pub f_start : RationalNumber
  pub f_stop : RationalNumber
  pub intentional_delay_f_stop : Option ℕ  -- uint16_t
  pub slope : RationalNumber
  pub deactivation_time : Option ℕ  -- uint16_t
  pub intentional_delay_power_control : Option ℕ  -- uint16_t
  pub power_reference : DerPowerReference
  pub hysteresis_control : Bool
  pub power_up_ramp : Option ℕ  -- uint16_t
  pub pt1_response_active_power : Bool
  pub step_response_time_constant_active_power : RationalNumber

pub record VoltWatt : Type 0 where
  pub power_reference : DerPowerReference
  pub u_start : RationalNumber
  pub u_stop : RationalNumber
  pub pt1_response_active_power : Bool
  pub step_response_time_constant_active_power : RationalNumber
  pub intentional_delay_power_control : Option ℕ  -- uint32_t

pub record FaultRideThrough : Type 0 where
  pub voltage_limit_start_frt : RationalNumber
  pub voltage_limit_stop_frt : Option RationalNumber
  pub voltage_recovery_limit : Option RationalNumber
  pub voltage_ride_through_positive_curve_k_factor : Option RationalNumber
  pub voltage_ride_through_negative_curve_k_factor : Option RationalNumber
  pub pt1_response_active_power : Bool
  pub step_response_time_constant_active_power : RationalNumber
  pub pt1_response_reactive_power : Bool
  pub step_response_time_constant_reactive_power : RationalNumber

pub record ZeroCurrent : Type 0 where
  pub over_voltage_limit : Option RationalNumber
  pub under_voltage_limit : Option RationalNumber
  pub over_voltage_recovery_limit : Option RationalNumber
  pub under_voltage_recovery_limit : Option RationalNumber
  pub pt1_response_active_power : Bool
  pub step_response_time_constant_active_power : RationalNumber
  pub pt1_response_reactive_power : Bool
  pub step_response_time_constant_reactive_power : RationalNumber

pub record ReactivePowerSupport : Type 0 where
  pub volt_var : Option DerCurve
  pub watt_var : Option DerCurve
  pub watt_cos_phi : Option DerCurve

pub record ActivePowerSupport : Type 0 where
  pub under_frequency_watt : Option FrequencyWatt
  pub over_frequency_watt : Option FrequencyWatt
  pub volt_watt : Option VoltWatt

pub record DerControl : Type 0 where
  pub overvoltage_fault_ride_through : Option FaultRideThrough
  pub undervoltage_fault_ride_through : Option FaultRideThrough
  pub zero_current : Option ZeroCurrent
  pub reactive_power_support : Option ReactivePowerSupport
  pub active_power_support : Option ActivePowerSupport
  pub maximum_level_dc_injection : Option RationalNumber

pub record DsoQSetpoint : Type 0 where
  pub value : RationalNumber
  pub value_l2 : Option RationalNumber
  pub value_l3 : Option RationalNumber
  pub pt1_response_reactive_power : Bool
  pub step_response_time_constant_reactive_power : RationalNumber

pub record DsoCosPhiSetpoint : Type 0 where
  pub value : RationalNumber
  pub value_l2 : Option RationalNumber
  pub value_l3 : Option RationalNumber
  pub excitation : DerPowerFactorExcitation
  pub pt1_response_reactive_power : Bool
  pub step_response_time_constant_reactive_power : RationalNumber
