-- ===== src/AcDer/Defaults.antt =====
-- The default AC DER controls of src/iso15118/d20/ac_der_control.cpp. `from_float` is the function
-- of common_types.cpp; a field that a struct leaves as it was constructed is empty or 0.
use libiso.Prelude.{ℕ, ◌%◌, ◌^◌, true, false, Option, none, some, [], ◌∷◌}
use libiso.Floats.{Float}
use libiso.Message.{
  RationalNumber, zero_rational, DerControlFunctions, DerCurveDataUnit, DerPowerReference,
  DerPowerFactorExcitation, FrequencyWatt, VoltWatt, DerCurve, FaultRideThrough, ZeroCurrent,
  DerCurveDataPoint, DsoQSetpoint, DsoCosPhiSetpoint,
}
use libiso.AcDer.{AcDerControlConfig}

abbrev pub one_rational : RationalNumber
one_rational = record { value = 1; exponent = 0 }

abbrev pub seconds : ℕ → RationalNumber
seconds value = record { value = value % 2 ^ 16; exponent = 0 }

abbrev pub point :
    RationalNumber → RationalNumber → Option DerPowerFactorExcitation → DerCurveDataPoint
point x y e = record { x_value = x; y_value = record { setpoint_value = y; excitation = e } }

unfoldable pub make_der_curve : DerCurveDataUnit → DerCurveDataUnit → DerCurve
make_der_curve x_unit y_unit = record {
  x_unit = x_unit;
  y_unit = y_unit;
  curve_data_points =
      point zero_rational zero_rational none ∷ point one_rational one_rational none ∷ [];
  min_cos_phi = none;
  lock_value_unit = none;
  lock_in_value = none;
  lock_out_value = none;
  pt1_response_reactive_power = false;
  step_response_time_constant_reactive_power = seconds 0;
  intentional_delay = none;
}

unfoldable pub make_frequency_watt : RationalNumber → RationalNumber → FrequencyWatt
make_frequency_watt start_frequency stop_frequency = record {
  f_start = start_frequency;
  f_stop = stop_frequency;
  intentional_delay_f_stop = none;
  slope = one_rational;
  deactivation_time = none;
  intentional_delay_power_control = none;
  power_reference = DerPowerReference.maximum_discharge_power;
  hysteresis_control = false;
  power_up_ramp = none;
  pt1_response_active_power = false;
  step_response_time_constant_active_power = seconds 0;
}

-- The bitmaps have the bits 0 to 5.
unfoldable pub make_required_ac_der_control_functions : DerControlFunctions
make_required_ac_der_control_functions = record {
  standard_bitmap = 63;
  extended_bitmap = 63;
  volt_watt = true;
  dso_q_setpoint_provision = true;
  dso_cos_phi_setpoint_provision = true;
  dc_injection_restriction = true;
  under_frequency_watt = true;
  over_frequency_watt = true;
  volt_var = true;
  watt_var = true;
  watt_cos_phi = true;
  over_voltage_fault_ride_through = true;
  under_voltage_fault_ride_through = true;
  zero_current = true;
}

abbrev pub default_q_setpoint : DsoQSetpoint
default_q_setpoint = record {
  value = zero_rational;
  value_l2 = none;
  value_l3 = none;
  pt1_response_reactive_power = false;
  step_response_time_constant_reactive_power = zero_rational;
}

abbrev pub default_cos_phi_setpoint : DsoCosPhiSetpoint
default_cos_phi_setpoint = record {
  value = one_rational;
  value_l2 = none;
  value_l3 = none;
  excitation = DerPowerFactorExcitation.over_excited;
  pt1_response_reactive_power = false;
  step_response_time_constant_reactive_power = zero_rational;
}

module _ (from_float : Float → RationalNumber) where
  -- 230 V and 253 V.
  unfoldable pub make_volt_watt : VoltWatt
  make_volt_watt = record {
    power_reference = DerPowerReference.maximum_discharge_power;
    u_start = from_float 1130758144;
    u_stop = from_float 1132265472;
    pt1_response_active_power = false;
    step_response_time_constant_active_power = seconds 0;
    intentional_delay_power_control = none;
  }

  unfoldable pub make_fault_ride_through : FaultRideThrough
  make_fault_ride_through = record {
    voltage_limit_start_frt = from_float 1132265472;
    voltage_limit_stop_frt = none;
    voltage_recovery_limit = none;
    voltage_ride_through_positive_curve_k_factor = none;
    voltage_ride_through_negative_curve_k_factor = none;
    pt1_response_active_power = false;
    step_response_time_constant_active_power = seconds 0;
    pt1_response_reactive_power = false;
    step_response_time_constant_reactive_power = seconds 0;
  }

  unfoldable pub make_zero_current : ZeroCurrent
  make_zero_current = record {
    over_voltage_limit = some (from_float 1132265472);
    under_voltage_limit = none;
    over_voltage_recovery_limit = none;
    under_voltage_recovery_limit = none;
    pt1_response_active_power = false;
    step_response_time_constant_active_power = seconds 0;
    pt1_response_reactive_power = false;
    step_response_time_constant_reactive_power = seconds 0;
  }

  -- The frequencies are 49.8 Hz, 49.5 Hz, 50.2 Hz and 50.5 Hz.
  unfoldable pub make_default_ac_der_control_config : AcDerControlConfig
  unfolding make_fault_ride_through make_zero_current make_der_curve make_frequency_watt
      make_volt_watt
  make_default_ac_der_control_config = record {
    cpd_control = record {
      overvoltage_fault_ride_through = some make_fault_ride_through;
      undervoltage_fault_ride_through = some make_fault_ride_through;
      zero_current = some make_zero_current;
      reactive_power_support = some (record {
        volt_var = some (make_der_curve DerCurveDataUnit.unit_v DerCurveDataUnit.unit_var);
        watt_var = some (make_der_curve DerCurveDataUnit.unit_w DerCurveDataUnit.unit_var);
        watt_cos_phi =
            some (record (make_der_curve DerCurveDataUnit.unit_w DerCurveDataUnit.unit_var) {
              curve_data_points =
                  point zero_rational zero_rational (some DerPowerFactorExcitation.over_excited)
                  ∷ point one_rational one_rational (some DerPowerFactorExcitation.under_excited)
                  ∷ [];
            });
      });
      active_power_support = some (record {
        under_frequency_watt =
            some (make_frequency_watt (from_float 1111962419) (from_float 1111883776));
        over_frequency_watt =
            some (make_frequency_watt (from_float 1112067277) (from_float 1112145920));
        volt_watt = some make_volt_watt;
      });
      maximum_level_dc_injection = some zero_rational;
    };
    dso_q_setpoint = default_q_setpoint;
    dso_cos_phi_setpoint = default_cos_phi_setpoint;
  }
