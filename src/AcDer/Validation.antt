-- ===== src/AcDer/Validation.antt =====
-- The validation of AC DER controls in src/iso15118/d20/ac_der_control.cpp. `value_of` is
-- `from_RationalNumber`.
use libiso.Prelude.{
  Bool, true, false, not, ◌&&◌, ◌||◌, Option, none, some, List, [], ◌∷◌, ltb, length, has_value,
  if◌then◌else◌,
}
use libiso.Floats.{Float, float_lt, float_le}
use libiso.Message.{
  RationalNumber, DerControlFunctions, FrequencyWatt, VoltWatt, DerCurve, DerCurveDataPoint,
  FaultRideThrough, ZeroCurrent, DsoQSetpoint, DsoCosPhiSetpoint,
}
use libiso.AcDer.{AcDerControlConfig}

-- `a.has_value() and f(*a)`.
abbrev pub holds {ℓ} : {A : Type ℓ} → Option A → (A → Bool) → Bool
holds none f = false
holds (some a) f = f a

-- `not a.has_value() or f(*a)`.
abbrev pub holds_or_empty {ℓ} : {A : Type ℓ} → Option A → (A → Bool) → Bool
holds_or_empty none f = true
holds_or_empty (some a) f = f a

module _ (value_of : RationalNumber → Float) where
  abbrev pub is_non_negative : RationalNumber → Bool
  unfolding float_le
  is_non_negative r = float_le 0 (value_of r)

  abbrev pub is_positive : RationalNumber → Bool
  unfolding float_lt
  is_positive r = float_lt 0 (value_of r)

  abbrev pub is_power_factor : RationalNumber → Bool
  unfolding float_le
  is_power_factor r = float_le 0 (value_of r) && float_le (value_of r) 1065353216

  abbrev pub less : RationalNumber → RationalNumber → Bool
  unfolding float_lt
  less a b = float_lt (value_of a) (value_of b)

  unfoldable pub validate_frequency_watt : FrequencyWatt → Bool → Bool
  unfolding float_lt float_le
  validate_frequency_watt w under_frequency_mode =
      is_positive w.f_start
      && is_positive w.f_stop
      && ((under_frequency_mode && less w.f_stop w.f_start)
          || (not under_frequency_mode && less w.f_start w.f_stop))
      && is_non_negative w.slope
      && is_non_negative w.step_response_time_constant_active_power

  unfoldable pub validate_volt_watt : VoltWatt → Bool
  unfolding float_lt float_le
  validate_volt_watt w =
      is_positive w.u_start
      && is_positive w.u_stop
      && less w.u_start w.u_stop
      && is_non_negative w.step_response_time_constant_active_power

  -- The loop over the points, from the second: the x values ascend strictly. `current <= previous`
  -- is false if one of them is a NaN.
  unfoldable pub ascending : RationalNumber → List DerCurveDataPoint → Bool
  unfolding float_le
  ascending previous [] = true
  ascending previous (p ∷ ps) =
      not (float_le (value_of p.x_value) (value_of previous)) && ascending p.x_value ps

  unfoldable pub ascending_points : List DerCurveDataPoint → Bool
  unfolding ascending
  ascending_points [] = true
  ascending_points (p ∷ ps) = ascending p.x_value ps

  unfoldable pub validate_der_curve : DerCurve → Bool
  unfolding float_le ascending_points
  validate_der_curve curve =
      if ltb (length curve.curve_data_points) 2
        || not (is_non_negative curve.step_response_time_constant_reactive_power)
      then false
      else ascending_points curve.curve_data_points

  unfoldable pub validate_fault_ride_through : FaultRideThrough → Bool
  unfolding float_lt float_le
  validate_fault_ride_through f =
      is_positive f.voltage_limit_start_frt
      && holds_or_empty f.voltage_limit_stop_frt is_positive
      && holds_or_empty f.voltage_recovery_limit is_positive
      && is_non_negative f.step_response_time_constant_active_power
      && is_non_negative f.step_response_time_constant_reactive_power

  unfoldable pub validate_zero_current : ZeroCurrent → Bool
  unfolding float_lt float_le
  validate_zero_current z =
      (has_value z.over_voltage_limit || has_value z.under_voltage_limit)
      && holds_or_empty z.over_voltage_limit is_positive
      && holds_or_empty z.under_voltage_limit is_positive
      && holds_or_empty z.over_voltage_recovery_limit is_positive
      && holds_or_empty z.under_voltage_recovery_limit is_positive
      && is_non_negative z.step_response_time_constant_active_power
      && is_non_negative z.step_response_time_constant_reactive_power

  unfoldable pub validate_dso_q_setpoint : DsoQSetpoint → Bool
  unfolding float_le
  validate_dso_q_setpoint s = is_non_negative s.step_response_time_constant_reactive_power

  unfoldable pub validate_dso_cos_phi_setpoint : DsoCosPhiSetpoint → Bool
  unfolding float_le
  validate_dso_cos_phi_setpoint s =
      is_power_factor s.value
      && holds_or_empty s.value_l2 is_power_factor
      && holds_or_empty s.value_l3 is_power_factor
      && is_non_negative s.step_response_time_constant_reactive_power

  unfoldable pub validate_ac_der_control_config : AcDerControlConfig → DerControlFunctions → Bool
  unfolding validate_volt_watt validate_frequency_watt validate_der_curve
      validate_fault_ride_through validate_zero_current validate_dso_q_setpoint
      validate_dso_cos_phi_setpoint float_le
  validate_ac_der_control_config config controls =
      let control = config.cpd_control in
      let active = control.active_power_support in
      let reactive = control.reactive_power_support in
      (not controls.volt_watt || holds active (λ a. holds a.volt_watt validate_volt_watt))
      && (not controls.under_frequency_watt
          || holds active (λ a. holds a.under_frequency_watt (λ w. validate_frequency_watt w true)))
      && (not controls.over_frequency_watt
          || holds active (λ a. holds a.over_frequency_watt (λ w. validate_frequency_watt w false)))
      && (not controls.volt_var || holds reactive (λ r. holds r.volt_var validate_der_curve))
      && (not controls.watt_var || holds reactive (λ r. holds r.watt_var validate_der_curve))
      && (not controls.watt_cos_phi
          || holds reactive (λ r. holds r.watt_cos_phi validate_der_curve))
      && (not controls.over_voltage_fault_ride_through
          || holds control.overvoltage_fault_ride_through validate_fault_ride_through)
      && (not controls.under_voltage_fault_ride_through
          || holds control.undervoltage_fault_ride_through validate_fault_ride_through)
      && (not controls.zero_current || holds control.zero_current validate_zero_current)
      && (not controls.dc_injection_restriction
          || holds control.maximum_level_dc_injection is_non_negative)
      && (not controls.dso_q_setpoint_provision || validate_dso_q_setpoint config.dso_q_setpoint)
      && (not controls.dso_cos_phi_setpoint_provision
          || validate_dso_cos_phi_setpoint config.dso_cos_phi_setpoint)
