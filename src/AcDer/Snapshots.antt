-- ===== src/AcDer/Snapshots.antt =====
-- The snapshots of a charger in include/iso15118/d20/ac_der_control.hpp, with their validation and
-- defaults in src/iso15118/d20/ac_der_control.cpp. A negative exponent is its pattern of 8 bits.
use libiso.Prelude.{Bool, true, not, ◌&&◌, ◌||◌, ℕ, if◌then◌else◌}
use libiso.Floats.{Float, float_lt, float_le}
use libiso.Message.{
  RationalNumber, zero_rational, DerControlFunctions, DsoQSetpoint, DsoCosPhiSetpoint,
  DerPowerFactorExcitation,
}
use libiso.AcDer.{AcDerControlFailureReason, has_required_ac_der_control_functions}
use libiso.AcDer.Validation.{
  is_non_negative, is_positive, less, validate_dso_q_setpoint, validate_dso_cos_phi_setpoint,
}
use libiso.AcDer.Defaults.{
  default_q_setpoint, default_cos_phi_setpoint, make_required_ac_der_control_functions,
}

pub record AcDerGridPolicySnapshot : Type 0 where
  pub volt_watt_start_voltage : RationalNumber
  pub volt_watt_stop_voltage : RationalNumber
  pub under_frequency_watt_start_hz : RationalNumber
  pub under_frequency_watt_stop_hz : RationalNumber
  pub over_frequency_watt_start_hz : RationalNumber
  pub over_frequency_watt_stop_hz : RationalNumber
  pub maximum_dc_injection : RationalNumber
  pub valid : Bool

pub record AcDerDsoControlSnapshot : Type 0 where
  pub q_setpoint : DsoQSetpoint
  pub cos_phi_setpoint : DsoCosPhiSetpoint
  pub valid : Bool

pub record AcDerEvseCapabilitySnapshot : Type 0 where
  pub supported_control_functions : DerControlFunctions
  pub valid : Bool

pub record AcDerRuntimeStateSnapshot : Type 0 where
  pub ac_der_enabled : Bool
  pub grid_policy_fresh : Bool
  pub dso_control_fresh : Bool

pub record AcDerSeccControlSnapshots : Type 0 where
  pub grid_policy : AcDerGridPolicySnapshot
  pub dso_control : AcDerDsoControlSnapshot
  pub evse_capability : AcDerEvseCapabilitySnapshot
  pub runtime_state : AcDerRuntimeStateSnapshot

module _ (value_of : RationalNumber → Float) where
  unfoldable pub validate_ac_der_grid_policy_snapshot : AcDerGridPolicySnapshot → Bool
  unfolding float_lt float_le
  validate_ac_der_grid_policy_snapshot g =
      less value_of g.volt_watt_start_voltage g.volt_watt_stop_voltage
      && is_positive value_of g.volt_watt_start_voltage
      && is_positive value_of g.volt_watt_stop_voltage
      && less value_of g.under_frequency_watt_stop_hz g.under_frequency_watt_start_hz
      && is_positive value_of g.under_frequency_watt_start_hz
      && is_positive value_of g.under_frequency_watt_stop_hz
      && less value_of g.over_frequency_watt_start_hz g.over_frequency_watt_stop_hz
      && is_positive value_of g.over_frequency_watt_start_hz
      && is_positive value_of g.over_frequency_watt_stop_hz
      && is_non_negative value_of g.maximum_dc_injection

  unfoldable pub validate_ac_der_dso_control_snapshot : AcDerDsoControlSnapshot → Bool
  unfolding validate_dso_q_setpoint validate_dso_cos_phi_setpoint
  validate_ac_der_dso_control_snapshot d =
      validate_dso_q_setpoint value_of d.q_setpoint
      && validate_dso_cos_phi_setpoint value_of d.cos_phi_setpoint

  unfoldable pub validate_ac_der_secc_control_snapshots :
      AcDerSeccControlSnapshots → AcDerControlFailureReason
  unfolding validate_ac_der_grid_policy_snapshot validate_ac_der_dso_control_snapshot
      has_required_ac_der_control_functions
  validate_ac_der_secc_control_snapshots s =
      if not s.runtime_state.ac_der_enabled
      then AcDerControlFailureReason.ac_der_disabled
      else if not s.runtime_state.grid_policy_fresh
      then AcDerControlFailureReason.stale_grid_policy
      else if not s.runtime_state.dso_control_fresh
      then AcDerControlFailureReason.stale_dso_control
      else if not s.grid_policy.valid || not (validate_ac_der_grid_policy_snapshot s.grid_policy)
      then AcDerControlFailureReason.invalid_grid_policy
      else if not s.dso_control.valid || not (validate_ac_der_dso_control_snapshot s.dso_control)
      then AcDerControlFailureReason.invalid_dso_control
      else if not s.evse_capability.valid
      then AcDerControlFailureReason.invalid_evse_capability
      else if not
          (has_required_ac_der_control_functions s.evse_capability.supported_control_functions)
      then AcDerControlFailureReason.missing_supported_mandatory_control_functions
      else AcDerControlFailureReason.no_failure

abbrev tenths : ℕ → RationalNumber
tenths n = record { value = n; exponent = 255 }

abbrev volts : ℕ → RationalNumber
volts n = record { value = n; exponent = 0 }

unfoldable pub make_default_ac_der_secc_control_snapshots : AcDerSeccControlSnapshots
unfolding make_required_ac_der_control_functions
make_default_ac_der_secc_control_snapshots = record {
  grid_policy = record {
    volt_watt_start_voltage = volts 230;
    volt_watt_stop_voltage = volts 253;
    under_frequency_watt_start_hz = tenths 498;
    under_frequency_watt_stop_hz = tenths 495;
    over_frequency_watt_start_hz = tenths 502;
    over_frequency_watt_stop_hz = tenths 505;
    maximum_dc_injection = zero_rational;
    valid = true;
  };
  dso_control = record {
    q_setpoint = default_q_setpoint;
    cos_phi_setpoint = default_cos_phi_setpoint;
    valid = true;
  };
  evse_capability = record {
    supported_control_functions = make_required_ac_der_control_functions;
    valid = true;
  };
  runtime_state = record {
    ac_der_enabled = true;
    grid_policy_fresh = true;
    dso_control_fresh = true;
  };
}

unfoldable pub make_ac_der_iec_dynamic_eim_profile_snapshots : AcDerSeccControlSnapshots
unfolding make_default_ac_der_secc_control_snapshots
make_ac_der_iec_dynamic_eim_profile_snapshots =
    let s = make_default_ac_der_secc_control_snapshots in
    let g = s.grid_policy in
    let d = s.dso_control in
    record s {
      grid_policy = record g {
        volt_watt_start_voltage = volts 241;
        volt_watt_stop_voltage = volts 253;
        maximum_dc_injection = tenths 5;
      };
      dso_control = record d {
        q_setpoint = record default_q_setpoint { value = record { value = 7; exponent = 2 } };
        cos_phi_setpoint = record default_cos_phi_setpoint {
          value = record { value = 95; exponent = 254 };
          excitation = DerPowerFactorExcitation.under_excited;
        };
      };
    }
