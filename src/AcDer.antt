-- ===== src/AcDer.antt =====
-- include/iso15118/d20/ac_der_control.hpp: what a provider of AC DER control is asked and what it
-- answers. A selection that a session has not made is `none`.
pub mod Validation
pub mod Defaults
pub mod Snapshots
pub mod Provider
pub mod Laws
use libiso.Prelude.{Bool, Option, ◌&&◌}
use libiso.Message.{
  ServiceCategory, ControlMode, MobilityNeedsMode, DerControlFunctions, DerControl, DsoQSetpoint,
  DsoCosPhiSetpoint,
}

pub record AcDerControlConfig : Type 0 where
  pub cpd_control : DerControl
  pub dso_q_setpoint : DsoQSetpoint
  pub dso_cos_phi_setpoint : DsoCosPhiSetpoint

pub data AcDerControlFailureReason : Type 0 where
  no_failure unknown non_ac_der_service_selected unsupported_control_mode :
      AcDerControlFailureReason
  unsupported_mobility_needs_mode missing_selected_control_functions : AcDerControlFailureReason
  ac_der_disabled stale_grid_policy stale_dso_control : AcDerControlFailureReason
  invalid_grid_policy invalid_dso_control invalid_evse_capability : AcDerControlFailureReason
  missing_selected_mandatory_control_functions : AcDerControlFailureReason
  missing_supported_mandatory_control_functions : AcDerControlFailureReason
  unsupported_selected_control_functions : AcDerControlFailureReason

pub record AcDerControlResult : Type 0 where
  pub config : Option AcDerControlConfig
  pub failure_reason : AcDerControlFailureReason

pub record AcDerControlContext : Type 0 where
  pub selected_energy_service : Option ServiceCategory
  pub selected_control_mode : Option ControlMode
  pub selected_mobility_needs_mode : Option MobilityNeedsMode
  pub selected_der_control_functions : Option DerControlFunctions

-- `IAcDerControlProvider::get_ac_der_control_result`.
abbrev pub AcDerControlProvider : Type 0
AcDerControlProvider = AcDerControlContext → AcDerControlResult

unfoldable pub has_required_ac_der_control_functions : DerControlFunctions → Bool
has_required_ac_der_control_functions c =
    c.volt_watt && c.dso_q_setpoint_provision && c.dso_cos_phi_setpoint_provision
    && c.dc_injection_restriction && c.under_frequency_watt && c.over_frequency_watt && c.volt_var
    && c.watt_var && c.watt_cos_phi && c.over_voltage_fault_ride_through
    && c.under_voltage_fault_ride_through && c.zero_current
