-- ===== src/AcDer/Provider.antt =====
-- The providers of src/iso15118/d20/ac_der_control.cpp: one that answers with a fixed configuration,
-- and one that derives it from the snapshots of the charger.
use libiso.Prelude.{Bool, not, ◌&&◌, ◌||◌, Option, none, some, if◌then◌else◌}
use libiso.Floats.{Float}
use libiso.Message.{RationalNumber, ServiceCategory, DerControlFunctions}
use libiso.Session.Modes.{selects, is_dynamic, is_provided_by_evcc}
use libiso.AcDer.{
  AcDerControlConfig, AcDerControlFailureReason, AcDerControlResult, AcDerControlContext,
  AcDerControlProvider, has_required_ac_der_control_functions,
}
use libiso.AcDer.Validation.{validate_ac_der_control_config}
use libiso.AcDer.Defaults.{make_default_ac_der_control_config, make_volt_watt, make_frequency_watt}
use libiso.AcDer.Snapshots.{AcDerSeccControlSnapshots, validate_ac_der_secc_control_snapshots}

abbrev pub refused : AcDerControlFailureReason → AcDerControlResult
refused r = record { config = none; failure_reason = r }

abbrev pub granted : AcDerControlConfig → AcDerControlResult
granted c = record { config = some c; failure_reason = AcDerControlFailureReason.no_failure }

-- `IAcDerControlProvider::get_ac_der_control_result`, of a provider that overrides only
-- `get_ac_der_control_config`.
unfoldable pub get_ac_der_control_result :
    (AcDerControlContext → Option AcDerControlConfig) → AcDerControlProvider
get_ac_der_control_result get_ac_der_control_config context =
    elim (get_ac_der_control_config context) [
      | none ↦ refused AcDerControlFailureReason.unknown
      | some config ↦ granted config
    ]

unfoldable pub make_static_ac_der_control_provider : AcDerControlConfig → AcDerControlProvider
make_static_ac_der_control_provider config context =
    if not (selects context.selected_energy_service ServiceCategory.ac_der)
    then refused AcDerControlFailureReason.non_ac_der_service_selected
    else granted config

unfoldable pub supports_selected_controls : DerControlFunctions → DerControlFunctions → Bool
supports_selected_controls selected supported =
    (not selected.volt_watt || supported.volt_watt)
    && (not selected.dso_q_setpoint_provision || supported.dso_q_setpoint_provision)
    && (not selected.dso_cos_phi_setpoint_provision || supported.dso_cos_phi_setpoint_provision)
    && (not selected.dc_injection_restriction || supported.dc_injection_restriction)
    && (not selected.under_frequency_watt || supported.under_frequency_watt)
    && (not selected.over_frequency_watt || supported.over_frequency_watt)
    && (not selected.volt_var || supported.volt_var)
    && (not selected.watt_var || supported.watt_var)
    && (not selected.watt_cos_phi || supported.watt_cos_phi)
    && (not selected.over_voltage_fault_ride_through || supported.over_voltage_fault_ride_through)
    && (not selected.under_voltage_fault_ride_through || supported.under_voltage_fault_ride_through)
    && (not selected.zero_current || supported.zero_current)

module _ (value_of : RationalNumber → Float) (from_float : Float → RationalNumber) where
  -- The default configuration with the values of the snapshots.
  unfoldable pub config_of : AcDerSeccControlSnapshots → AcDerControlConfig
  unfolding make_default_ac_der_control_config make_volt_watt make_frequency_watt
  config_of snapshots =
      let config = make_default_ac_der_control_config from_float in
      let control = config.cpd_control in
      let policy = snapshots.grid_policy in
      record config {
        cpd_control = record control {
          maximum_level_dc_injection = some policy.maximum_dc_injection;
          active_power_support = some (record {
            volt_watt = some (record (make_volt_watt from_float) {
              u_start = policy.volt_watt_start_voltage;
              u_stop = policy.volt_watt_stop_voltage;
            });
            under_frequency_watt = some (
                make_frequency_watt policy.under_frequency_watt_start_hz
                  policy.under_frequency_watt_stop_hz);
            over_frequency_watt = some (
                make_frequency_watt policy.over_frequency_watt_start_hz
                  policy.over_frequency_watt_stop_hz);
          });
        };
        dso_q_setpoint = snapshots.dso_control.q_setpoint;
        dso_cos_phi_setpoint = snapshots.dso_control.cos_phi_setpoint;
      }

  -- The rest of the answer once the snapshots were validated with a result.
  unfoldable pub answer :
      AcDerSeccControlSnapshots
      → DerControlFunctions
      → AcDerControlFailureReason
      → AcDerControlResult
  unfolding supports_selected_controls has_required_ac_der_control_functions config_of
      validate_ac_der_control_config
  answer snapshots selected AcDerControlFailureReason.no_failure =
      if not
        (supports_selected_controls selected snapshots.evse_capability.supported_control_functions)
      then refused AcDerControlFailureReason.unsupported_selected_control_functions
      else if not (has_required_ac_der_control_functions selected)
      then refused AcDerControlFailureReason.missing_selected_mandatory_control_functions
      else if not (validate_ac_der_control_config value_of (config_of snapshots) selected)
      then refused AcDerControlFailureReason.invalid_grid_policy
      else granted (config_of snapshots)
  answer snapshots selected reason = refused reason

  unfoldable pub answer_selected :
      AcDerSeccControlSnapshots → Option DerControlFunctions → AcDerControlResult
  unfolding validate_ac_der_secc_control_snapshots answer
  answer_selected snapshots none =
      refused AcDerControlFailureReason.missing_selected_control_functions
  answer_selected snapshots (some selected) =
      answer snapshots selected (validate_ac_der_secc_control_snapshots value_of snapshots)

  unfoldable pub make_secc_ac_der_control_provider :
      AcDerSeccControlSnapshots → AcDerControlProvider
  unfolding answer_selected
  make_secc_ac_der_control_provider snapshots context =
      if not (selects context.selected_energy_service ServiceCategory.ac_der)
      then refused AcDerControlFailureReason.non_ac_der_service_selected
      else if not (is_dynamic context.selected_control_mode)
      then refused AcDerControlFailureReason.unsupported_control_mode
      else if not (is_provided_by_evcc context.selected_mobility_needs_mode)
      then refused AcDerControlFailureReason.unsupported_mobility_needs_mode
      else answer_selected snapshots context.selected_der_control_functions
