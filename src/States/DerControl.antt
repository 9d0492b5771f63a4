-- ===== src/States/DerControl.antt =====
-- The AC DER checks that src/iso15118/d20/state/ac_charge_parameter_discovery.cpp and ac_charge_loop.cpp
-- share: the selected control functions, and what the provider answers.
pub mod Laws
use libiso.Prelude.{Bool, not, Option, none, some, if◌then◌else◌}
use libiso.Message.{DerControlFunctions, RationalNumber}
use libiso.Floats.{Float}
use libiso.Session.{SelectedServiceParameters}
use libiso.AcDer.{
  AcDerControlConfig, AcDerControlFailureReason, AcDerControlContext, AcDerControlProvider,
  has_required_ac_der_control_functions,
}
use libiso.AcDer.Validation.{validate_ac_der_control_config}

abbrev pub provider_context : SelectedServiceParameters → AcDerControlContext
provider_context s = record {
  selected_energy_service = s.selected_energy_service;
  selected_control_mode = s.selected_control_mode;
  selected_mobility_needs_mode = s.selected_mobility_needs_mode;
  selected_der_control_functions = s.selected_der_control_functions;
}

-- The reason of a refusal, or the control functions and their configuration.
pub data DerOutcome : Type 0 where
  refused : AcDerControlFailureReason → DerOutcome
  granted : DerControlFunctions → AcDerControlConfig → DerOutcome

abbrev check_config :
    (RationalNumber → Float)
    → DerControlFunctions
    → Option AcDerControlConfig
    → AcDerControlFailureReason
    → DerOutcome
check_config value_of controls none reason = DerOutcome.refused reason
check_config value_of controls (some config) reason =
    if not (validate_ac_der_control_config value_of config controls)
    then DerOutcome.refused AcDerControlFailureReason.invalid_dso_control
    else DerOutcome.granted controls config

abbrev check_controls :
    (RationalNumber → Float)
    → AcDerControlProvider
    → SelectedServiceParameters
    → Option DerControlFunctions
    → DerOutcome
check_controls value_of provider s none =
    DerOutcome.refused AcDerControlFailureReason.missing_selected_control_functions
check_controls value_of provider s (some controls) =
    let r = provider (provider_context s) in
    if not (has_required_ac_der_control_functions controls)
    then DerOutcome.refused AcDerControlFailureReason.missing_selected_mandatory_control_functions
    else check_config value_of controls r.config r.failure_reason

-- The checks of an AC DER request; `matches` is whether the request is for the selected service and,
-- in a charge loop, the selected control mode.
unfoldable pub check_der :
    (RationalNumber → Float) → AcDerControlProvider → SelectedServiceParameters → Bool → DerOutcome
check_der value_of provider s matches =
    if not matches
    then DerOutcome.refused AcDerControlFailureReason.non_ac_der_service_selected
    else check_controls value_of provider s s.selected_der_control_functions
