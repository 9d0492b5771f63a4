-- ===== src/AcDer/Laws.antt =====
-- src/iso15118/d20/ac_der_control.cpp: what the provider of a charger grants.
use libiso.Prelude.{
  Bool, true, false, not, some, ◌≡◌, refl, subst, arith, some-injective, if◌then◌else◌,
}
use libiso.Floats.{Float}
use libiso.Message.{RationalNumber, ServiceCategory, DerControlFunctions}
use libiso.Session.Modes.{selects, is_dynamic, is_provided_by_evcc}
use libiso.AcDer.{
  AcDerControlConfig, AcDerControlContext, AcDerControlFailureReason, AcDerControlResult,
  has_required_ac_der_control_functions,
}
use libiso.AcDer.Validation.{validate_ac_der_control_config}
use libiso.AcDer.Snapshots.{AcDerSeccControlSnapshots, validate_ac_der_secc_control_snapshots}
use libiso.AcDer.Provider.{
  refused, granted, supports_selected_controls, config_of, answer, answer_selected,
  make_secc_ac_der_control_provider,
}

checked :
    (b : Bool) (reason : AcDerControlFailureReason) (r : AcDerControlResult)
    {config : AcDerControlConfig}
    → (if not b then refused reason else r).config ≡ some config
    → (b ≡ true) × (r.config ≡ some config)
checked true reason r h = (refl, h)
checked false reason r h = ground arith

module _ (value_of : RationalNumber → Float) (from_float : Float → RationalNumber) where
  answer-granted :
      (snapshots : AcDerSeccControlSnapshots) (selected : DerControlFunctions)
      (reason : AcDerControlFailureReason) {config : AcDerControlConfig}
      → (answer value_of from_float snapshots selected reason).config ≡ some config
      → (reason ≡ AcDerControlFailureReason.no_failure)
        × (supports_selected_controls selected snapshots.evse_capability.supported_control_functions
            ≡ true)
        × (validate_ac_der_control_config value_of config selected ≡ true)
  unfolding answer
  answer-granted snapshots selected AcDerControlFailureReason.no_failure {config} h =
      let c = config_of value_of from_float snapshots in
      let is_valid = validate_ac_der_control_config value_of c selected in
      let is_required = has_required_ac_der_control_functions selected in
      let is_supported =
        supports_selected_controls selected snapshots.evse_capability.supported_control_functions in
      let r2 =
        if not is_valid then refused AcDerControlFailureReason.invalid_grid_policy else granted c in
      let r1 =
        if not is_required
        then refused AcDerControlFailureReason.missing_selected_mandatory_control_functions
        else r2 in
      let (supported, h1) =
        checked is_supported AcDerControlFailureReason.unsupported_selected_control_functions r1
          h in
      let (required, h2) =
        checked is_required AcDerControlFailureReason.missing_selected_mandatory_control_functions
          r2 h1 in
      let (valid, h3) =
        checked is_valid AcDerControlFailureReason.invalid_grid_policy (granted c) h2 in
      (
        refl,
        supported,
        subst (λ d. validate_ac_der_control_config value_of d selected ≡ true) (some-injective h3)
            valid,
      )
  answer-granted snapshots selected _ h = ground arith

  -- A charger grants a configuration only for AC DER in dynamic mode with the mobility needs of the
  -- EV, from snapshots that pass their validation, and to an EV whose selected control functions the
  -- charger supports; the configuration passes its own validation for them.
  pub make_secc_ac_der_control_provider-granted :
      (snapshots : AcDerSeccControlSnapshots) (context : AcDerControlContext)
      (selected : DerControlFunctions) {config : AcDerControlConfig}
      → context.selected_der_control_functions ≡ some selected
      → (make_secc_ac_der_control_provider value_of from_float snapshots context).config
        ≡ some config
      → (selects context.selected_energy_service ServiceCategory.ac_der ≡ true)
        × (is_dynamic context.selected_control_mode ≡ true)
        × (is_provided_by_evcc context.selected_mobility_needs_mode ≡ true)
        × (validate_ac_der_secc_control_snapshots value_of snapshots
            ≡ AcDerControlFailureReason.no_failure)
        × (supports_selected_controls selected snapshots.evse_capability.supported_control_functions
            ≡ true)
        × (validate_ac_der_control_config value_of config selected ≡ true)
  unfolding make_secc_ac_der_control_provider answer_selected
  make_secc_ac_der_control_provider-granted snapshots context selected {config} h g =
      let r3 =
        answer_selected value_of from_float snapshots context.selected_der_control_functions in
      let is_evcc = is_provided_by_evcc context.selected_mobility_needs_mode in
      let r2 =
        if not is_evcc
        then refused AcDerControlFailureReason.unsupported_mobility_needs_mode
        else r3 in
      let r1 =
        if not (is_dynamic context.selected_control_mode)
        then refused AcDerControlFailureReason.unsupported_control_mode
        else r2 in
      let (der, h1) =
        checked (selects context.selected_energy_service ServiceCategory.ac_der)
          AcDerControlFailureReason.non_ac_der_service_selected r1 g in
      let (dynamic, h2) =
        checked (is_dynamic context.selected_control_mode)
          AcDerControlFailureReason.unsupported_control_mode r2 h1 in
      let (by_evcc, h3) =
        checked is_evcc AcDerControlFailureReason.unsupported_mobility_needs_mode r3 h2 in
      let h4 =
        subst (λ d. (answer_selected value_of from_float snapshots d).config ≡ some config) h h3 in
      let (fresh, supported, valid) =
        answer-granted snapshots selected
          (validate_ac_der_secc_control_snapshots value_of snapshots) h4 in
      (der, dynamic, by_evcc, fresh, supported, valid)
