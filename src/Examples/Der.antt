-- ===== src/Examples/Der.antt =====
-- AC DER control in dynamic mode, with the default configuration of a charger. A rational number holds
-- the bits of a float as its value.
use libiso.Prelude.{◌≡◌, refl, true, none, some, bytes_eq}
use libiso.Floats.{Float}
use libiso.Message.{
  RationalNumber, ServiceCategory, ControlMode, MobilityNeedsMode, DerControlFunctions, Processing,
  DerAcCpdResEnergyTransferMode, AcReqTransferMode, AcResTransferMode,
  DerAcCpdReqEnergyTransferMode, AcChargeParameterDiscoveryRequest,
}
use libiso.Session.{Session, nothing_selected}
use libiso.Session.Modes.{selects, is_dynamic, is_provided_by_evcc}
use libiso.Config.{AcPresentPower}
use libiso.AcDer.{
  AcDerControlConfig, AcDerControlContext, AcDerControlFailureReason, AcDerControlProvider,
  has_required_ac_der_control_functions,
}
use libiso.AcDer.Validation.{validate_ac_der_control_config}
use libiso.AcDer.Defaults.{
  make_default_ac_der_control_config, make_required_ac_der_control_functions,
}
use libiso.AcDer.Snapshots.{
  AcDerSeccControlSnapshots, make_default_ac_der_secc_control_snapshots,
  validate_ac_der_secc_control_snapshots,
}
use libiso.AcDer.Provider.{
  make_static_ac_der_control_provider, make_secc_ac_der_control_provider, config_of,
  supports_selected_controls,
}
use libiso.AcDer.Laws.{make_secc_ac_der_control_provider-granted}
use libiso.Context.{Env}
use libiso.States.AcDiscovery.{handle_request_with_diagnostics}
use libiso.States.AcDiscovery.Laws.{handle_request_with_diagnostics-IsGranted}
use libiso.States.DerControl.{check_der}
use libiso.States.DerControl.Laws.{IsGranted}
use libiso.Examples.Data.{here, own_header, own_session, zero_volt, ac_limits}

abbrev bits_of : RationalNumber → Float
bits_of r = r.value

abbrev of_bits : Float → RationalNumber
of_bits f = record { value = f; exponent = 0 }

abbrev controls : DerControlFunctions
unfolding make_required_ac_der_control_functions
controls = make_required_ac_der_control_functions

abbrev snapshots : AcDerSeccControlSnapshots
unfolding make_default_ac_der_secc_control_snapshots
snapshots = make_default_ac_der_secc_control_snapshots

abbrev selection : AcDerControlContext
selection = record {
  selected_energy_service = some ServiceCategory.ac_der;
  selected_control_mode = some ControlMode.dynamic;
  selected_mobility_needs_mode = some MobilityNeedsMode.provided_by_evcc;
  selected_der_control_functions = some controls;
}

abbrev derived : AcDerControlConfig
unfolding config_of
derived = config_of bits_of of_bits snapshots

make_secc_ac_der_control_provider-granted_example :
    (selects selection.selected_energy_service ServiceCategory.ac_der ≡ true)
    × (is_dynamic selection.selected_control_mode ≡ true)
    × (is_provided_by_evcc selection.selected_mobility_needs_mode ≡ true)
    × (validate_ac_der_secc_control_snapshots bits_of snapshots
        ≡ AcDerControlFailureReason.no_failure)
    × (supports_selected_controls controls snapshots.evse_capability.supported_control_functions
        ≡ true)
    × (validate_ac_der_control_config bits_of derived controls ≡ true)
unfolding make_secc_ac_der_control_provider derived snapshots controls
make_secc_ac_der_control_provider-granted_example =
    make_secc_ac_der_control_provider-granted bits_of of_bits snapshots selection controls
      {config = derived} refl refl

abbrev der_env : Env
der_env = record here { from_rational = bits_of; from_float = of_bits }

abbrev der_session : Session
unfolding controls
der_session = record own_session {
  selected_services = record nothing_selected {
    selected_energy_service = some ServiceCategory.ac_der;
    selected_control_mode = some ControlMode.dynamic;
    selected_der_control_functions = some controls;
  };
}

abbrev mode : DerAcCpdReqEnergyTransferMode
mode = record {
  bpt = record {
    base = record {
      max_charge_power = zero_volt;
      max_charge_power_l2 = none;
      max_charge_power_l3 = none;
      min_charge_power = zero_volt;
      min_charge_power_l2 = none;
      min_charge_power_l3 = none;
    };
    max_discharge_power = zero_volt;
    max_discharge_power_l2 = none;
    max_discharge_power_l3 = none;
    min_discharge_power = zero_volt;
    min_discharge_power_l2 = none;
    min_discharge_power_l3 = none;
  };
  processing = Processing.finished;
  session_total_discharge_energy_available = none;
  reactive_power_limits = none;
}

abbrev request : AcChargeParameterDiscoveryRequest
request = record { header = own_header; transfer_mode = AcReqTransferMode.der mode }

abbrev no_power : AcPresentPower
no_power = record {
  present_active_power = none;
  present_active_power_l2 = none;
  present_active_power_l3 = none;
}

abbrev fixed : AcDerControlProvider
unfolding make_static_ac_der_control_provider make_default_ac_der_control_config
fixed = make_static_ac_der_control_provider (make_default_ac_der_control_config of_bits)

handle_request_with_diagnostics-IsGranted_example :
    (bytes_eq der_session.id request.header.session_id ≡ true)
    × (controls : DerControlFunctions) × (config : AcDerControlConfig) × IsGranted bits_of fixed
        der_session.selected_services
        (selects der_session.selected_services.selected_energy_service ServiceCategory.ac_der)
        controls
        config
    × (out : DerAcCpdResEnergyTransferMode) × ((handle_request_with_diagnostics der_env request
          der_session ac_limits no_power fixed).response.transfer_mode
        ≡ AcResTransferMode.der out)
    × (out.der_control ≡ config.cpd_control)
    × (out.max_charge_power ≡ ac_limits.charge_power.max)
    × (out.min_charge_power ≡ ac_limits.charge_power.min)
unfolding handle_request_with_diagnostics fixed der_session controls check_der
    validate_ac_der_control_config has_required_ac_der_control_functions
handle_request_with_diagnostics-IsGranted_example =
    handle_request_with_diagnostics-IsGranted der_env request der_session ac_limits no_power fixed
      mode refl refl
