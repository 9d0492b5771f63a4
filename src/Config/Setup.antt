-- ===== src/Config/Setup.antt =====
-- src/iso15118/d20/config.cpp: the configuration of a session from that of the charger. A setup without
-- a provider of AC DER control gets one for its fixed configuration. Log lines are left out.
use Prim.Native.String.{String}
use libiso.Prelude.{ℕ, Bool, Option, none, some, List, [], ◌∷◌, ◌++◌}
use mathlib.Core.Option.{get_or}
use libiso.Floats.{Float}
use libiso.Message.{
  Authorization, ServiceCategory, AcConnector, DcConnector, McsConnector, ControlMode,
  MobilityNeedsMode, Pricing, BptChannel, GeneratorMode, GridCodeIslandingDetectionMethod,
  RationalNumber,
}
use libiso.Session.{
  AcParameterList, AcBptParameterList, AcDerParameterList, DcParameterList, DcBptParameterList,
  McsParameterList, McsBptParameterList,
}
use libiso.AcDer.{AcDerControlConfig, AcDerControlProvider}
use libiso.AcDer.Defaults.{
  make_default_ac_der_control_config, make_required_ac_der_control_functions,
}
use libiso.AcDer.Provider.{make_static_ac_der_control_provider}
use libiso.Config.{DcTransferLimits, AcTransferLimits, ControlMobilityNeedsModes, SessionConfig}

pub record AcSetupConfig : Type 0 where
  pub voltage : ℕ  -- uint32_t
  pub connectors : List AcConnector

pub record BptSetupConfig : Type 0 where
  pub bpt_channel : BptChannel
  pub generator_mode : GeneratorMode
  pub grid_code_detection_method : Option GridCodeIslandingDetectionMethod

pub record EvseSetupConfig : Type 0 where
  pub evse_id : String
  pub supported_energy_services : List ServiceCategory
  pub authorization_services : List Authorization
  pub supported_vas_services : List ℕ  -- uint16_t
  pub enable_certificate_install_service : Bool
  pub dc_limits : DcTransferLimits
  pub ac_limits : AcTransferLimits
  pub control_mobility_modes : List ControlMobilityNeedsModes
  pub custom_protocol : Option String
  pub ac_setup_config : Option AcSetupConfig
  pub bpt_setup_config : Option BptSetupConfig
  pub powersupply_limits : DcTransferLimits
  pub ac_der_control_config : Option AcDerControlConfig
  pub ac_der_control_provider : Option AcDerControlProvider

-- In scheduled mode only the EV provides the mobility needs.
unfoldable pub get_mobility_needs_mode : ControlMobilityNeedsModes → MobilityNeedsMode
get_mobility_needs_mode m = elim m.control_mode [
  | ControlMode.scheduled ↦ MobilityNeedsMode.provided_by_evcc
  | ControlMode.dynamic ↦ m.mobility_mode
]

-- The parameters for a mode and a connector, in each of the lists below.
abbrev ac_parameters : ControlMobilityNeedsModes → AcSetupConfig → AcConnector → AcParameterList
unfolding get_mobility_needs_mode
ac_parameters m setup connector = record {
  connector = connector;
  control_mode = m.control_mode;
  mobility_needs_mode = get_mobility_needs_mode m;
  evse_nominal_voltage = setup.voltage;
  pricing = Pricing.no_pricing;
}

abbrev ac_bpt_parameters : BptSetupConfig → AcParameterList → AcBptParameterList
ac_bpt_parameters bpt p = record {
  base = p;
  bpt_channel = bpt.bpt_channel;
  generator_mode = bpt.generator_mode;
  grid_code_detection_method =
      get_or bpt.grid_code_detection_method GridCodeIslandingDetectionMethod.passive;
}

-- The two loops: over the modes and, in each, over the connectors.
abbrev for_connectors :
    ControlMobilityNeedsModes → AcSetupConfig → List AcConnector → List AcParameterList
unfolding get_mobility_needs_mode
for_connectors m setup [] = []
for_connectors m setup (c ∷ cs) = ac_parameters m setup c ∷ for_connectors m setup cs

unfoldable pub get_default_ac_parameter_list :
    List ControlMobilityNeedsModes → AcSetupConfig → List AcParameterList
unfolding get_mobility_needs_mode
get_default_ac_parameter_list [] setup = []
get_default_ac_parameter_list (m ∷ ms) setup =
    for_connectors m setup setup.connectors ++ get_default_ac_parameter_list ms setup

abbrev map_bpt : BptSetupConfig → List AcParameterList → List AcBptParameterList
map_bpt bpt [] = []
map_bpt bpt (p ∷ ps) = ac_bpt_parameters bpt p ∷ map_bpt bpt ps

unfoldable pub get_default_ac_bpt_parameter_list :
    List ControlMobilityNeedsModes → AcSetupConfig → BptSetupConfig → List AcBptParameterList
unfolding get_default_ac_parameter_list
get_default_ac_bpt_parameter_list modes setup bpt =
    map_bpt bpt (get_default_ac_parameter_list modes setup)

abbrev map_der : List AcBptParameterList → List AcDerParameterList
unfolding make_required_ac_der_control_functions
map_der [] = []
map_der (p ∷ ps) =
    (record { bpt = p; control_functions = make_required_ac_der_control_functions }) ∷ map_der ps

-- The control functions are all set, as in `make_required_ac_der_control_functions`.
unfoldable pub get_default_ac_der_parameter_list :
    List ControlMobilityNeedsModes → AcSetupConfig → BptSetupConfig → List AcDerParameterList
unfolding get_default_ac_bpt_parameter_list make_required_ac_der_control_functions
get_default_ac_der_parameter_list modes setup bpt =
    map_der (get_default_ac_bpt_parameter_list modes setup bpt)

unfoldable pub get_default_dc_parameter_list : List ControlMobilityNeedsModes → List DcParameterList
unfolding get_mobility_needs_mode
get_default_dc_parameter_list [] = []
get_default_dc_parameter_list (m ∷ ms) =
    (record {
      connector = DcConnector.extended;
      control_mode = m.control_mode;
      mobility_needs_mode = get_mobility_needs_mode m;
      pricing = Pricing.no_pricing;
    })
    ∷ get_default_dc_parameter_list ms

abbrev map_dc_bpt : BptSetupConfig → List DcParameterList → List DcBptParameterList
map_dc_bpt bpt [] = []
map_dc_bpt bpt (p ∷ ps) =
    (record { base = p; bpt_channel = bpt.bpt_channel; generator_mode = bpt.generator_mode })
    ∷ map_dc_bpt bpt ps

unfoldable pub get_default_dc_bpt_parameter_list :
    List ControlMobilityNeedsModes → BptSetupConfig → List DcBptParameterList
unfolding get_default_dc_parameter_list
get_default_dc_bpt_parameter_list modes bpt = map_dc_bpt bpt (get_default_dc_parameter_list modes)

unfoldable pub get_default_mcs_parameter_list :
    List ControlMobilityNeedsModes → List McsParameterList
unfolding get_mobility_needs_mode
get_default_mcs_parameter_list [] = []
get_default_mcs_parameter_list (m ∷ ms) =
    (record {
      connector = McsConnector.mcs;
      control_mode = m.control_mode;
      mobility_needs_mode = get_mobility_needs_mode m;
      pricing = Pricing.no_pricing;
    })
    ∷ get_default_mcs_parameter_list ms

abbrev map_mcs_bpt : BptSetupConfig → List McsParameterList → List McsBptParameterList
map_mcs_bpt bpt [] = []
map_mcs_bpt bpt (p ∷ ps) =
    (record { base = p; bpt_channel = bpt.bpt_channel; generator_mode = bpt.generator_mode })
    ∷ map_mcs_bpt bpt ps

unfoldable pub get_default_mcs_bpt_parameter_list :
    List ControlMobilityNeedsModes → BptSetupConfig → List McsBptParameterList
unfolding get_default_mcs_parameter_list
get_default_mcs_bpt_parameter_list modes bpt =
    map_mcs_bpt bpt (get_default_mcs_parameter_list modes)

-- Scheduled mode if no control modes were provided.
abbrev pub modes_or_scheduled : List ControlMobilityNeedsModes → List ControlMobilityNeedsModes
modes_or_scheduled [] =
    (record {
      control_mode = ControlMode.scheduled;
      mobility_mode = MobilityNeedsMode.provided_by_evcc;
    })
    ∷ []
modes_or_scheduled (m ∷ ms) = m ∷ ms

abbrev default_ac_setup : AcSetupConfig
default_ac_setup = record { voltage = 230; connectors = AcConnector.single_phase ∷ [] }

abbrev default_bpt_setup : Option GridCodeIslandingDetectionMethod → BptSetupConfig
default_bpt_setup method = record {
  bpt_channel = BptChannel.unified;
  generator_mode = GeneratorMode.grid_following;
  grid_code_detection_method = method;
}

-- `SessionConfig(EvseSetupConfig)`.
unfoldable pub session_config : (Float → RationalNumber) → EvseSetupConfig → SessionConfig
unfolding get_default_ac_parameter_list get_default_ac_bpt_parameter_list
    get_default_ac_der_parameter_list get_default_dc_parameter_list
    get_default_dc_bpt_parameter_list get_default_mcs_parameter_list
    get_default_mcs_bpt_parameter_list make_default_ac_der_control_config
    make_static_ac_der_control_provider
session_config from_float setup =
    let modes = modes_or_scheduled setup.control_mobility_modes in
    let ac_setup = get_or setup.ac_setup_config default_ac_setup in
    let ac_bpt =
      get_or setup.bpt_setup_config
        (default_bpt_setup (some GridCodeIslandingDetectionMethod.passive)) in
    let dc_bpt = get_or setup.bpt_setup_config (default_bpt_setup none) in
    let der = get_or setup.ac_der_control_config (make_default_ac_der_control_config from_float) in
    record {
      evse_id = setup.evse_id;
      cert_install_service = setup.enable_certificate_install_service;
      authorization_services = setup.authorization_services;
      supported_energy_transfer_services = setup.supported_energy_services;
      supported_vas_services = setup.supported_vas_services;
      ac_parameter_list = get_default_ac_parameter_list modes ac_setup;
      ac_bpt_parameter_list = get_default_ac_bpt_parameter_list modes ac_setup ac_bpt;
      ac_der_parameter_list = get_default_ac_der_parameter_list modes ac_setup ac_bpt;
      dc_parameter_list = get_default_dc_parameter_list modes;
      dc_bpt_parameter_list = get_default_dc_bpt_parameter_list modes dc_bpt;
      mcs_parameter_list = get_default_mcs_parameter_list modes;
      mcs_bpt_parameter_list = get_default_mcs_bpt_parameter_list modes dc_bpt;
      internet_parameter_list = [];
      parking_parameter_list = [];
      dc_limits = setup.dc_limits;
      ac_limits = setup.ac_limits;
      ac_der_control_config = der;
      ac_der_control_provider =
          get_or setup.ac_der_control_provider (make_static_ac_der_control_provider der);
      powersupply_limits = setup.powersupply_limits;
      supported_control_mobility_modes = modes;
      custom_protocol = setup.custom_protocol;
    }
