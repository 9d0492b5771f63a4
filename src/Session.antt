-- ===== src/Session.antt =====
-- include/iso15118/d20/session.hpp and src/iso15118/d20/session.cpp: what the charger has offered
-- to the EV and what the EV has selected. A `std::map` is a list of its entries; an enumeration
-- that a value-initialised struct holds as 0, which no enumerator has, is `none`.
pub mod Services
pub mod Selection
pub mod Modes
use libiso.Prelude.{
  ℕ, Bool, true, false, Option, none, some, List, [], ◌∷◌, ◌++◌, ◌==◌, ◌||◌, ◌&&◌, ◌%◌, ltb,
  if◌then◌else◌, contains, has_value,
}
use libiso.Message.{
  SessionId, Authorization, ServiceCategory, AcConnector, DcConnector, McsConnector, ControlMode,
  MobilityNeedsMode, Pricing, BptChannel, GeneratorMode, GridCodeIslandingDetectionMethod,
  DerControlFunctions, Protocol, Port, IntendedService, ParkingStatus,
}

-- The parameter lists of common_types.hpp; a derived struct opens its base.
pub record AcParameterList : Type 0 where
  pub connector : AcConnector
  pub control_mode : ControlMode
  pub mobility_needs_mode : MobilityNeedsMode
  pub evse_nominal_voltage : ℕ  -- uint32_t
  pub pricing : Pricing

pub record AcBptParameterList : Type 0 where
  pub base : AcParameterList
  pub open base use *
  pub bpt_channel : BptChannel
  pub generator_mode : GeneratorMode
  pub grid_code_detection_method : GridCodeIslandingDetectionMethod

pub record AcDerParameterList : Type 0 where
  pub bpt : AcBptParameterList
  pub open bpt use *
  pub control_functions : DerControlFunctions

pub record DcParameterList : Type 0 where
  pub connector : DcConnector
  pub control_mode : ControlMode
  pub mobility_needs_mode : MobilityNeedsMode
  pub pricing : Pricing

pub record DcBptParameterList : Type 0 where
  pub base : DcParameterList
  pub open base use *
  pub bpt_channel : BptChannel
  pub generator_mode : GeneratorMode

pub record McsParameterList : Type 0 where
  pub connector : McsConnector
  pub control_mode : ControlMode
  pub mobility_needs_mode : MobilityNeedsMode
  pub pricing : Pricing

pub record McsBptParameterList : Type 0 where
  pub base : McsParameterList
  pub open base use *
  pub bpt_channel : BptChannel
  pub generator_mode : GeneratorMode

pub record InternetParameterList : Type 0 where
  pub protocol : Protocol
  pub port : Option Port

pub record ParkingParameterList : Type 0 where
  pub intended_service : IntendedService
  pub parking_status : ParkingStatus

-- `std::map::find` and `at`: the value at a key.
unfoldable pub find {ℓ} : {A : Type ℓ} → List (ℕ × A) → ℕ → Option A
find [] k = none
find ((j, a) ∷ m) k = if j == k then some a else find m k

-- `std::map::operator[]`, assigned to: the value at a key is replaced, or a new entry is made.
unfoldable pub put {ℓ} : {A : Type ℓ} → ℕ → A → List (ℕ × A) → List (ℕ × A)
put k a [] = (k, a) ∷ []
put k a ((j, b) ∷ m) = if j == k then (k, a) ∷ m else (j, b) ∷ put k a m

pub record OfferedServices : Type 0 where
  pub auth_services : List Authorization
  pub energy_services : List ServiceCategory
  pub vas_services : List ℕ  -- uint16_t
  pub ac_parameter_list : List (ℕ × AcParameterList)  -- keys of uint8_t, here and below
  pub ac_bpt_parameter_list : List (ℕ × AcBptParameterList)
  pub ac_der_parameter_list : List (ℕ × AcDerParameterList)
  pub dc_parameter_list : List (ℕ × DcParameterList)
  pub dc_bpt_parameter_list : List (ℕ × DcBptParameterList)
  pub mcs_parameter_list : List (ℕ × McsParameterList)
  pub mcs_bpt_parameter_list : List (ℕ × McsBptParameterList)
  pub internet_parameter_list : List (ℕ × InternetParameterList)
  pub parking_parameter_list : List (ℕ × ParkingParameterList)
  pub custom_vas_list : List (ℕ × List ℕ)  -- keys and values of uint16_t

abbrev pub no_offers : OfferedServices
no_offers = record {
  auth_services = [];
  energy_services = [];
  vas_services = [];
  ac_parameter_list = [];
  ac_bpt_parameter_list = [];
  ac_der_parameter_list = [];
  dc_parameter_list = [];
  dc_bpt_parameter_list = [];
  mcs_parameter_list = [];
  mcs_bpt_parameter_list = [];
  internet_parameter_list = [];
  parking_parameter_list = [];
  custom_vas_list = [];
}

pub data Connector : Type 0 where
  ac : AcConnector → Connector
  dc : DcConnector → Connector
  mcs : McsConnector → Connector

pub record SelectedServiceParameters : Type 0 where
  pub selected_energy_service : Option ServiceCategory
  pub selected_connector : Option Connector
  pub selected_control_mode : Option ControlMode
  pub selected_mobility_needs_mode : Option MobilityNeedsMode
  pub selected_pricing : Pricing
  pub selected_bpt_channel : Option BptChannel
  pub selected_generator_mode : Option GeneratorMode
  pub selected_der_control_functions : Option DerControlFunctions
  pub evse_nominal_voltage : Option ℕ  -- float, as its pattern below 2 ^ 32
  pub selected_grid_code_method : Option GridCodeIslandingDetectionMethod

abbrev pub nothing_selected : SelectedServiceParameters
nothing_selected = record {
  selected_energy_service = none;
  selected_connector = none;
  selected_control_mode = none;
  selected_mobility_needs_mode = none;
  selected_pricing = Pricing.no_pricing;
  selected_bpt_channel = none;
  selected_generator_mode = none;
  selected_der_control_functions = none;
  evse_nominal_voltage = none;
  selected_grid_code_method = none;
}

-- The canonical constructor.
abbrev pub select :
    ServiceCategory
    → Connector
    → ControlMode
    → MobilityNeedsMode
    → Pricing
    → SelectedServiceParameters
select s c m n p = record nothing_selected {
  selected_energy_service = some s;
  selected_connector = some c;
  selected_control_mode = some m;
  selected_mobility_needs_mode = some n;
  selected_pricing = p;
}

-- The two fields that every bidirectional constructor sets.
abbrev pub with_bpt :
    SelectedServiceParameters → BptChannel → GeneratorMode → SelectedServiceParameters
with_bpt s c g = record s { selected_bpt_channel = some c; selected_generator_mode = some g }

pub record SelectedVasParameter : Type 0 where
  pub vas_services : List ServiceCategory
  pub internet_protocol : Option Protocol
  pub internet_port : Option Port
  pub parking_intended_service : Option IntendedService
  pub parking_status : Option ParkingStatus

abbrev pub no_vas_selected : SelectedVasParameter
no_vas_selected = record {
  vas_services = [];
  internet_protocol = none;
  internet_port = none;
  parking_intended_service = none;
  parking_status = none;
}

pub record PauseContext : Type 0 where
  pub vehicle_cert_session_id_hash : List ℕ  -- 64 bytes
  pub old_session_id : SessionId
  pub selected_service_parameters : SelectedServiceParameters

pub record Session : Type 0 where
  pub id : SessionId
  pub offered_services : OfferedServices
  pub service_renegotiation_supported : Bool
  pub selected_services : SelectedServiceParameters
  pub selected_vas_services : SelectedVasParameter

-- `Session()`, over the identifier that `generate_session_id` draws.
unfoldable pub new_session : SessionId → Session
new_session id = record {
  id = id;
  offered_services = no_offers;
  service_renegotiation_supported = false;
  selected_services = nothing_selected;
  selected_vas_services = no_vas_selected;
}

-- `Session(const PauseContext&)`.
unfoldable pub resumed_session : PauseContext → Session
unfolding new_session
resumed_session p = record (new_session p.old_session_id) {
  selected_services = p.selected_service_parameters;
}

abbrev is_ac : ServiceCategory → Bool
is_ac ServiceCategory.ac = true
is_ac ServiceCategory.ac_bpt = true
is_ac ServiceCategory.ac_der = true
is_ac _ = false

abbrev is_dc : ServiceCategory → Bool
is_dc ServiceCategory.dc = true
is_dc ServiceCategory.dc_bpt = true
is_dc ServiceCategory.mcs = true
is_dc ServiceCategory.mcs_bpt = true
is_dc _ = false

abbrev any_service : (ServiceCategory → Bool) → Option ServiceCategory → Bool
any_service p none = false
any_service p (some s) = p s

abbrev pub is_ac_charger : Session → Bool
is_ac_charger s = any_service is_ac s.selected_services.selected_energy_service

abbrev pub is_dc_charger : Session → Bool
is_dc_charger s = any_service is_dc s.selected_services.selected_energy_service
