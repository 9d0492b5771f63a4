-- ===== src/Session/Services.antt =====
-- The lookups and selections of src/iso15118/d20/session.cpp. A parameter set id is a 16-bit
-- pattern: `find` on a map with keys of uint8_t narrows it, and a custom VAS compares it as an
-- int16_t. Logging is left out.
use libiso.Prelude.{
  ℕ, Bool, false, Option, none, some, List, [], ◌∷◌, ◌++◌, ◌==◌, ◌||◌, ◌%◌, ◌-◌, ltb, if◌then◌else◌,
  has_value,
}
use libiso.Message.{ServiceCategory}
use libiso.Session.{
  AcParameterList, AcBptParameterList, AcDerParameterList, DcParameterList, DcBptParameterList,
  McsParameterList, McsBptParameterList, InternetParameterList, ParkingParameterList, find,
  Connector, SelectedServiceParameters, SelectedVasParameter, Session, select, with_bpt,
}

-- `std::map<uint8_t, _>::find` at an id of 16 bits.
abbrev pub find_narrowed {ℓ} : {A : Type ℓ} → List (ℕ × A) → ℕ → Option A
find_narrowed m id = find m (id % 256)

unfoldable pub find_energy_parameter_set_id : Session → ServiceCategory → ℕ → Bool
unfolding find
find_energy_parameter_set_id s ServiceCategory.ac id =
    has_value (find_narrowed s.offered_services.ac_parameter_list id)
find_energy_parameter_set_id s ServiceCategory.ac_bpt id =
    has_value (find_narrowed s.offered_services.ac_bpt_parameter_list id)
find_energy_parameter_set_id s ServiceCategory.ac_der id =
    has_value (find_narrowed s.offered_services.ac_der_parameter_list id)
find_energy_parameter_set_id s ServiceCategory.dc id =
    has_value (find_narrowed s.offered_services.dc_parameter_list id)
find_energy_parameter_set_id s ServiceCategory.dc_bpt id =
    has_value (find_narrowed s.offered_services.dc_bpt_parameter_list id)
find_energy_parameter_set_id s ServiceCategory.mcs id =
    has_value (find_narrowed s.offered_services.mcs_parameter_list id)
find_energy_parameter_set_id s ServiceCategory.mcs_bpt id =
    has_value (find_narrowed s.offered_services.mcs_bpt_parameter_list id)
find_energy_parameter_set_id s _ id = false

-- What both sides of a comparison are promoted to.
pub data ℤ : Type 0 where
  pos negsuc : ℕ → ℤ

-- A uint16_t that is passed as an int16_t: from 2 ^ 15 on it is negative, `negsuc n` is -(n + 1).
abbrev pub as_int16 : ℕ → ℤ
as_int16 id = if ltb id 32768 then ℤ.pos id else ℤ.negsuc (65535 - id)

abbrev pub int_eq : ℤ → ℤ → Bool
int_eq (ℤ.pos m) (ℤ.pos n) = m == n
int_eq (ℤ.negsuc m) (ℤ.negsuc n) = m == n
int_eq _ _ = false

-- The loop over the offered ids.
unfoldable pub contains_id : List ℕ → ℤ → Bool
contains_id [] id = false
contains_id (offered ∷ ids) id = int_eq (ℤ.pos offered) id || contains_id ids id

abbrev any_id : Option (List ℕ) → ℤ → Bool
unfolding contains_id
any_id none id = false
any_id (some ids) id = contains_id ids id

-- 65 and 66 are `ServiceCategory::Internet` and `ServiceCategory::ParkingStatus`.
unfoldable pub find_vas_parameter_set_id : Session → ℕ → ℕ → Bool
unfolding find contains_id
find_vas_parameter_set_id s vas_service id =
    if vas_service == 65
    then has_value (find_narrowed s.offered_services.internet_parameter_list id)
    else if vas_service == 66
    then has_value (find_narrowed s.offered_services.parking_parameter_list id)
    else any_id (find s.offered_services.custom_vas_list vas_service) (as_int16 id)

-- `to_float` is the conversion of a uint32_t to a float.
module _ (to_float : ℕ → ℕ) where
  abbrev pub ac_parameters : AcParameterList → SelectedServiceParameters
  ac_parameters p =
      record (select ServiceCategory.ac (Connector.ac p.connector) p.control_mode
        p.mobility_needs_mode p.pricing) {
          evse_nominal_voltage = some (to_float p.evse_nominal_voltage);
        }

  abbrev pub ac_bpt_parameters : AcBptParameterList → SelectedServiceParameters
  ac_bpt_parameters p =
      record (with_bpt
        (select ServiceCategory.ac_bpt (Connector.ac p.connector) p.control_mode
          p.mobility_needs_mode p.pricing)
        p.bpt_channel p.generator_mode) {
          evse_nominal_voltage = some (to_float p.evse_nominal_voltage);
          selected_grid_code_method = some p.grid_code_detection_method;
        }

  abbrev pub ac_der_parameters : AcDerParameterList → SelectedServiceParameters
  ac_der_parameters p =
      record (with_bpt
        (select ServiceCategory.ac_der (Connector.ac p.connector) p.control_mode
          p.mobility_needs_mode p.pricing)
        p.bpt_channel p.generator_mode) {
          evse_nominal_voltage = some (to_float p.evse_nominal_voltage);
          selected_grid_code_method = some p.grid_code_detection_method;
          selected_der_control_functions = some p.control_functions;
        }

abbrev pub dc_parameters : DcParameterList → SelectedServiceParameters
dc_parameters p =
    select ServiceCategory.dc (Connector.dc p.connector) p.control_mode p.mobility_needs_mode
      p.pricing

abbrev pub dc_bpt_parameters : DcBptParameterList → SelectedServiceParameters
dc_bpt_parameters p =
    with_bpt
      (select ServiceCategory.dc_bpt (Connector.dc p.connector) p.control_mode p.mobility_needs_mode
        p.pricing)
      p.bpt_channel p.generator_mode

abbrev pub mcs_parameters : McsParameterList → SelectedServiceParameters
mcs_parameters p =
    select ServiceCategory.mcs (Connector.mcs p.connector) p.control_mode p.mobility_needs_mode
      p.pricing

abbrev pub mcs_bpt_parameters : McsBptParameterList → SelectedServiceParameters
mcs_bpt_parameters p =
    with_bpt
      (select ServiceCategory.mcs_bpt (Connector.mcs p.connector) p.control_mode
        p.mobility_needs_mode p.pricing)
      p.bpt_channel p.generator_mode

-- The selection that an offered list makes; `old` stays where the id is missing.
abbrev pub chosen {ℓ} :
    {A : Type ℓ}
    → Option A
    → (A → SelectedServiceParameters)
    → SelectedServiceParameters
    → SelectedServiceParameters
chosen none f old = old
chosen (some p) f old = f p

-- The switch of `selected_service_parameters`.
abbrev pub parameters_of : (ℕ → ℕ) → Session → ServiceCategory → ℕ → SelectedServiceParameters
unfolding find
parameters_of to_float s ServiceCategory.ac id =
    chosen (find_narrowed s.offered_services.ac_parameter_list id) (ac_parameters to_float)
      s.selected_services
parameters_of to_float s ServiceCategory.ac_bpt id =
    chosen (find_narrowed s.offered_services.ac_bpt_parameter_list id) (ac_bpt_parameters to_float)
      s.selected_services
parameters_of to_float s ServiceCategory.ac_der id =
    chosen (find_narrowed s.offered_services.ac_der_parameter_list id) (ac_der_parameters to_float)
      s.selected_services
parameters_of to_float s ServiceCategory.dc id =
    chosen (find_narrowed s.offered_services.dc_parameter_list id) dc_parameters s.selected_services
parameters_of to_float s ServiceCategory.dc_bpt id =
    chosen (find_narrowed s.offered_services.dc_bpt_parameter_list id) dc_bpt_parameters
      s.selected_services
parameters_of to_float s ServiceCategory.mcs id =
    chosen (find_narrowed s.offered_services.mcs_parameter_list id) mcs_parameters
      s.selected_services
parameters_of to_float s ServiceCategory.mcs_bpt id =
    chosen (find_narrowed s.offered_services.mcs_bpt_parameter_list id) mcs_bpt_parameters
      s.selected_services
parameters_of to_float s _ id = s.selected_services

-- `selected_service_parameters(ServiceCategory, uint16_t)`.
unfoldable pub select_energy_service : (ℕ → ℕ) → Session → ServiceCategory → ℕ → Session
unfolding find_energy_parameter_set_id find
select_energy_service to_float s service id =
    if find_energy_parameter_set_id s service id
    then record s { selected_services = parameters_of to_float s service id }
    else s

abbrev add_internet : SelectedVasParameter → Option InternetParameterList → SelectedVasParameter
add_internet v none = v
add_internet v (some p) = record v {
  vas_services = v.vas_services ++ ServiceCategory.internet ∷ [];
  internet_port = p.port;
  internet_protocol = some p.protocol;
}

abbrev add_parking : SelectedVasParameter → Option ParkingParameterList → SelectedVasParameter
add_parking v none = v
add_parking v (some p) = record v {
  vas_services = v.vas_services ++ ServiceCategory.parking_status ∷ [];
  parking_intended_service = some p.intended_service;
  parking_status = some p.parking_status;
}

-- `selected_service_parameters(uint16_t, uint16_t)`.
unfoldable pub select_vas_service : Session → ℕ → ℕ → Session
unfolding find
select_vas_service s vas_service id =
    if vas_service == 65
    then record s {
      selected_vas_services =
          add_internet s.selected_vas_services
            (find_narrowed s.offered_services.internet_parameter_list id);
    }
    else if vas_service == 66
    then record s {
      selected_vas_services =
          add_parking s.selected_vas_services
            (find_narrowed s.offered_services.parking_parameter_list id);
    }
    else s
