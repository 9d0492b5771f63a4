-- ===== src/Examples/Charging.antt =====
-- The selection of a service, its schedule and a request of its charge loop.
use libiso.Prelude.{◌≡◌, refl, true, false, none, some, List, [], ◌∷◌, map, contains, bytes_eq}
use libiso.Message.{
  ServiceCategory, DcConnector, ControlMode, MobilityNeedsMode, Pricing, service_id,
  ServiceSelectionRequest, VasSelectedService, ScheduleExchangeRequest, ScheduleReqControlMode,
  ScheduledClReqControlMode, DcReqControlMode, DcChargeLoopRequest, AcReqControlMode,
  AcChargeLoopRequest,
}
use libiso.Session.{Session, DcParameterList, nothing_selected}
use libiso.Session.Services.{find_energy_parameter_set_id, select_energy_service}
use libiso.Config.{SessionConfig}
use libiso.States.ServiceSelection.{select_vas, vas_list_found}
use libiso.States.ServiceSelection as ServiceSelection
use libiso.States.ServiceSelection.Laws.{all_found, select_vas_found, handle_request_ok}
use libiso.States.ScheduleExchange as ScheduleExchange
use libiso.States.ScheduleExchange.Laws.{IsAgreed, handle_request-IsAgreed}
use libiso.States.DynamicMode.{no_parameters}
use libiso.States.DcChargeLoop as DcChargeLoop
use libiso.States.DcChargeLoop.Laws as DcLaws
use libiso.States.AcChargeLoop as AcChargeLoop
use libiso.States.AcChargeLoop.Modes.{control_mode_for}
use libiso.States.AcChargeLoop.Laws as AcLaws
use libiso.Examples.Data.{
  here, own_header, own_session, zero_volt, config, dc_limits, ac_limits, own_context,
}

abbrev parameters : DcParameterList
parameters = record {
  connector = DcConnector.extended;
  control_mode = ControlMode.scheduled;
  mobility_needs_mode = MobilityNeedsMode.provided_by_evcc;
  pricing = Pricing.no_pricing;
}

abbrev dc_config : SessionConfig
dc_config = record config { dc_parameter_list = parameters ∷ [] }

abbrev offering : Session
offering =
    let offers = own_session.offered_services in
    record own_session {
      offered_services = record offers {
        energy_services = ServiceCategory.dc ∷ [];
        vas_services = 100 ∷ [];
        dc_parameter_list = (0, parameters) ∷ [];
      };
    }

abbrev vas : List VasSelectedService
vas = (record { service_id = 100; parameter_set_id = 5 }) ∷ []

abbrev selection : ServiceSelectionRequest
selection = record {
  header = own_header;
  selected_energy_transfer_service = record {
    service_id = ServiceCategory.dc;
    parameter_set_id = 0;
  };
  selected_vas_list = some vas;
}

select_vas_found_example : (select_vas vas offering).0 ≡ all_found offering vas
select_vas_found_example = select_vas_found vas offering

abbrev selected : Session
unfolding ServiceSelection.handle_request
selected = (ServiceSelection.handle_request here selection offering).session

handle_request_ok_example :
    (bytes_eq offering.id selection.header.session_id ≡ true)
    × (contains (map service_id offering.offered_services.energy_services) 2 ≡ true)
    × (find_energy_parameter_set_id offering ServiceCategory.dc 0 ≡ true)
    × (vas_list_found offering.offered_services.vas_services selection.selected_vas_list ≡ true)
    × (selected.selected_services.selected_energy_service ≡ some ServiceCategory.dc)
    × (selected.offered_services ≡ offering.offered_services)
    × (selected.id ≡ offering.id)
unfolding ServiceSelection.handle_request selected vas_list_found find_energy_parameter_set_id
    ServiceSelection.der_usable ServiceSelection.select_vas_list select_energy_service
handle_request_ok_example = handle_request_ok here selection offering refl

abbrev scheduled : Session
scheduled = record own_session {
  selected_services = record nothing_selected {
    selected_energy_service = some ServiceCategory.dc;
    selected_control_mode = some ControlMode.scheduled;
  };
}

abbrev schedule : ScheduleExchangeRequest
schedule = record {
  header = own_header;
  max_supporting_points = 10;
  control_mode = ScheduleReqControlMode.scheduled (record {
    departure_time = none;
    target_energy = none;
    max_energy = none;
    min_energy = none;
    energy_offer = none;
  });
}

handle_request-IsAgreed_example :
    let res =
      ScheduleExchange.handle_request here schedule scheduled zero_volt no_parameters false in
    (bytes_eq scheduled.id schedule.header.session_id ≡ true)
    × (false ≡ false)
    × IsAgreed scheduled schedule.control_mode res.control_mode
unfolding ScheduleExchange.handle_request
handle_request-IsAgreed_example =
    handle_request-IsAgreed here schedule scheduled zero_volt no_parameters false refl

abbrev no_request : ScheduledClReqControlMode
no_request = record {
  target_energy_request = none;
  max_energy_request = none;
  min_energy_request = none;
}

abbrev dc_request : DcChargeLoopRequest
dc_request = record {
  header = own_header;
  display_parameters = none;
  meter_info_requested = false;
  present_voltage = zero_volt;
  control_mode = DcReqControlMode.scheduled (record {
    common = no_request;
    target_current = zero_volt;
    target_voltage = zero_volt;
    max_charge_power = none;
    min_charge_power = none;
    max_charge_current = none;
    max_voltage = none;
    min_voltage = none;
  });
}

handle_request-is_agreed_example :
    let res =
      DcChargeLoop.handle_request here dc_request scheduled 0 0 true false dc_limits
        no_parameters in
    (bytes_eq scheduled.id dc_request.header.session_id ≡ true)
    × (DcLaws.is_agreed scheduled.selected_services dc_request.control_mode res.control_mode ≡ true)
    × (res.status
        ≡ DcLaws.asked_status true false scheduled.selected_services.selected_control_mode)
unfolding DcChargeLoop.handle_request
handle_request-is_agreed_example =
    DcLaws.handle_request-is_agreed here dc_request scheduled 0 0 true false dc_limits no_parameters
      refl

abbrev ac_scheduled : Session
ac_scheduled = record own_session {
  selected_services = record nothing_selected {
    selected_energy_service = some ServiceCategory.ac;
    selected_control_mode = some ControlMode.scheduled;
  };
}

abbrev ac_request : AcChargeLoopRequest
ac_request = record {
  header = own_header;
  display_parameters = none;
  meter_info_requested = false;
  control_mode = AcReqControlMode.scheduled (record {
    common = no_request;
    max_charge_power = none;
    max_charge_power_l2 = none;
    max_charge_power_l3 = none;
    min_charge_power = none;
    min_charge_power_l2 = none;
    min_charge_power_l3 = none;
    present_active_power = zero_volt;
    present_active_power_l2 = none;
    present_active_power_l3 = none;
    present_reactive_power = none;
    present_reactive_power_l2 = none;
    present_reactive_power_l3 = none;
  });
}

abbrev loop : AcChargeLoop.AcChargeLoop
unfolding AcChargeLoop.enter
loop = AcChargeLoop.enter own_context

handle_request_with_diagnostics-is_agreed_example :
    let res =
      (AcChargeLoop.handle_request_with_diagnostics here ac_request ac_scheduled loop ac_limits
        config.ac_der_control_provider).response in
    (bytes_eq ac_scheduled.id ac_request.header.session_id ≡ true)
    × (AcLaws.is_agreed ac_scheduled.selected_services ac_request.control_mode res.control_mode
        ≡ true)
    × (res.status
        ≡ DcLaws.asked_status loop.stop loop.pause
            ac_scheduled.selected_services.selected_control_mode)
unfolding AcChargeLoop.handle_request_with_diagnostics loop control_mode_for
handle_request_with_diagnostics-is_agreed_example =
    AcLaws.handle_request_with_diagnostics-is_agreed here ac_request ac_scheduled loop ac_limits
      config.ac_der_control_provider refl
