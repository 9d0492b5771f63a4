-- ===== src/Examples/Selections.antt =====
-- The selection of services by parameter sets.
use libiso.Prelude.{
  ℕ, List, some, ◌+◌, ◌*◌, ◌<◌, ◌≡◌, ◌⊎◌, ◌↔◌, true, false, [], ◌∷◌, ◌++◌, ◌==◌, if◌then◌else◌,
  contains, arith, inl, refl,
}
use libiso.Message.{ServiceCategory, DcConnector, ControlMode, MobilityNeedsMode, Pricing}
use libiso.Session.{Session, find, DcParameterList}
use libiso.Session.Services.{find_vas_parameter_set_id, select_energy_service, select_vas_service}
use libiso.Session.Selection.{
  select_energy_service_narrow, find_vas_parameter_set_id_custom, select_vas_service_sound,
}
use libiso.Examples.Data.{own_session}

abbrev dc_set : DcParameterList
dc_set = record {
  connector = DcConnector.extended;
  control_mode = ControlMode.dynamic;
  mobility_needs_mode = MobilityNeedsMode.provided_by_evcc;
  pricing = Pricing.no_pricing;
}

abbrev offering : Session
offering =
    let offers = own_session.offered_services in
    record own_session {
      offered_services = record offers {
        energy_services = ServiceCategory.dc ∷ [];
        dc_parameter_list = (1, dc_set) ∷ [];
      };
    }

select_energy_service_narrow_example :
    select_energy_service ((λ v. v)) offering ServiceCategory.dc (1 + 256 * 1)
    ≡ select_energy_service ((λ v. v)) offering ServiceCategory.dc 1
select_energy_service_narrow_example =
    select_energy_service_narrow (λ v. v) offering ServiceCategory.dc 1 1

find_vas_parameter_set_id_custom_example : (find_vas_parameter_set_id offering 100 5 ≡ true) ↔ (
    (ids : List ℕ) × (find offering.offered_services.custom_vas_list 100 ≡ some ids)
    × (5 < 32768)
    × (contains ids 5 ≡ true))
find_vas_parameter_set_id_custom_example =
    find_vas_parameter_set_id_custom offering 100 5 (λ h. ground arith) (λ h. ground arith)

select_vas_service_sound_example :
    ((find_vas_parameter_set_id offering 65 1 ≡ true)
      × ((select_vas_service offering 65 1).selected_vas_services.vas_services
          ≡ offering.selected_vas_services.vas_services
            ++ (if 65 == 65 then ServiceCategory.internet else ServiceCategory.parking_status)
              ∷ []))
    ⊎ ((find_vas_parameter_set_id offering 65 1 ≡ false)
        × (select_vas_service offering 65 1 ≡ offering))
select_vas_service_sound_example = select_vas_service_sound offering 65 1 (inl refl)
