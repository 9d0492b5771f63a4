-- ===== src/States/ServiceDiscovery.antt =====
-- src/iso15118/d20/state/service_discovery.cpp. The state object has no members of its own.
pub mod Laws
use libiso.Prelude.{
  ℕ, Bool, true, false, not, Option, none, some, List, [], ◌∷◌, ◌++◌, map, ◌==◌, if◌then◌else◌,
  contains,
}
use libiso.Message.{
  Header, ResponseCode, is_failed, ServiceCategory, service_id, Service, VasService,
  ServiceDiscoveryRequest, ServiceDiscoveryResponse, Message, Response,
}
use libiso.Session.{Session, no_offers}
use libiso.Context.{
  Env, Context, Event, StateId, Fed, fed, no_result, enter_state, respond, stop, with_request,
}
use libiso.Context.Header.{setup_header, validate_header}
use libiso.States.SessionStop.{reject, stop_session}

-- ParkingStatus is the default, "to show nonsense".
unfoldable pub convert_service_id : ℕ → ServiceCategory
convert_service_id id =
    if id == 1
    then ServiceCategory.ac
    else if id == 2
    then ServiceCategory.dc
    else if id == 3
    then ServiceCategory.wpt
    else if id == 4
    then ServiceCategory.dc_acdp
    else if id == 5
    then ServiceCategory.ac_bpt
    else if id == 6
    then ServiceCategory.dc_bpt
    else if id == 7
    then ServiceCategory.dc_acdp_bpt
    else if id == 8
    then ServiceCategory.mcs
    else if id == 9
    then ServiceCategory.mcs_bpt
    else if id == 10
    then ServiceCategory.ac_der
    else ServiceCategory.parking_status

-- The loops over the configured services: those that the EV has listed, in the configured order.
unfoldable pub listed_energy : List ℕ → List ServiceCategory → List ServiceCategory
listed_energy ids [] = []
listed_energy ids (s ∷ services) =
    if contains ids (service_id s)
    then s ∷ listed_energy ids services
    else listed_energy ids services

unfoldable pub listed_vas : List ℕ → List ℕ → List ℕ
listed_vas ids [] = []
listed_vas ids (v ∷ services) =
    if contains ids v then v ∷ listed_vas ids services else listed_vas ids services

-- The loop over the ids of the EV, which keeps the energy services among them.
unfoldable pub known_services : List ℕ → List ServiceCategory
unfolding convert_service_id
known_services [] = []
known_services (id ∷ ids) =
    if service_id (convert_service_id id) == 66
    then known_services ids
    else convert_service_id id ∷ known_services ids

abbrev pub offered_energy : Option (List ℕ) → List ServiceCategory → List ServiceCategory
offered_energy none services = services
offered_energy (some ids) services = listed_energy ids services

abbrev pub offered_vas : Option (List ℕ) → List ℕ → List ℕ
offered_vas none services = services
offered_vas (some ids) services = listed_vas ids services

abbrev pub ev_services : Option (List ℕ) → List ServiceCategory
ev_services none = []
ev_services (some ids) = known_services ids

abbrev pub free : ServiceCategory → Service
free s = record { service_id = s; free_service = false }

abbrev pub free_vas : ℕ → VasService
free_vas v = record { service_id = v; free_service = false }

abbrev pub vas_list_of : List ℕ → Option (List VasService)
vas_list_of [] = none
vas_list_of (v ∷ vs) = some (map free_vas (v ∷ vs))

pub record Discovery : Type 0 where
  pub res : ServiceDiscoveryResponse
  pub session : Session
  pub ev_energy_services : List ServiceCategory

-- The response, the session with its offers, and the services that the EV knows.
unfoldable pub handle_request :
    Env
    → ServiceDiscoveryRequest
    → Session
    → List ServiceCategory
    → List ℕ
    → List ServiceCategory
    → Discovery
unfolding setup_header validate_header listed_energy listed_vas known_services
handle_request env req s energy_services vas_services ev_energy_services =
    if not (validate_header s req.header.session_id)
    then record {
      res = record {
        header = setup_header env s;
        response_code = ResponseCode.failed_unknown_session;
        service_renegotiation_supported = false;
        energy_transfer_service_list = free ServiceCategory.ac ∷ [];
        vas_list = none;
      };
      session = s;
      ev_energy_services = ev_energy_services;
    }
    else record {
      res = record {
        header = setup_header env s;
        response_code = ResponseCode.ok;
        service_renegotiation_supported = false;
        energy_transfer_service_list =
            map free (offered_energy req.supported_service_ids energy_services);
        vas_list = vas_list_of (offered_vas req.supported_service_ids vas_services);
      };
      session = record s {
        service_renegotiation_supported = false;
        offered_services = record no_offers {
          energy_services = offered_energy req.supported_service_ids energy_services;
          vas_services = offered_vas req.supported_service_ids vas_services;
        };
      };
      ev_energy_services = ev_energy_services ++ ev_services req.supported_service_ids;
    }

unfoldable pub on_message : Env → Unit {0} → Message → Context → Fed (Unit {0})
unfolding handle_request respond stop reject stop_session
on_message env s (Message.service_discovery req) c =
    let d =
      handle_request env req c.session c.session_config.supported_energy_transfer_services
        c.session_config.supported_vas_services c.ev_energy_services in
    let c1 = record c { session = d.session; ev_energy_services = d.ev_energy_services } in
    let c2 = respond env (Response.service_discovery d.res) c1 in
    if is_failed d.res.response_code
    then fed no_result s (stop c2)
    else fed (enter_state StateId.service_detail) s c2
on_message env s (Message.session_stop req) c = stop_session env req s c
on_message env s m c = reject env m s c

unfoldable pub feed : Env → Event → Unit {0} → Context → Option (Fed (Unit {0}))
unfolding on_message with_request
feed env Event.v2gtp_message s c = with_request c (λ m c'. on_message env s m c')
feed env _ s c = some (fed no_result s c)
