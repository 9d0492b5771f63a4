-- ===== src/States/ServiceSelection.antt =====
-- src/iso15118/d20/state/service_selection.cpp: the services that the EV selects. The state object has
-- no members of its own; a ServiceDetailReq is answered as in the state before.
pub mod Laws
use libiso.Prelude.{
  ℕ, Bool, true, false, not, ◌&&◌, Option, none, some, List, [], ◌∷◌, map, ◌==◌, if◌then◌else◌,
  contains, ◌>>=◌,
}
use libiso.Message.{
  Header, ResponseCode, is_failed, ServiceCategory, service_id, SelectedService, VasSelectedService,
  ServiceSelectionRequest, ServiceSelectionResponse, Message, Response,
}
use libiso.Session.{
  Session, OfferedServices, AcDerParameterList, find, is_ac_charger, is_dc_charger,
}
use libiso.Session.Services.{
  find_narrowed, find_energy_parameter_set_id, find_vas_parameter_set_id, select_energy_service,
  select_vas_service,
}
use libiso.AcDer.{has_required_ac_der_control_functions}
use libiso.Context.{
  Env, Context, Event, Feedback, StateId, Fed, fed, no_result, enter_state, respond, call, stop,
  try_request,
}
use libiso.Context.Header.{setup_header, validate_header}
use libiso.States.SessionStop.{reject, stop_session}
use libiso.States.ServiceDetail.{answer}

-- The response, and the session with what it has selected.
pub record Selection : Type 0 where
  pub res : ServiceSelectionResponse
  pub session : Session

-- The loop over the selected value added services: the last value of `vas_services_found`.
unfoldable pub vas_services_found : List ℕ → List VasSelectedService → Bool → Bool
vas_services_found offered [] found = found
vas_services_found offered (v ∷ vs) found =
    if contains offered v.service_id then vas_services_found offered vs true else false

unfoldable pub vas_list_found : List ℕ → Option (List VasSelectedService) → Bool
unfolding vas_services_found
vas_list_found offered none = true
vas_list_found offered (some vs) = vas_services_found offered vs false

abbrev usable : Option AcDerParameterList → Bool
unfolding has_required_ac_der_control_functions
usable none = false
usable (some p) = has_required_ac_der_control_functions p.control_functions

-- An AC DER service needs a parameter set with the required control functions.
unfoldable pub der_usable : OfferedServices → SelectedService → Bool
unfolding find has_required_ac_der_control_functions
der_usable o s =
    if service_id s.service_id == 10
    then usable (find_narrowed o.ac_der_parameter_list s.parameter_set_id)
    else true

-- The loop that selects the value added services: whether it came to its end, and the session.
unfoldable pub select_vas : List VasSelectedService → Session → Bool × Session
unfolding find_vas_parameter_set_id select_vas_service
select_vas [] s = (true, s)
select_vas (v ∷ vs) s =
    let rest = select_vas vs (select_vas_service s v.service_id v.parameter_set_id) in
    if not (find_vas_parameter_set_id s v.service_id v.parameter_set_id) then (false, s) else rest

unfoldable pub select_vas_list : Option (List VasSelectedService) → Session → Bool × Session
unfolding select_vas
select_vas_list none s = (true, s)
select_vas_list (some vs) s = select_vas vs s

abbrev pub with_code : Header → ResponseCode → Session → Selection
with_code h code s = record { res = record { header = h; response_code = code }; session = s }

unfoldable pub handle_request : Env → ServiceSelectionRequest → Session → Selection
unfolding setup_header validate_header
handle_request env req s =
    let h = setup_header env s in
    let e = req.selected_energy_transfer_service in
    let offered = s.offered_services in
    let selected =
      select_vas_list req.selected_vas_list
        (select_energy_service env.to_float s e.service_id e.parameter_set_id) in
    if not (validate_header s req.header.session_id)
    then with_code h ResponseCode.failed_unknown_session s
    else if not (contains (map service_id offered.energy_services) (service_id e.service_id))
    then with_code h ResponseCode.failed_no_energy_transfer_service_selected s
    else if not (vas_list_found offered.vas_services req.selected_vas_list)
    then with_code h ResponseCode.failed_service_selection_invalid s
    else if not (find_energy_parameter_set_id s e.service_id e.parameter_set_id)
    then with_code h ResponseCode.failed_service_selection_invalid s
    else if not (der_usable offered e)
    then with_code h ResponseCode.failed_service_selection_invalid s
    else if not selected.0
    then with_code h ResponseCode.failed_service_selection_invalid selected.1
    else with_code h ResponseCode.ok selected.1

abbrev pub is_ok : ResponseCode → Bool
is_ok ResponseCode.ok = true
is_ok _ = false

abbrev report_vas : Option (List VasSelectedService) → Context → Context
unfolding call
report_vas none c = c
report_vas (some vs) c = call (Feedback.selected_vas_services vs) c

-- What follows a response, in the context that it is set in.
unfoldable pub conclude :
    ServiceSelectionResponse → Option (List VasSelectedService) → Context → Fed (Unit {0})
unfolding call stop
conclude res vas c =
    let c1 = report_vas vas c in
    if is_failed res.response_code
    then fed no_result tt (stop c)
    else if is_ac_charger c.session
    then fed (enter_state StateId.ac_charge_parameter_discovery) tt c1
    else if is_dc_charger c.session
    then fed (enter_state StateId.dc_charge_parameter_discovery) tt c1
    else fed no_result tt (stop c1)

unfoldable pub on_selection : Env → ServiceSelectionRequest → Context → Fed (Unit {0})
unfolding handle_request respond call
on_selection env req c =
    let d = handle_request env req c.session in
    let s = d.session in
    let c1 = record c { session = s } in
    let c2 =
      if is_ok d.res.response_code
      then call (Feedback.selected_service_parameters s.selected_services) c1
      else c1 in
    conclude d.res req.selected_vas_list (respond env (Response.service_selection d.res) c2)

unfoldable pub on_message : Env → Unit {0} → Message → Context → Option (Fed (Unit {0}))
unfolding answer on_selection stop reject stop_session
on_message env s (Message.service_detail req) c = do
  (failed, c1) ← answer env req c
  some (fed no_result s (if failed then stop c1 else c1))
on_message env s (Message.service_selection req) c = some (on_selection env req c)
on_message env s (Message.session_stop req) c = some (stop_session env req s c)
on_message env s m c = some (reject env m s c)

unfoldable pub feed : Env → Event → Unit {0} → Context → Option (Fed (Unit {0}))
unfolding on_message try_request
feed env Event.v2gtp_message s c = try_request c (λ m c'. on_message env s m c')
feed env _ s c = some (fed no_result s c)
