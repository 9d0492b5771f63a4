-- ===== src/States/ServiceDetail.antt =====
-- src/iso15118/d20/state/service_detail.cpp: the parameter sets of a service. The state object has no
-- members of its own. `none` is an exception of `std::get`.
pub mod ParameterSets
pub mod Vas
pub mod Offers
pub mod Laws
use libiso.Prelude.{
  ℕ, Bool, true, false, not, ◌||◌, Option, none, some, List, [], ◌∷◌, map, ◌==◌, if◌then◌else◌,
  contains, ◌>>=◌,
}
use libiso.Message.{
  Header, ResponseCode, is_failed, service_id, ParameterSet, ServiceDetailRequest,
  ServiceDetailResponse, default_service_detail, Message, Response,
}
use libiso.Session.{Session, OfferedServices, put}
use libiso.Config.{SessionConfig}
use libiso.Context.{
  Env, Context, Event, StateId, Fed, fed, no_result, enter_state, respond, stop, try_request,
}
use libiso.Context.Header.{setup_header, validate_header}
use libiso.States.SessionStop.{reject, stop_session}
use libiso.States.ServiceDetail.Vas.{get_vas_parameters, VasParameters}
use libiso.States.ServiceDetail.Offers.{Offer, offer_parameters}

-- The response, and the session with what it now offers.
pub record Detail : Type 0 where
  pub res : ServiceDetailResponse
  pub session : Session

abbrev pub is_offered : OfferedServices → ℕ → Bool
is_offered o service =
    contains (map service_id o.energy_services) service || contains o.vas_services service

abbrev ids_of : List ParameterSet → List ℕ
ids_of [] = []
ids_of (p ∷ ps) = p.id ∷ ids_of ps

-- The parameter sets that the callback has given for a value added service.
abbrev pub offer_custom : ℕ → List ParameterSet → OfferedServices → Offer
unfolding put
offer_custom service sets o = record {
  offered = record o { custom_vas_list = put service (ids_of sets) o.custom_vas_list };
  sets = sets;
}

abbrev pub offer : SessionConfig → ℕ → Option (List ParameterSet) → OfferedServices → Offer
unfolding offer_parameters
offer config service none o = offer_parameters config service o
offer config service (some sets) o = offer_custom service sets o

-- An AC DER service without a usable parameter set is refused.
abbrev is_refused : ℕ → Option (List ParameterSet) → List ParameterSet → Bool
is_refused service none [] = service == 10
is_refused service _ _ = false

unfoldable pub handle_request :
    Env → ServiceDetailRequest → Session → SessionConfig → Option (List ParameterSet) → Detail
unfolding setup_header validate_header offer_parameters
handle_request env req s config custom =
    let header = setup_header env s in
    if not (validate_header s req.header.session_id)
    then record {
      res = default_service_detail header ResponseCode.failed_unknown_session;
      session = s;
    }
    else if not (is_offered s.offered_services req.service)
    then record {
      res = default_service_detail header ResponseCode.failed_service_id_invalid;
      session = s;
    }
    else let o = offer config req.service custom s.offered_services in
      record {
        res = record {
          header = header;
          response_code =
              if is_refused req.service custom o.sets
              then ResponseCode.failed_service_id_invalid
              else ResponseCode.ok;
          service = req.service;
          service_parameter_list = o.sets;
        };
        session = record s { offered_services = o.offered };
      }

-- The answer to a request, in this state and in ServiceSelection: whether it has failed, and the
-- context.
unfoldable pub answer : Env → ServiceDetailRequest → Context → Option (Bool × Context)
unfolding get_vas_parameters handle_request respond
answer env req c = do
  v ← get_vas_parameters env req.service c
  let c1 = v.ctx
  let d = handle_request env req c1.session c1.session_config v.custom
  some (
    is_failed d.res.response_code,
    respond env (Response.service_detail d.res) (record c1 { session = d.session }),
  )

abbrev conclude : Bool → Context → Fed (Unit {0})
unfolding stop
conclude true c = fed no_result tt (stop c)
conclude false c = fed (enter_state StateId.service_selection) tt c

unfoldable pub on_message : Env → Unit {0} → Message → Context → Option (Fed (Unit {0}))
unfolding answer stop reject stop_session
on_message env s (Message.service_detail req) c = do
  (failed, c1) ← answer env req c
  some (conclude failed c1)
on_message env s (Message.session_stop req) c = some (stop_session env req s c)
on_message env s m c = some (reject env m s c)

unfoldable pub feed : Env → Event → Unit {0} → Context → Option (Fed (Unit {0}))
unfolding on_message try_request
feed env Event.v2gtp_message s c = try_request c (λ m c'. on_message env s m c')
feed env _ s c = some (fed no_result s c)
