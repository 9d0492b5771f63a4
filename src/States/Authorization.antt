-- ===== src/States/Authorization.antt =====
-- src/iso15118/d20/state/authorization.cpp.
pub mod Laws
use libiso.Prelude.{Bool, true, false, not, ◌||◌, Option, none, some, List, [], ◌∷◌, if◌then◌else◌}
use libiso.Message.{
  Authorization as AuthService, Header, ResponseCode, is_failed, Processing, AuthStatus,
  AuthorizationRequest, AuthorizationResponse, Message, Response,
}
use libiso.Session.{Session}
use libiso.Config.{ControlEvent}
use libiso.Timeouts.{TimeoutType, timeout_eim_ongoing}
use libiso.Context.{
  Env, Context, Event, StateId, Fed, fed, no_result, enter_state, respond, stop, start_timeout,
  stop_timeout, with_request,
}
use libiso.Context.Header.{setup_header, validate_header}
use libiso.States.SessionStop.{reject, stop_session}

pub record Authorization : Type 0 where
  pub authorization_status : AuthStatus
  pub first_req_msg : Bool
  pub timeout_ongoing_reached : Bool

unfoldable pub initial : Authorization
initial = record {
  authorization_status = AuthStatus.pending;
  first_req_msg = true;
  timeout_ongoing_reached = false;
}

abbrev pub same_service : AuthService → AuthService → Bool
same_service AuthService.eim AuthService.eim = true
same_service AuthService.eim AuthService.pnc = false
same_service AuthService.pnc AuthService.pnc = true
same_service AuthService.pnc AuthService.eim = false

-- `find_auth_service_in_offered_services`.
abbrev pub find_auth_service : AuthService → List AuthService → Bool
find_auth_service a [] = false
find_auth_service a (b ∷ bs) = same_service b a || find_auth_service a bs

-- The switch over the selected service and the status.
abbrev pub outcome : AuthService → AuthStatus → ResponseCode × Processing
outcome AuthService.eim AuthStatus.accepted = (ResponseCode.ok, Processing.finished)
outcome AuthService.eim AuthStatus.rejected =
    (ResponseCode.warning_eim_authorization_failure, Processing.finished)
outcome AuthService.eim AuthStatus.pending = (ResponseCode.ok, Processing.ongoing)
outcome AuthService.pnc status = (ResponseCode.ok, Processing.finished)

unfoldable pub handle_request :
    Env → AuthorizationRequest → Session → AuthStatus → Bool → AuthorizationResponse
unfolding setup_header validate_header
handle_request env req s status timeout_reached =
    if not (validate_header s req.header.session_id)
    then res ResponseCode.failed_unknown_session Processing.finished
    else if timeout_reached
    then res ResponseCode.failed Processing.finished
    else if not
        (find_auth_service req.selected_authorization_service s.offered_services.auth_services)
    then res ResponseCode.warning_authorization_selection_invalid Processing.finished
    else res (outcome req.selected_authorization_service status).0
        (outcome req.selected_authorization_service status).1
  where
    res : ResponseCode → Processing → AuthorizationResponse
    res code processing = record {
      header = setup_header env s;
      response_code = code;
      evse_processing = processing;
    }

unfoldable pub on_control : Authorization → Option ControlEvent → Authorization
on_control s (some (ControlEvent.authorization_response authorized)) = record s {
  authorization_status = if authorized then AuthStatus.accepted else AuthStatus.rejected;
}
on_control s _ = s

unfoldable pub on_timeout : Authorization → Option TimeoutType → Authorization
on_timeout s (some TimeoutType.ongoing) = record s { timeout_ongoing_reached = true }
on_timeout s _ = s

abbrev pub is_accepted : AuthStatus → Bool
is_accepted AuthStatus.accepted = true
is_accepted _ = false

unfoldable pub on_message : Env → Authorization → Message → Context → Fed Authorization
unfolding handle_request respond stop start_timeout stop_timeout reject stop_session
on_message env s (Message.authorization req) c =
    let c1 =
      if s.first_req_msg then start_timeout env TimeoutType.ongoing timeout_eim_ongoing c else c in
    let s1 = record s { first_req_msg = false } in
    let res = handle_request env req c.session s.authorization_status s.timeout_ongoing_reached in
    let c2 = respond env (Response.authorization res) c1 in
    if is_failed res.response_code
    then fed no_result s1 (stop c2)
    else if is_accepted s.authorization_status
    then fed (enter_state StateId.service_discovery)
        (record s1 { authorization_status = AuthStatus.pending })
        (stop_timeout TimeoutType.ongoing c2)
    else fed no_result s1 c2
on_message env s (Message.session_stop req) c = stop_session env req s c
on_message env s m c = reject env m s c

unfoldable pub feed : Env → Event → Authorization → Context → Option (Fed Authorization)
unfolding on_control on_timeout on_message with_request
feed env Event.control_message s c = some (fed no_result (on_control s c.current_control_event) c)
feed env Event.timeout s c = some (fed no_result (on_timeout s c.current_timeout) c)
feed env Event.v2gtp_message s c = with_request c (λ m c'. on_message env s m c')
feed env _ s c = some (fed no_result s c)
