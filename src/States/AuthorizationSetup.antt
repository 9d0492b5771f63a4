-- ===== src/States/AuthorizationSetup.antt =====
-- src/iso15118/d20/state/authorization_setup.cpp. The state object has no members of its own.
use libiso.Prelude.{Bool, false, not, Option, none, some, List, [], ◌∷◌, if◌then◌else◌}
use libiso.Message.{
  GenChallenge, ResponseCode, is_failed, Authorization, AuthorizationSetupRequest,
  AuthorizationSetupResponse, AuthorizationResponseMode, Message, Response,
}
use libiso.Session.{Session, OfferedServices}
use libiso.Context.{
  Env, Signal, Context, Event, StateId, Fed, fed, no_result, enter_state, respond, send_signal,
  stop, with_request,
}
use libiso.Context.Header.{setup_header, validate_header}
use libiso.States.SessionStop.{reject, stop_session}

-- The services of the configuration, or EIM if there are none.
abbrev pub services_or_eim : List Authorization → List Authorization
services_or_eim [] = Authorization.eim ∷ []
services_or_eim (a ∷ rest) = a ∷ rest

-- EIM if it is the only service, else PnC with a fresh challenge.
abbrev pub mode_of : GenChallenge → List Authorization → AuthorizationResponseMode
mode_of challenge (Authorization.eim ∷ []) = AuthorizationResponseMode.eim
mode_of challenge _ = AuthorizationResponseMode.pnc challenge none

-- The response, and the session with the services that it offers.
unfoldable pub handle_request :
    Env
    → AuthorizationSetupRequest
    → Session
    → Bool
    → List Authorization
    → AuthorizationSetupResponse × Session
unfolding setup_header validate_header
handle_request env req s cert_install_service authorization_services =
    if not (validate_header s req.header.session_id)
    then (
      record {
        header = setup_header env s;
        response_code = ResponseCode.failed_unknown_session;
        authorization_services = Authorization.eim ∷ [];
        certificate_installation_service = false;
        authorization_mode = AuthorizationResponseMode.eim;
      },
      s,
    )
    else (
      record {
        header = setup_header env s;
        response_code = ResponseCode.ok;
        authorization_services = services_or_eim authorization_services;
        certificate_installation_service = cert_install_service;
        authorization_mode = mode_of env.fresh_challenge (services_or_eim authorization_services);
      },
      record s { offered_services = offers },
    )
  where
    offers : OfferedServices
    offers =
        let o = s.offered_services in
        record o { auth_services = services_or_eim authorization_services }

unfoldable pub on_message : Env → Unit {0} → Message → Context → Fed (Unit {0})
unfolding handle_request send_signal respond stop reject stop_session
on_message env s (Message.authorization_setup req) c =
    let (res, session) =
      handle_request env req c.session c.session_config.cert_install_service
        c.session_config.authorization_services in
    let c1 = respond env (Response.authorization_setup res) (record c { session = session }) in
    if is_failed res.response_code
    then fed no_result s (stop c1)
    else fed (enter_state StateId.authorization) s (send_signal Signal.require_auth_eim c1)
on_message env s (Message.session_stop req) c = stop_session env req s c
on_message env s m c = reject env m s c

unfoldable pub feed : Env → Event → Unit {0} → Context → Option (Fed (Unit {0}))
unfolding on_message with_request
feed env Event.v2gtp_message s c = with_request c (λ m c'. on_message env s m c')
feed env _ s c = some (fed no_result s c)
