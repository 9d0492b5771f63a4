-- ===== src/States/SessionSetup.antt =====
-- src/iso15118/d20/state/session_setup.cpp. The member `evse_id` is a copy of the configuration's,
-- made before each use.
pub mod Laws
pub mod Rejoin
use Prim.Native.String.{String}
use libiso.Prelude.{
  ℕ, Bool, true, false, not, ◌||◌, ◌&&◌, Option, none, some, List, [], ◌∷◌, ◌++◌, ◌==◌,
  if◌then◌else◌, has_value, bytes_eq, replicate,
}
use mathlib.Core.Option.{get_or}
use libiso.Message.{
  Header, SessionId, ResponseCode, SessionSetupRequest, SessionSetupResponse, Message, Response,
}
use libiso.Session.{
  Session, PauseContext, new_session, resumed_session, nothing_selected, is_ac_charger,
  is_dc_charger,
}
use libiso.Context.{
  Env, Feedback, Context, EvInformation, Event, StateId, Fed, fed, no_result, enter_state, respond,
  call, with_request,
}
use libiso.Context.Header.{setup_header}
use libiso.States.SessionStop.{reject}

abbrev pub session_is_zero : SessionId → Bool
session_is_zero [] = true
session_is_zero (b ∷ bs) = b == 0 && session_is_zero bs

-- The digest of the session id followed by the hash of the certificate; 64 zeros if it fails.
abbrev pub cert_session_id_hash : Env → List ℕ → SessionId → List ℕ
cert_session_id_hash env cert_hash id = get_or (env.sha512 (id ++ cert_hash)) (replicate 64 0)

unfoldable pub handle_request : Env → Session → String → Bool → SessionSetupResponse
unfolding setup_header
handle_request env s evse_id is_new = record {
  header = setup_header env s;
  response_code =
      if is_new
      then ResponseCode.ok_new_session_established
      else ResponseCode.ok_old_session_joined;
  evseid = evse_id;
}

-- Whether a paused session is joined: the request names an id, the connection has a certificate,
-- and the pause context holds the hash of the two.
unfoldable pub old_session :
    Env → SessionId → Option (List ℕ) → Option PauseContext → Option PauseContext
old_session env id none pause = none
old_session env id (some cert) none = none
old_session env id (some cert) (some p) =
    if session_is_zero id
    then none
    else if bytes_eq p.vehicle_cert_session_id_hash (cert_session_id_hash env cert id)
    then some p
    else none

-- A new session with a certificate is one that can be paused.
abbrev pub pause_ctx_of : Env → Option (List ℕ) → Option PauseContext → Option PauseContext
pause_ctx_of env none pause = pause
pause_ctx_of env (some cert) pause = some (record {
  vehicle_cert_session_id_hash = cert_session_id_hash env cert env.fresh_session_id;
  old_session_id = env.fresh_session_id;
  selected_service_parameters = nothing_selected;
})

abbrev pub resume : Env → Context → Fed (Unit {0})
unfolding call
resume env c =
    let c1 = call (Feedback.selected_service_parameters c.session.selected_services) c in
    if is_ac_charger c1.session
    then fed (enter_state StateId.ac_charge_parameter_discovery) tt c1
    else if is_dc_charger c1.session
    then fed (enter_state StateId.dc_charge_parameter_discovery) tt c1
    else fed no_result tt c1

-- The session is chosen, the response is made, and the next state follows from the choice.
unfoldable pub join : Env → Option PauseContext → Context → Fed (Unit {0})
unfolding handle_request respond call new_session resumed_session
join env none c =
    let c1 = record c {
      session = new_session env.fresh_session_id;
      pause_ctx = pause_ctx_of env c.vehicle_cert_hash c.pause_ctx;
    } in
    let res = handle_request env c1.session c1.session_config.evse_id true in
    fed (enter_state StateId.authorization_setup) tt (respond env (Response.session_setup res) c1)
join env (some p) c =
    let c1 = record c { session = resumed_session p } in
    let res = handle_request env c1.session c1.session_config.evse_id false in
    resume env (respond env (Response.session_setup res) c1)

abbrev pub report_ev : String → Context → Context
unfolding call
report_ev evccid c =
    let info = c.ev_info in
    let c1 = call (Feedback.evcc_id evccid) c in
    let c2 = record c1 { ev_info = record info { evcc_id = evccid } } in
    call (Feedback.ev_information c2.ev_info) c2

unfoldable pub on_message : Env → Unit {0} → Message → Context → Fed (Unit {0})
unfolding join old_session call reject
on_message env s (Message.session_setup req) c =
    join env (old_session env req.header.session_id c.vehicle_cert_hash c.pause_ctx)
      (report_ev req.evccid c)
on_message env s m c = reject env m s c

unfoldable pub feed : Env → Event → Unit {0} → Context → Option (Fed (Unit {0}))
unfolding on_message with_request
feed env Event.v2gtp_message s c = with_request c (λ m c'. on_message env s m c')
feed env _ s c = some (fed no_result s c)
