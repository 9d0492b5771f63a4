-- ===== src/States/Authorization/Laws.antt =====
-- src/iso15118/d20/state/authorization.cpp: its request.
use libiso.Prelude.{
  ◌≡◌, Bool, true, false, not, ◌&&◌, ◌||◌, none, some, if◌then◌else◌, arith, bytes_eq,
}
use libiso.Message.{AuthStatus, ResponseCode, AuthorizationRequest, Message}
use libiso.Timeouts
use libiso.Timeouts.{TimeoutType, timeout_eim_ongoing}
use libiso.Context.{Env, Context, StateId}
use libiso.States.Authorization.{
  Authorization, find_auth_service, outcome, handle_request, on_message, is_accepted,
}

-- The code of the answer to an AuthorizationReq, over the four questions that the state asks.
abbrev pub expected_code : Bool → Bool → Bool → ResponseCode → ResponseCode
expected_code false late offered code = ResponseCode.failed_unknown_session
expected_code true true offered code = ResponseCode.failed
expected_code true false false code = ResponseCode.warning_authorization_selection_invalid
expected_code true false true code = code

-- An AuthorizationReq of the current session before the timeout goes on to ServiceDiscovery exactly
-- if the authorization was accepted, and then stops the ongoing timeout and forgets the acceptance.
-- A request of another session, or after the timeout, fails and stops the session.
pub on_message_passes :
    (env : Env) (s : Authorization) (req : AuthorizationRequest) (c : Context)
    → let known = bytes_eq c.session.id req.header.session_id in
      let open_door = known && not s.timeout_ongoing_reached in
      let passes = open_door && is_accepted s.authorization_status in
      let f = on_message env s (Message.authorization req) c in
      let started =
        if s.first_req_msg
        then Timeouts.start_timeout env.now TimeoutType.ongoing timeout_eim_ongoing c.timeouts
        else c.timeouts in
      (f.result.new_state ≡ (if passes then some StateId.service_discovery else none))
      × (f.ctx.session_stopped ≡ (c.session_stopped || not open_door))
      × (f.ctx.timeouts
          ≡ (if passes then Timeouts.stop_timeout TimeoutType.ongoing started else started))
      × (f.self.first_req_msg ≡ false)
      × (f.self.authorization_status
          ≡ (if passes then AuthStatus.pending else s.authorization_status))
      × (f.self.timeout_ongoing_reached ≡ s.timeout_ongoing_reached)
      × (f.ctx.calls ≡ c.calls)
unfolding on_message
on_message_passes env s req c = ground arith

-- The code of the answer follows the order of the checks: session, timeout, selection, status.
pub handle_request_code :
    (env : Env) (req : AuthorizationRequest) (c : Context) (status : AuthStatus) (late : Bool)
    → (handle_request env req c.session status late).response_code
      ≡ expected_code
          (bytes_eq c.session.id req.header.session_id)
          late
          (find_auth_service req.selected_authorization_service
            c.session.offered_services.auth_services)
          (outcome req.selected_authorization_service status).0
unfolding handle_request
handle_request_code env req c status late = ground arith
