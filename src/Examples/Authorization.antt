-- ===== src/Examples/Authorization.antt =====
-- An authorization that was accepted.
use libiso.Prelude.{◌≡◌, false, not, ◌&&◌, ◌||◌, none, some, if◌then◌else◌, bytes_eq}
use libiso.Message.{AuthStatus, Message}
use libiso.Timeouts.{TimeoutType, timeout_eim_ongoing}
use libiso.Context.{StateId}
use libiso.States.Authorization.{Authorization, on_message, is_accepted}
use libiso.Timeouts
use libiso.States.Authorization.Laws.{on_message_passes}
use libiso.Examples.Data.{here, own_context, authorization}

abbrev allowed : Authorization
allowed = record {
  authorization_status = AuthStatus.accepted;
  first_req_msg = false;
  timeout_ongoing_reached = false;
}

on_message_passes_example :
    let known = bytes_eq own_context.session.id authorization.header.session_id in
    let open_door = known && not allowed.timeout_ongoing_reached in
    let passes = open_door && is_accepted allowed.authorization_status in
    let f = on_message here allowed (Message.authorization authorization) own_context in
    let started =
      if allowed.first_req_msg
      then Timeouts.start_timeout here.now TimeoutType.ongoing timeout_eim_ongoing
          own_context.timeouts
      else own_context.timeouts in
    (f.result.new_state ≡ (if passes then some StateId.service_discovery else none))
    × (f.ctx.session_stopped ≡ (own_context.session_stopped || not open_door))
    × (f.ctx.timeouts
        ≡ (if passes then Timeouts.stop_timeout TimeoutType.ongoing started else started))
    × (f.self.first_req_msg ≡ false)
    × (f.self.authorization_status
        ≡ (if passes then AuthStatus.pending else allowed.authorization_status))
    × (f.self.timeout_ongoing_reached ≡ allowed.timeout_ongoing_reached)
    × (f.ctx.calls ≡ own_context.calls)
on_message_passes_example = on_message_passes here allowed authorization own_context
