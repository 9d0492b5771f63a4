-- ===== src/States/PowerDelivery/Laws.antt =====
-- src/iso15118/d20/state/power_delivery.cpp: its request, its contactor and its timeout.
use libiso.Prelude.{
  ◌≡◌, Bool, true, false, not, ◌&&◌, ◌||◌, none, some, ◌∷◌, if◌then◌else◌, arith, bytes_eq,
}
use libiso.Message.{Progress, ResponseCode, PowerDeliveryRequest, Message, Response}
use libiso.Session.{is_ac_charger, is_dc_charger}
use libiso.Exchange
use libiso.Timeouts
use libiso.Timeouts.{TimeoutType}
use libiso.Config.{ControlEvent}
use libiso.Context.{Env, Context, StateId, Feedback, Signal, no_result}
use libiso.States.PowerDelivery.{
  PowerDelivery, on_message, on_control, on_timeout, is_start, is_standby,
}

-- The value of a ClosedContactor event is never read: an event that says that the contactor is
-- open is taken as one that says that it is closed.
pub on_control_ignores_value :
    (env : Env) (s : PowerDelivery) (c : Context)
    → (on_control env s (some (ControlEvent.closed_contactor false)) c
        ≡ on_control env s (some (ControlEvent.closed_contactor true)) c)
      × ((on_control env s (some (ControlEvent.closed_contactor false)) c).self.ac_connector_closed
          ≡ true)
unfolding on_control
on_control_ignores_value env s c = ground arith

-- A ClosedContactor event after a saved request of the current session goes on to AC_ChargeLoop,
-- and stops the contactor timeout; without a saved request the state stays.
pub on_control_closed :
    (env : Env) (s : PowerDelivery) (c : Context) (req : PowerDeliveryRequest) (closed : Bool)
    → s.previous_req ≡ some req
    → bytes_eq c.session.id req.header.session_id ≡ true
    → let f = on_control env s (some (ControlEvent.closed_contactor closed)) c in
      (f.result.new_state ≡ some StateId.ac_charge_loop)
      × (f.ctx.timeouts ≡ Timeouts.stop_timeout TimeoutType.contactor c.timeouts)
      × (f.ctx.session_stopped ≡ c.session_stopped)
unfolding on_control
on_control_closed env s c req closed e h = ground arith

-- Where an AC session starts with an open contactor, the request is saved and not answered, the
-- contactor is told to close and its timeout starts, whatever session the request names.
pub on_message_waits :
    (env : Env) (s : PowerDelivery) (req : PowerDeliveryRequest) (c : Context)
    → is_ac_charger c.session ≡ true
    → s.ac_connector_closed ≡ false
    → req.charge_progress ≡ Progress.start
    → let f = on_message env s (Message.power_delivery req) c in
      (f.result ≡ no_result)
      × (f.self ≡ record s { previous_req = some req })
      × (f.ctx.calls
          ≡ Feedback.signal Signal.ac_close_contactor
            ∷ Feedback.signal Signal.setup_finished
            ∷ c.calls)
      × (f.ctx.timeouts ≡ Timeouts.start_timeout env.now TimeoutType.contactor 3000 c.timeouts)
      × (f.ctx.message_exchange ≡ c.message_exchange)
      × (f.ctx.session_stopped ≡ c.session_stopped)
unfolding on_message
on_message_waits env s req c ac closed start = ground arith

-- A PowerDeliveryReq is answered unless it starts an AC session with an open contactor: with OK,
-- with a warning if it is for standby, or with an error if it does not name the session; the setup
-- is signalled as finished if the request starts the charging. The charge loop of the selected
-- service follows exactly if the request names the session and a service is selected; otherwise the
-- session stops.
pub on_message_answers :
    (env : Env) (s : PowerDelivery) (req : PowerDeliveryRequest) (c : Context)
    → (is_ac_charger c.session && not s.ac_connector_closed && is_start req.charge_progress) ≡ false
    → let known = bytes_eq c.session.id req.header.session_id in
      let f = on_message env s (Message.power_delivery req) c in
      (f.result.new_state ≡ (
        if known && is_ac_charger c.session
        then some StateId.ac_charge_loop
        else if known && is_dc_charger c.session
        then some StateId.dc_charge_loop
        else none))
      × (f.ctx.session_stopped ≡ (
          c.session_stopped || not (known && (is_ac_charger c.session || is_dc_charger c.session))))
      × (f.ctx.message_exchange
          ≡ Exchange.set_response env.serialize
              (Response.power_delivery (record {
                header = record { session_id = c.session.id; timestamp = env.time_s };
                response_code =
                    if not known
                    then ResponseCode.failed_unknown_session
                    else if is_standby req.charge_progress
                    then ResponseCode.warning_standby_not_allowed
                    else ResponseCode.ok;
                status = none;
              }))
              c.message_exchange)
      × (f.ctx.calls ≡ (
          if is_start req.charge_progress
          then Feedback.signal Signal.setup_finished ∷ c.calls
          else c.calls))
      × (f.self ≡ s)
      × (f.ctx.timeouts ≡ c.timeouts)
unfolding on_message
on_message_answers env s req c h = ground arith

-- When the contactor timeout is reached the session stops, and the answer to the saved request is
-- a contactor error.
pub on_timeout_contactor :
    (env : Env) (s : PowerDelivery) (req : PowerDeliveryRequest) (c : Context)
    → s.previous_req ≡ some req
    → bytes_eq c.session.id req.header.session_id ≡ true
    → let f = on_timeout env s (some TimeoutType.contactor) c in
      (f.ctx.session_stopped ≡ true)
      × (f.result ≡ no_result)
      × (f.ctx.message_exchange
          ≡ Exchange.set_response env.serialize
              (Response.power_delivery (record {
                header = record { session_id = c.session.id; timestamp = env.time_s };
                response_code = ResponseCode.failed_contactor_error;
                status = none;
              }))
              c.message_exchange)
unfolding on_timeout
on_timeout_contactor env s req c e h = ground arith
