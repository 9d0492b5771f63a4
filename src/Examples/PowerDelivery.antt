-- ===== src/Examples/PowerDelivery.antt =====
-- Power delivery of an AC session, with and without its contactor closed.
use libiso.Prelude.{
  ◌≡◌, refl, true, false, not, ◌&&◌, ◌||◌, none, some, ◌∷◌, if◌then◌else◌, bytes_eq,
}
use libiso.Message.{Message, Response, ResponseCode}
use libiso.Session.{is_ac_charger, is_dc_charger}
use libiso.Timeouts.{TimeoutType}
use libiso.Config.{ControlEvent}
use libiso.Context.{StateId, Feedback, Signal, no_result}
use libiso.States.PowerDelivery.{PowerDelivery, on_message, on_control, is_start, is_standby}
use libiso.Timeouts
use libiso.Exchange
use libiso.States.PowerDelivery.Laws.{
  on_control_ignores_value, on_message_waits, on_message_answers,
}
use libiso.Examples.Data.{here, ac_context, power_delivery, stop_power}

abbrev fresh : PowerDelivery
fresh = record { previous_req = none; ac_connector_closed = false; present_voltage = 0 }

abbrev saved : PowerDelivery
saved = record {
  previous_req = some power_delivery;
  ac_connector_closed = false;
  present_voltage = 0;
}

on_control_ignores_value_example :
    (on_control here saved (some (ControlEvent.closed_contactor false)) ac_context
      ≡ on_control here saved (some (ControlEvent.closed_contactor true)) ac_context)
    × ((on_control here saved
          (some (ControlEvent.closed_contactor false))
          ac_context).self.ac_connector_closed
        ≡ true)
on_control_ignores_value_example = on_control_ignores_value here saved ac_context

on_message_waits_example :
    let f = on_message here fresh (Message.power_delivery power_delivery) ac_context in
    (f.result ≡ no_result)
    × (f.self ≡ record fresh { previous_req = some power_delivery })
    × (f.ctx.calls
        ≡ Feedback.signal Signal.ac_close_contactor
          ∷ Feedback.signal Signal.setup_finished
          ∷ ac_context.calls)
    × (f.ctx.timeouts
        ≡ Timeouts.start_timeout here.now TimeoutType.contactor 3000 ac_context.timeouts)
    × (f.ctx.message_exchange ≡ ac_context.message_exchange)
    × (f.ctx.session_stopped ≡ ac_context.session_stopped)
on_message_waits_example = on_message_waits here fresh power_delivery ac_context refl refl refl

on_message_answers_example :
    let known = bytes_eq ac_context.session.id stop_power.header.session_id in
    let f = on_message here fresh (Message.power_delivery stop_power) ac_context in
    (f.result.new_state ≡ (
      if known && is_ac_charger ac_context.session
      then some StateId.ac_charge_loop
      else if known && is_dc_charger ac_context.session
      then some StateId.dc_charge_loop
      else none))
    × (f.ctx.session_stopped ≡ (
        ac_context.session_stopped
        || not (known && (is_ac_charger ac_context.session || is_dc_charger ac_context.session))))
    × (f.ctx.message_exchange
        ≡ Exchange.set_response here.serialize
            (Response.power_delivery (record {
              header = record { session_id = ac_context.session.id; timestamp = here.time_s };
              response_code =
                  if not known
                  then ResponseCode.failed_unknown_session
                  else if is_standby stop_power.charge_progress
                  then ResponseCode.warning_standby_not_allowed
                  else ResponseCode.ok;
              status = none;
            }))
            ac_context.message_exchange)
    × (f.ctx.calls ≡ (
        if is_start stop_power.charge_progress
        then Feedback.signal Signal.setup_finished ∷ ac_context.calls
        else ac_context.calls))
    × (f.self ≡ fresh)
    × (f.ctx.timeouts ≡ ac_context.timeouts)
on_message_answers_example = on_message_answers here fresh stop_power ac_context refl
