-- ===== src/Examples/CableCheck.antt =====
-- The cable check at its first and its last request.
use libiso.Prelude.{
  ◌+◌, ◌≤◌, ◌≡◌, refl, true, not, ◌&&◌, ◌||◌, none, some, ◌∷◌, if◌then◌else◌, bytes_eq,
}
use libiso.Message.{ResponseCode, Processing, Message, MessageType, Response}
use libiso.Context.{Context, Event, StateId, Feedback, Signal, Fed, fed, no_result, call}
use libiso.States.CableCheck.{DcCableCheck, initial, on_message, feed}
use mathlib.Core.Option.{get_or}
use libiso.Exchange
use libiso.States.CableCheck.Laws.{starts, Run, on_message_cable_check, starts_once}
use libiso.Examples.Data.{here, idle_exchange, own_context, cable_check}

abbrev checked : DcCableCheck
checked = record { cable_check_initiated = true; cable_check_done = true }

abbrev asking : Context
asking = record own_context {
  message_exchange = record idle_exchange { request = some (Message.dc_cable_check cable_check) };
}

abbrev after : Fed DcCableCheck
unfolding feed initial
after = get_or (feed here Event.v2gtp_message initial asking) (fed no_result checked own_context)

on_message_cable_check_example :
    let known = bytes_eq own_context.session.id cable_check.header.session_id in
    let done = checked.cable_check_done in
    let f = on_message here checked (Message.dc_cable_check cable_check) own_context in
    (f.result.new_state ≡ (if known && done then some StateId.dc_pre_charge else none))
    × (f.ctx.session_stopped ≡ (own_context.session_stopped || not known))
    × (f.ctx.message_exchange
        ≡ Exchange.set_response here.serialize
            (Response.dc_cable_check (record {
              header = record { session_id = own_context.session.id; timestamp = here.time_s };
              response_code =
                  if known then ResponseCode.ok else ResponseCode.failed_unknown_session;
              processing = if known && done then Processing.finished else Processing.ongoing;
            }))
            own_context.message_exchange)
    × (f.ctx.calls ≡ (
        if checked.cable_check_initiated
        then own_context.calls
        else Feedback.signal Signal.start_cable_check ∷ own_context.calls))
    × (f.self ≡ record checked { cable_check_initiated = true })
on_message_cable_check_example = on_message_cable_check here checked cable_check own_context

-- The driver announces the second request to the callbacks, and hands it over to the same state.
abbrev asking_again : Context
unfolding feed initial after
asking_again = call (Feedback.v2g_message (some MessageType.dc_cable_check_req)) (record after.ctx {
  message_exchange = record idle_exchange { request = some (Message.dc_cable_check cable_check) };
})

abbrev after_again : Fed DcCableCheck
unfolding feed initial after
after_again =
    get_or (feed here Event.v2gtp_message after.self asking_again)
      (fed no_result checked own_context)

starts_once_example : starts after_again.ctx.calls ≤ starts asking.calls + 1
unfolding initial feed after asking_again after_again call
starts_once_example = starts_once after_again.self asking after_again.ctx (
    Run.event here Event.v2gtp_message after_again
      (Run.outside {d' = asking_again} (Run.event here Event.v2gtp_message after Run.stay refl)
        refl)
      refl)
