-- ===== src/Examples/Machine.antt =====
-- States that are fed a request of their session, and one of another.
use libiso.Prelude.{◌≡◌, refl, true, false, not, some, has_value}
use libiso.Message.{Message}
use libiso.Context.{Context, Event, Fed, fed, no_result}
use libiso.States.Machine.{State, feed}
use mathlib.Core.Option.{get_or}
use libiso.States.CableCheck
use libiso.States.Machine.Results.{feed_settled}
use libiso.States.Machine.Flags.{feed-IsStopping}
use libiso.Examples.Data.{here, idle_exchange, own_context, other_cable_check}

abbrev checking : State
checking = State.dc_cable_check (record { cable_check_initiated = false; cable_check_done = true })

abbrev foreign : Context
foreign = record own_context {
  message_exchange = record idle_exchange {
    request = some (Message.dc_cable_check other_cable_check);
  };
}

abbrev after : Fed State
unfolding feed CableCheck.feed
after =
    get_or (feed here Event.v2gtp_message checking foreign)
      (fed no_result State.session_stop own_context)

feed_settled_example : after.result.unhandled ≡ not (has_value after.result.new_state)
unfolding feed CableCheck.feed after
feed_settled_example = feed_settled here Event.v2gtp_message checking foreign refl

feed-IsStopping_example :
    (foreign.session_stopped ≡ true → after.ctx.session_stopped ≡ true)
    × (foreign.session_paused ≡ true → after.ctx.session_paused ≡ true)
unfolding feed CableCheck.feed after
feed-IsStopping_example = feed-IsStopping here Event.v2gtp_message checking foreign refl
