-- ===== src/Examples/Runs.antt =====
-- A session that is joined again after a pause: SupportedAppProtocol, SessionSetup, and from there the
-- charge parameters.
use libiso.Prelude.{◌≡◌, ◌≤◌, refl, true, some, [], ◌∷◌, length, arith}
use mathlib.Core.Option.{get_or}
use libiso.Message.{Message}
use libiso.Context.{Context, Event, StateId, Fed, fed, no_result}
use libiso.States.Machine.{State, feed, create}
use libiso.States.SupportedAppProtocol
use libiso.States.SessionSetup
use libiso.States.Machine.Order.{Follows}
use libiso.States.Machine.Transitions.{feed-Follows}
use libiso.States.Machine.Runs.{Run, Course, Run-Course, Run-length, Run-admitted, admitted}
use libiso.Examples.Data.{
  here, idle_exchange, own_context, paused_context, protocols, session_setup,
}

abbrev with_message : Message → Context → Context
with_message m c = record c { message_exchange = record idle_exchange { request = some m } }

abbrev asked : Context
asked = with_message (Message.supported_app_protocol protocols) paused_context

abbrev stuck : Fed State
stuck = fed no_result State.session_stop own_context

abbrev negotiated : Fed State
unfolding feed SupportedAppProtocol.feed
negotiated = get_or (feed here Event.v2gtp_message State.supported_app_protocol asked) stuck

abbrev again : Context
again = with_message (Message.session_setup session_setup) paused_context

abbrev joined : Fed State
unfolding feed SessionSetup.feed
joined = get_or (feed here Event.v2gtp_message State.session_setup again) stuck

negotiated_run : Run (StateId.supported_app_protocol ∷ []) State.session_setup
unfolding feed SupportedAppProtocol.feed negotiated create
negotiated_run =
    Run.enters here Event.v2gtp_message asked {f = negotiated} StateId.session_setup Run.here refl
      refl

joined_run :
    Run
      (StateId.session_setup ∷ StateId.supported_app_protocol ∷ [])
      State.dc_charge_parameter_discovery
unfolding feed SessionSetup.feed joined create
joined_run =
    Run.enters here Event.v2gtp_message again {f = joined} StateId.dc_charge_parameter_discovery
      negotiated_run refl refl

feed-Follows_example :
    Follows joined.ctx.session StateId.session_setup StateId.dc_charge_parameter_discovery
unfolding feed SessionSetup.feed joined
feed-Follows_example =
    feed-Follows here Event.v2gtp_message State.session_setup again {f = joined} refl refl

Run-Course_example :
    Course
      (StateId.session_setup ∷ StateId.supported_app_protocol ∷ [])
      StateId.dc_charge_parameter_discovery
Run-Course_example = Run-Course joined_run

Run-length_example : length (StateId.session_setup ∷ StateId.supported_app_protocol ∷ []) ≤ 14
Run-length_example = Run-length joined_run

Run-admitted_example :
    admitted
      (StateId.session_setup ∷ StateId.supported_app_protocol ∷ [])
      StateId.dc_charge_parameter_discovery
    ≡ true
Run-admitted_example = Run-admitted joined_run (omega arith)
