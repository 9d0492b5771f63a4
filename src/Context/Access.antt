-- ===== src/Context/Access.antt =====
-- The members of `Context` that the states call.
use libiso.Prelude.{ℕ, true, Option, none, some, ◌∷◌}
use libiso.Message.{Message, Response}
use libiso.Exchange
use libiso.Timeouts
use libiso.Timeouts.{TimeoutType}
use libiso.Context.Types.{Env, Signal, Feedback, Context, Fed}

unfoldable pub respond : Env → Response → Context → Context
respond env r c = record c {
  message_exchange = Exchange.set_response env.serialize r c.message_exchange;
}

unfoldable pub call : Feedback → Context → Context
call f c = record c { calls = f ∷ c.calls }

unfoldable pub send_signal : Signal → Context → Context
unfolding call
send_signal s c = call (Feedback.signal s) c

unfoldable pub stop : Context → Context
stop c = record c { session_stopped = true }

unfoldable pub start_timeout : Env → TimeoutType → ℕ → Context → Context
start_timeout env type ms c = record c {
  timeouts = Timeouts.start_timeout env.now type ms c.timeouts;
}

unfoldable pub stop_timeout : TimeoutType → Context → Context
stop_timeout type c = record c { timeouts = Timeouts.stop_timeout type c.timeouts }

-- The request is taken out of the exchange; `none` is the exception that is thrown without one.
unfoldable pub with_request : {S : Type 0} → Context → (Message → Context → Fed S) → Option (Fed S)
unfolding Exchange.pull_request
with_request c f = elim (Exchange.pull_request c.message_exchange) [
  | none ↦ none
  | some (m, e) ↦ some (f m (record c { message_exchange = e }))
]

-- The same, for a handler that may throw.
unfoldable pub try_request :
    {S : Type 0} → Context → (Message → Context → Option (Fed S)) → Option (Fed S)
unfolding Exchange.pull_request
try_request c f = elim (Exchange.pull_request c.message_exchange) [
  | none ↦ none
  | some (m, e) ↦ f m (record c { message_exchange = e })
]
