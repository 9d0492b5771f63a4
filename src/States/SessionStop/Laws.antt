-- ===== src/States/SessionStop/Laws.antt =====
-- src/iso15118/d20/state/session_stop.cpp: what a SessionStopReq leaves.
use libiso.Prelude.{◌≡◌, true, Option, none, some, arith}
use libiso.Message.{SessionStopRequest, ChargingSession, Message}
use libiso.Session.{PauseContext}
use libiso.Context.{Env, Context}
use libiso.States.SessionStop.{on_message}

abbrev pub paused_with : Context → Option PauseContext → Option PauseContext
paused_with c none = none
paused_with c (some p) =
    some (record p { selected_service_parameters = c.session.selected_services })

-- What a SessionStopReq asks for is done whatever the response's code, so also if the request does
-- not name the session: pausing keeps the selected services in the pause context, terminating drops
-- the pause context, and a renegotiation changes neither.
pub on_message_ends :
    (env : Env) {S : Type 0} (s : S) (req : SessionStopRequest) (c : Context)
    → let c' = (on_message env s (Message.session_stop req) c).ctx in
      (req.charging_session ≡ ChargingSession.pause
        → (c'.session_paused ≡ true)
          × (c'.session_stopped ≡ c.session_stopped)
          × (c'.pause_ctx ≡ paused_with c c.pause_ctx))
      × (req.charging_session ≡ ChargingSession.terminate
          → (c'.session_paused ≡ c.session_paused)
            × (c'.session_stopped ≡ true)
            × (c'.pause_ctx ≡ none))
      × (req.charging_session ≡ ChargingSession.service_renegotiation
          → (c'.session_paused ≡ c.session_paused)
            × (c'.session_stopped ≡ c.session_stopped)
            × (c'.pause_ctx ≡ c.pause_ctx))
unfolding on_message
on_message_ends env s req c = ground arith
