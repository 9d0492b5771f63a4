-- ===== src/Iso/Events.antt =====
-- src/iso15118/session/iso.cpp. The later steps of a poll: the events of the connection, the response and the close.
use libiso.Prelude.{◌≡◌, refl, ◌∙◌, List, [], ◌∷◌, arith, ℕ, Option}
use libiso.Message.{Message}
use libiso.Context.{Env, Context, Event}
use libiso.Iso.Types.{Transport, Session, Handled, ConnectionEvent}
use libiso.Iso.{
  finish, close_at, close_now, close_connection, handle_connection_events, handle_connection_event,
  send_response,
}

-- The parts that only the reading and the states change.
pub record IsKept {K M : Type 0} (s s' : Session K M) : Type 0 where
  pub packet : s'.packet ≡ s.packet
  pub fsm : s'.fsm ≡ s.fsm
  pub stopped : s'.ctx.session_stopped ≡ s.ctx.session_stopped
  pub paused : s'.ctx.session_paused ≡ s.ctx.session_paused
  pub queue : s'.control_event_queue ≡ s.control_event_queue

pub IsKept-trans : {K M : Type 0} {s t u : Session K M} → IsKept s t → IsKept t u → IsKept s u
IsKept-trans h k = record {
  packet = k.packet ∙ h.packet;
  fsm = k.fsm ∙ h.fsm;
  stopped = k.stopped ∙ h.stopped;
  paused = k.paused ∙ h.paused;
  queue = k.queue ∙ h.queue;
}

module _ {K M : Type 0} (port : Transport K) (decode : ℕ → List ℕ → Message)
    (fsm_feed : Env → Event → M → Context → Option (Handled M)) where
  handle_connection_event-IsKept :
      (e : ConnectionEvent) (s : Session K M)
      → IsKept s (handle_connection_event port decode fsm_feed e s)
  unfolding handle_connection_event
  handle_connection_event-IsKept ConnectionEvent.opened s = ground arith
  handle_connection_event-IsKept _ s = record {
    packet = refl;
    fsm = refl;
    stopped = refl;
    paused = refl;
    queue = refl;
  }

  handle_connection_events-IsKept :
      (es : List ConnectionEvent) (s : Session K M)
      → IsKept s (handle_connection_events port decode fsm_feed es s)
  unfolding handle_connection_events
  handle_connection_events-IsKept [] s = record {
    packet = refl;
    fsm = refl;
    stopped = refl;
    paused = refl;
    queue = refl;
  }
  handle_connection_events-IsKept (e ∷ es) s =
      IsKept-trans (handle_connection_event-IsKept e s)
        (handle_connection_events-IsKept es (handle_connection_event port decode fsm_feed e s))

  close_now-IsKept : (env : Env) (s : Session K M) → IsKept s (close_now port decode fsm_feed env s)
  unfolding close_now close_connection
  close_now-IsKept env s =
      let h =
        handle_connection_events-IsKept (port.close s.connection).events
          (record s { connection = (port.close s.connection).connection }) in
      record {
        packet = h.packet;
        fsm = h.fsm;
        stopped = h.stopped;
        paused = h.paused;
        queue = h.queue;
      }

  pub finish-IsKept : (env : Env) (s : Session K M) → IsKept s (finish port decode fsm_feed env s)
  unfolding finish close_at
  finish-IsKept env s = ground (arith, close_now-IsKept env s)

  pub send_response-IsKept :
      (env : Env) (s : Session K M) → IsKept s (send_response port decode fsm_feed env s)
  unfolding send_response
  send_response-IsKept env s = ground arith
