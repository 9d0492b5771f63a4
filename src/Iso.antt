-- ===== src/Iso.antt =====
-- src/iso15118/session/iso.cpp and include/iso15118/session/iso.hpp: the session that ties a
-- connection to the states. Three parts come from outside and are parameters: the connection
-- (`Transport`), the decoder of a packet's payload (`decode`, of the payload type and the bytes), and
-- the machine that runs the states (`fsm_feed`, of include/iso15118/fsm/fsm.hpp, a copy of libfsm).
-- `poll` reads the steady clock once (`env.now`). `none` is an exception.
pub mod Types
pub mod Events
pub mod Progress
pub mod Settled
pub mod Deadline
pub mod Close
use libiso.Prelude.{
  ℕ, ◌+◌, ◌*◌, Bool, true, false, not, ◌||◌, Option, none, some, List, [], ◌∷◌, ◌++◌, ltb, leb,
  if◌then◌else◌, ◌>>=◌,
}
use libiso.Message.{Message, MessageType, get_type}
use libiso.Config.{ControlEvent}
use libiso.Timeouts.{TimePoint, TimeoutType, timeout_sequence, timeout_point}
use libiso.Timeouts
use libiso.Exchange
use libiso.Exchange.{MessageExchange}
use libiso.Packet.{
  new_packet, is_complete, get_payload, get_payload_type, response_header, v2gtp_header_size,
}
use libiso.Packet.Reading.{ReadPacket, read_single_sdp_packet}
use libiso.Context.{
  Env, Context, Event, Feedback, Signal, call, send_signal, start_timeout, stop_timeout, stop,
}
use libiso.Iso.Types.{ConnectionEvent, Closed, Transport, SessionState, Session, Handled}

unfoldable pub push_control_event : {K M : Type 0} → ControlEvent → Session K M → Session K M
push_control_event e s = record s { control_event_queue = s.control_event_queue ++ (e ∷ []) }

-- The events that are kept in the context for later states.
unfoldable pub cache_control_event : ControlEvent → Context → Context
cache_control_event (ControlEvent.dc_transfer_limits l) c =
    let config = c.session_config in record c { session_config = record config { dc_limits = l } }
cache_control_event (ControlEvent.energy_services l) c =
    let config = c.session_config in
    record c { session_config = record config { supported_energy_transfer_services = l } }
cache_control_event (ControlEvent.supported_vass l) c =
    let config = c.session_config in
    record c { session_config = record config { supported_vas_services = l } }
cache_control_event (ControlEvent.ac_transfer_limits l) c =
    let config = c.session_config in record c { session_config = record config { ac_limits = l } }
cache_control_event (ControlEvent.update_dynamic_mode_parameters p) c = record c {
  cache_dynamic_mode_parameters = some p;
}
cache_control_event (ControlEvent.ac_target_power p) c = record c { cache_ac_target_power = some p }
cache_control_event (ControlEvent.ac_present_power p) c = record c {
  cache_ac_present_power = some p;
}
cache_control_event _ c = c

abbrev pub stop_unless : Bool → Context → Context
stop_unless true c = c
stop_unless false c = record c { session_stopped = true }

module _ {K M : Type 0} (port : Transport K) (decode : ℕ → List ℕ → Message)
    (fsm_feed : Env → Event → M → Context → Option (Handled M)) where
  abbrev with_packet : Session K M → ReadPacket K → Session K M
  with_packet s r = record s {
    connection = r.connection;
    packet = r.packet;
    state = record { connected = s.state.connected; new_data = not r.would_block };
  }

  -- The block on new data.
  unfoldable pub read_new_data : Session K M → Session K M
  unfolding read_single_sdp_packet
  read_new_data s =
      if s.state.new_data
      then with_packet s (read_single_sdp_packet port.read s.connection s.packet)
      else s

  -- The loop over the queue, from the first event to the last; the result of `feed` is ignored.
  unfoldable pub feed_control_events : Env → List ControlEvent → M → Context → Option (M × Context)
  unfolding cache_control_event
  feed_control_events env [] m c = some (m, c)
  feed_control_events env (e ∷ es) m c = do
    r ←
        fsm_feed env Event.control_message m
          (cache_control_event e (record c { current_control_event = some e }))
    feed_control_events env es r.fsm r.ctx

  -- The loop over the timeouts that are reached.
  unfoldable pub feed_timeouts : Env → List TimeoutType → M → Context → Option (M × Context)
  unfolding Timeouts.reset_timeout
  feed_timeouts env [] m c = some (m, c)
  feed_timeouts env (TimeoutType.sequence ∷ ts) m c = some (m, record c { session_stopped = true })
  feed_timeouts env (t ∷ ts) m c = do
    r ← fsm_feed env Event.timeout m (record c { current_timeout = some t })
    let c1 = stop_unless r.handled r.ctx
    feed_timeouts env ts r.fsm (record c1 { timeouts = Timeouts.reset_timeout t c1.timeouts })

  abbrev is_sap : MessageType → Bool
  is_sap MessageType.supported_app_protocol_req = true
  is_sap _ = false

  -- A request is announced; there is no sequence timer before SupportedAppProtocol.
  unfoldable pub announce : MessageExchange → Context → Context
  unfolding Exchange.peek_request_type stop_timeout call
  announce e c =
      let request_type = Exchange.peek_request_type e in
      let c1 = record c { message_exchange = e } in
      let c2 = if is_sap request_type then c1 else stop_timeout TimeoutType.sequence c1 in
      call (Feedback.v2g_message (some request_type)) c2

  -- A message is handed to the current state.
  unfoldable pub deliver : Env → Message → Session K M → Option (Session K M)
  unfolding new_packet Exchange.set_request announce
  deliver env m s = do
    e ← Exchange.set_request m s.ctx.message_exchange
    r ← fsm_feed env Event.v2gtp_message s.fsm (announce e s.ctx)
    some (record s { packet = new_packet; fsm = r.fsm; ctx = stop_unless r.handled r.ctx })

  -- The block on a complete packet.
  unfoldable pub feed_message : Env → Session K M → Option (Session K M)
  unfolding get_payload get_payload_type deliver
  feed_message env s =
      if is_complete s.packet.state
      then deliver env (decode (get_payload_type s.packet) (get_payload s.packet)) s
      else some s

  -- The block on a response: what is written is its header, followed by what the encoder has left
  -- in the response buffer.
  unfoldable pub send_response : Env → Session K M → Session K M
  unfolding Exchange.check_and_clear_response response_header call start_timeout
  send_response env s =
      let (pending, e) = Exchange.check_and_clear_response s.ctx.message_exchange in
      let c = s.ctx in
      let c1 = record c { message_exchange = e } in
      elim pending.payload_type [
        | none ↦ record s { ctx = c1 }
        | some type ↦
            if pending.available
            then record s {
              connection = port.write (response_header type pending.size) pending.size s.connection;
              ctx =
                  call (Feedback.v2g_message pending.response_type)
                    (start_timeout env TimeoutType.sequence timeout_sequence c1);
            }
            else record s { ctx = c1 }
      ]

  -- `handle_connection_event`, for a connection that is as the assertions say.
  unfoldable pub handle_connection_event : ConnectionEvent → Session K M → Session K M
  handle_connection_event ConnectionEvent.accepted s = record s {
    state = record { connected = true; new_data = s.state.new_data };
  }
  handle_connection_event ConnectionEvent.new_data s = record s {
    state = record { connected = s.state.connected; new_data = true };
  }
  handle_connection_event ConnectionEvent.opened s =
      elim (port.get_vehicle_cert_hash s.connection) [
        | none ↦ s
        | some hash ↦ let c = s.ctx in record s { ctx = record c { vehicle_cert_hash = some hash } }
      ]
  handle_connection_event ConnectionEvent.closed s = record s {
    state = record { connected = false; new_data = s.state.new_data };
  }

  unfoldable pub handle_connection_events : List ConnectionEvent → Session K M → Session K M
  unfolding handle_connection_event
  handle_connection_events [] s = s
  handle_connection_events (e ∷ es) s = handle_connection_events es (handle_connection_event e s)

  unfoldable pub close_connection : Session K M → Session K M
  unfolding handle_connection_events
  close_connection s =
      let r = port.close s.connection in
      handle_connection_events r.events (record s { connection = r.connection })

  abbrev idle : Env → Session K M → Session K M
  idle env s = record s { next_session_event = timeout_point env.now 5000 }

  abbrev pub dlink_signal : Bool → Signal
  dlink_signal true = Signal.dlink_pause
  dlink_signal false = Signal.dlink_terminate

  unfoldable pub close_now : Env → Session K M → Session K M
  unfolding close_connection send_signal
  close_now env s =
      let s1 = close_connection s in
      let c = s1.ctx in
      idle env
        (record s1 { delayed_close_at = none; ctx = send_signal (dlink_signal c.session_paused) c })

  -- The connection is closed once `at` has come.
  unfoldable pub close_at : Env → TimePoint → Session K M → Session K M
  close_at env at s =
      if leb at env.now
      then close_now env s
      else record s { delayed_close_at = some at; next_session_event = at }

  -- The end of `poll`: five seconds after a session was stopped or paused it is closed.
  unfoldable pub finish : Env → Session K M → Session K M
  unfolding close_at
  finish env s =
      if s.ctx.session_stopped || s.ctx.session_paused
      then elim s.delayed_close_at [
        | none ↦ close_at env (timeout_point env.now 5000) s
        | some at ↦ close_at env at s
      ]
      else idle env s

  abbrev pub reached : Option (List TimeoutType) → List TimeoutType
  reached none = []
  reached (some types) = types

  -- The part of `poll` between reading and responding.
  unfoldable pub feed_events : Env → Session K M → Option (Session K M)
  unfolding feed_control_events Timeouts.check feed_timeouts feed_message
  feed_events env s = do
    (m, c) ← feed_control_events env s.control_event_queue s.fsm s.ctx
    (m1, c1) ← feed_timeouts env (reached (Timeouts.check env.now c.timeouts)) m c
    feed_message env (record s { control_event_queue = []; fsm = m1; ctx = c1 })

  unfoldable pub poll : Env → Session K M → Option (Session K M)
  unfolding read_new_data feed_events send_response finish
  poll env s =
      if not s.state.connected
      then some (idle env s)
      else (feed_events env (read_new_data s) >>= λ s1. some (finish env (send_response env s1)))

  -- `Session::close`.
  unfoldable pub close : Session K M → Session K M
  unfolding close_connection send_signal stop
  close s =
      let s1 = close_connection s in
      record s1 { ctx = stop (send_signal Signal.dlink_terminate s1.ctx) }
