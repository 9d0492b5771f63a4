-- ===== src/Iso/Progress.antt =====
-- src/iso15118/session/iso.cpp. What a poll leaves of the packet and of the flags, and what is asked of
-- the machine.
use libiso.Prelude.{
  ◌≡◌, refl, ◌⊎◌, inl, inr, Bool, true, false, not, Option, some, List, [], arith, ℕ, Bool-cases,
  sym, ap, subst, ◌∙◌, if-true, if-false, bind-some, some-injective,
}
use libiso.Packet.{
  get_payload, get_payload_type, SdpPacket, State as PacketState, new_packet, is_complete,
}
use libiso.Packet.Bounds.{IsValid, new_packet-IsValid, in_progress}
use libiso.Packet.Reading.{read_single_sdp_packet}
use libiso.Packet.Reading.Progress.{
  IsReader, read_single_sdp_packet-IsValid, read_single_sdp_packet-state,
}
use libiso.Message.{Message}
use libiso.Context.{Env, Context, Event, StateId, Fed}
use libiso.States.Machine.{State, feed, create}
use libiso.Exchange.{set_request}
use libiso.Iso.Types.{Transport, Session, Handled}
use libiso.Iso.{
  poll, send_response, feed_events, feed_message, deliver, read_new_data, feed_control_events,
  feed_timeouts, stop_unless, announce, reached,
}
use libiso.Iso.Events.{IsKept, IsKept-trans, finish-IsKept, send_response-IsKept}
use libiso.Timeouts.{check}

-- What `FSM::feed` does: it feeds the current state; an unhandled event leaves the state object in
-- place, and a handled one puts the new state there, if there is one.
pub record IsMachine {M : Type 0} (fsm_feed : Env → Event → M → Context → Option (Handled M))
    (current : M → State) : Type 0 where
  pub feed_lem :
      (env : Env) (ev : Event) (m : M) (c : Context) (r : Handled M)
      → fsm_feed env ev m c ≡ some r
      → (f : Fed State) × (feed env ev (current m) c ≡ some f)
        × (r.ctx ≡ f.ctx)
        × (r.handled ≡ not f.result.unhandled)
        × ((id : StateId)
            → f.result.unhandled ≡ false
            → f.result.new_state ≡ some id
            → create id r.ctx ≡ current r.fsm)
        × (f.result.unhandled ≡ true → current r.fsm ≡ f.self)

not-not : (b : Bool) → not (not b) ≡ b
not-not b = ground arith

module _ {K M : Type 0} (port : Transport K) (decode : ℕ → List ℕ → Message)
    (fsm_feed : Env → Event → M → Context → Option (Handled M)) where
  pub deliver_lem :
      (env : Env) (m : Message) (s s' : Session K M)
      → deliver port decode fsm_feed env m s ≡ some s'
      → (c : Context) × (r : Handled M) × (fsm_feed env Event.v2gtp_message s.fsm c ≡ some r)
        × (record s { packet = new_packet; fsm = r.fsm; ctx = stop_unless r.handled r.ctx } ≡ s')
  unfolding deliver
  deliver_lem env m s s' h =
      let (e, _, h1) = bind-some (set_request m s.ctx.message_exchange) _ s' h in
      let c = announce port decode fsm_feed e s.ctx in
      let (r, h2, h3) = bind-some (fsm_feed env Event.v2gtp_message s.fsm c) _ s' h1 in
      (c, r, h2, some-injective h3)

  -- Feeding a complete packet, and leaving any other alone.
  feed_message-incomplete :
      (env : Env) (s s' : Session K M)
      → is_complete s.packet.state ≡ false
      → feed_message port decode fsm_feed env s ≡ some s'
      → s'.packet ≡ s.packet
  unfolding feed_message
  feed_message-incomplete env s s' n h =
      sym (
        ap (λ t. t.packet) (some-injective (sym (if-false (is_complete s.packet.state) _ _ n) ∙ h)))

  fed_session : Env → Session K M → M → Context → Session K M
  fed_session env s m c = record s { control_event_queue = []; fsm = m; ctx = c }

  -- A poll's message is fed to a session with the same packet, after the other events.
  feed_events_lem :
      (env : Env) (s s' : Session K M)
      → feed_events port decode fsm_feed env s ≡ some s'
      → (m : M) × (c : Context) × (feed_message port decode fsm_feed env
            (record s { control_event_queue = []; fsm = m; ctx = c })
          ≡ some s')
  unfolding feed_events
  feed_events_lem env s s' h =
      let ((m, c), _, h1) =
        bind-some (feed_control_events port decode fsm_feed env s.control_event_queue s.fsm s.ctx) _
          s' h in
      let ((m1, c1), _, h2) =
        bind-some
          (feed_timeouts port decode fsm_feed env
            (reached port decode fsm_feed (check env.now c.timeouts)) m c)
          _ s' h1 in
      (m1, c1, h2)

  pub poll_lem :
      (env : Env) (s s' : Session K M)
      → s.state.connected ≡ true
      → poll port decode fsm_feed env s ≡ some s'
      → (t : Session K M) × (feed_events port decode fsm_feed env
            (read_new_data port decode fsm_feed s)
          ≡ some t)
        × IsKept t s'
  unfolding poll
  poll_lem env s s' h e =
      let (t, h1, h2) =
        bind-some (feed_events port decode fsm_feed env (read_new_data port decode fsm_feed s)) _ s'
          (sym (if-false (not s.state.connected) _ _ (ap not h)) ∙ e) in
      (
        t,
        h1,
        subst (IsKept t) (some-injective h2) (
            IsKept-trans (send_response-IsKept port decode fsm_feed env t)
              (finish-IsKept port decode fsm_feed env (send_response port decode fsm_feed env t))),
      )

  abbrev IsInProgress : SdpPacket → Type 0
  IsInProgress p = IsValid p × (in_progress p.state ≡ true)

  feed_message-packet :
      (env : Env) (s s' : Session K M)
      → feed_message port decode fsm_feed env s ≡ some s'
      → IsInProgress s.packet ⊎ (s.packet.state ≡ PacketState.complete)
      → IsInProgress s'.packet
  unfolding feed_message
  feed_message-packet env s s' h (inl ready) =
      subst IsInProgress (sym (feed_message-incomplete env s s' (not-complete s.packet ready.1) h))
        ready
    where
      not-complete : (p : SdpPacket) → in_progress p.state ≡ true → is_complete p.state ≡ false
      not-complete p e = ground arith
  feed_message-packet env s s' h (inr done) =
      let (_, _, _, e) =
        deliver_lem env (decode (get_payload_type s.packet) (get_payload s.packet)) s s'
          (sym (if-true (is_complete s.packet.state) _ _ (ap is_complete done)) ∙ h) in
      subst (λ t. IsInProgress t.packet) e (new_packet-IsValid, refl)

  read_single-packet :
      (k : K) (p : SdpPacket)
      → IsReader port.read
      → IsInProgress p
      → let q = (read_single_sdp_packet port.read k p).packet in
        IsInProgress q ⊎ (q.state ≡ PacketState.complete)
  unfolding new_packet
  read_single-packet k p reader (v, e) =
      let r = read_single_sdp_packet port.read k p in
      let valid = read_single_sdp_packet-IsValid port.read reader k p v in
      let (blocked, read) = read_single_sdp_packet-state port.read reader k p v e in
      elim (Bool-cases r.would_block) [
        | inl b ↦ inl (valid, blocked b)
        | inr b ↦ elim (read b) [
          | inl done ↦ inr done
          | inr fresh ↦ inl (subst IsInProgress (sym fresh) (new_packet-IsValid, refl))
        ]
      ]

  read_new_data-packet :
      (s : Session K M)
      → IsReader port.read
      → IsInProgress s.packet
      → let p = (read_new_data port decode fsm_feed s).packet in
        IsInProgress p ⊎ (p.state ≡ PacketState.complete)
  unfolding read_new_data
  read_new_data-packet s reader h = elim (Bool-cases s.state.new_data) [
    | inl b ↦
        subst (λ (t : Session K M). IsInProgress t.packet ⊎ (t.packet.state ≡ PacketState.complete))
          (sym (if-true s.state.new_data _ _ b)) (read_single-packet s.connection s.packet reader h)
    | inr b ↦
        subst (λ (t : Session K M). IsInProgress t.packet ⊎ (t.packet.state ≡ PacketState.complete))
          (sym (if-false s.state.new_data _ _ b)) (inl h)
  ]

  -- A poll that ends leaves the packet valid and in progress, as the next read asserts, if it was so
  -- before and the connection's `read` keeps its promise.
  pub poll-packet :
      (env : Env) (s s' : Session K M)
      → IsReader port.read
      → IsValid s.packet
      → in_progress s.packet.state ≡ true
      → poll port decode fsm_feed env s ≡ some s'
      → IsValid s'.packet × (in_progress s'.packet.state ≡ true)
  unfolding poll
  poll-packet env s s' reader v e h = elim (Bool-cases s.state.connected) [
    | inl on ↦
        let (t, h1, kept) = poll_lem env s s' on h in
        let s1 = read_new_data port decode fsm_feed s in
        let (m, c, h2) = feed_events_lem env s1 t h1 in
        subst IsInProgress (sym kept.packet) (
          feed_message-packet env (record s1 { control_event_queue = []; fsm = m; ctx = c }) t h2
            (read_new_data-packet s reader (v, e)))
    | inr off ↦
        subst IsInProgress
          (ap (λ (t : Session K M). t.packet)
            (some-injective (sym (if-true (not s.state.connected) _ _ (ap not off)) ∙ h)))
          (v, e)
  ]
