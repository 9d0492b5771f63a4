-- ===== src/Iso/Deadline.antt =====
-- src/iso15118/session/iso.cpp. The sequence timeout from the slot of `Timeouts` to the end of a poll.
use libiso.Prelude.{
  ℕ, ◌≤◌, ◌≡◌, refl, sym, ap, ◌≢◌, ◌∙◌, ◌⊎◌, inl, inr, Bool, true, false, Option, none, some, List,
  [], ◌∷◌, arith, bind-some, some-injective, if-true, if-false, Bool-cases,
}
use libiso.Message.{Message}
use libiso.Exchange.{MessageExchange, set_request}
use libiso.Config.{ControlEvent}
use libiso.Packet.{is_complete, get_payload, get_payload_type}
use libiso.Timeouts.{Timeouts, TimePoint, TimeoutType, check}
use libiso.Timeouts.Map.{lists, reports}
use libiso.Timeouts.Check.{check_exact}
use libiso.Context.{Env, Context, Event}
use libiso.States.Machine.{State}
use libiso.States.Machine.Flags.{feed-IsStopping}
use libiso.Iso.Types.{Transport, Session, Handled}
use libiso.Iso.{
  poll, feed_timeouts, feed_events, feed_message, feed_control_events, announce, deliver,
  read_new_data, stop_unless, reached,
}
use libiso.Iso.Progress.{IsMachine, poll_lem}

stop_unless_stopped :
    (b : Bool) (c : Context) → c.session_stopped ≡ true → (stop_unless b c).session_stopped ≡ true
stop_unless_stopped true c h = h
stop_unless_stopped false c h = refl

is_due :
    (now : TimePoint) (t : Timeouts) (p : TimePoint)
    → t.sequence ≡ some p
    → p ≤ now
    → reports (check now t) TimeoutType.sequence ≡ true
is_due now t p e h = ground (arith, check_exact now t TimeoutType.sequence)

cons≢nil : {A : Type 0} {x : A} {xs : List A} → (x ∷ xs) ≢ []
cons≢nil e = cc

module _ {K M : Type 0} (port : Transport K) (decode : ℕ → List ℕ → Message)
    (fsm_feed : Env → Event → M → Context → Option (Handled M)) (current : M → State)
    (machine : IsMachine fsm_feed current) where
  feed_stopped :
      (env : Env) (ev : Event) (m : M) (c : Context) (r : Handled M)
      → c.session_stopped ≡ true
      → fsm_feed env ev m c ≡ some r
      → r.ctx.session_stopped ≡ true
  feed_stopped env ev m c r h e =
      let (f, e1, same, _, _, _) = machine.feed_lem env ev m c r e in
      ap (λ (t : Context). t.session_stopped) same ∙ (feed-IsStopping env ev (current m) c e1).0 h

  still_due :
      (env : Env) (ts : List TimeoutType) (m : M) (c : Context) (t : TimeoutType) (r : Handled M)
      → (lists ts TimeoutType.sequence ≡ true) ⊎ (c.session_stopped ≡ true)
      → fsm_feed env Event.timeout m (record c { current_timeout = some t }) ≡ some r
      → (lists ts TimeoutType.sequence ≡ true)
        ⊎ ((stop_unless r.handled r.ctx).session_stopped ≡ true)
  still_due env ts m c t r (inl due) e = inl due
  still_due env ts m c t r (inr s) e = inr (
      stop_unless_stopped r.handled r.ctx
        (feed_stopped env Event.timeout m (record c { current_timeout = some t }) r s e))

  feed_timeouts_stops :
      (env : Env) (ts : List TimeoutType) (m : M) (c : Context) (r : M × Context)
      → (lists ts TimeoutType.sequence ≡ true) ⊎ (c.session_stopped ≡ true)
      → feed_timeouts port decode fsm_feed env ts m c ≡ some r
      → r.1.session_stopped ≡ true
  unfolding feed_timeouts
  feed_timeouts_stops env [] m c r (inl n) e = ground arith
  feed_timeouts_stops env [] m c r (inr s) e =
      ap (λ (t : M × Context). t.1.session_stopped) (sym (some-injective e)) ∙ s
  feed_timeouts_stops env (TimeoutType.sequence ∷ ts) m c r h e =
      ap (λ (t : M × Context). t.1.session_stopped) (sym (some-injective e))
  feed_timeouts_stops env (TimeoutType.performance ∷ ts) m c r h e =
      let (q, h1, h2) =
        bind-some
          (fsm_feed env Event.timeout m
            (record c { current_timeout = some TimeoutType.performance }))
          _ r e in
      feed_timeouts_stops env ts q.fsm _ r (still_due env ts m c TimeoutType.performance q h h1) h2
  feed_timeouts_stops env (TimeoutType.ongoing ∷ ts) m c r h e =
      let (q, h1, h2) =
        bind-some
          (fsm_feed env Event.timeout m (record c { current_timeout = some TimeoutType.ongoing })) _
          r e in
      feed_timeouts_stops env ts q.fsm _ r (still_due env ts m c TimeoutType.ongoing q h h1) h2
  feed_timeouts_stops env (TimeoutType.contactor ∷ ts) m c r h e =
      let (q, h1, h2) =
        bind-some
          (fsm_feed env Event.timeout m (record c { current_timeout = some TimeoutType.contactor }))
          _ r e in
      feed_timeouts_stops env ts q.fsm _ r (still_due env ts m c TimeoutType.contactor q h h1) h2

  lists-reached :
      (o : Option (List TimeoutType)) (t : TimeoutType)
      → lists (reached port decode fsm_feed o) t ≡ reports o t
  lists-reached none t = refl
  lists-reached (some ts) t = refl

  announced :
      (e : MessageExchange) (c : Context)
      → (announce port decode fsm_feed e c).session_stopped ≡ c.session_stopped
  unfolding announce
  announced e c = ground arith

  deliver_stopped :
      (env : Env) (s s' : Session K M)
      → s.ctx.session_stopped ≡ true
      → feed_message port decode fsm_feed env s ≡ some s'
      → s'.ctx.session_stopped ≡ true
  unfolding feed_message deliver
  deliver_stopped env s s' h e = elim (Bool-cases (is_complete s.packet.state)) [
    | inl done ↦
        let h1 = sym (if-true (is_complete s.packet.state) _ _ done) ∙ e in
        let (x, _, h2) =
          bind-some
            (set_request (decode (get_payload_type s.packet) (get_payload s.packet))
              s.ctx.message_exchange)
            _ s' h1 in
        let c = announce port decode fsm_feed x s.ctx in
        let (r, h3, h4) = bind-some (fsm_feed env Event.v2gtp_message s.fsm c) _ s' h2 in
        ap (λ (t : Session K M). t.ctx.session_stopped) (sym (some-injective h4))
        ∙ stop_unless_stopped r.handled r.ctx
            (feed_stopped env Event.v2gtp_message s.fsm c r (announced x s.ctx ∙ h) h3)
    | inr part ↦
        ap (λ (t : Session K M). t.ctx.session_stopped)
          (sym (some-injective (sym (if-false (is_complete s.packet.state) _ _ part) ∙ e)))
        ∙ h
  ]

  read_new_data-ctx :
      (s : Session K M)
      → let t = read_new_data port decode fsm_feed s in
        (t.ctx ≡ s.ctx) × (t.control_event_queue ≡ s.control_event_queue)
  unfolding read_new_data
  read_new_data-ctx s = elim (Bool-cases s.state.new_data) [
    | inl b ↦ rw b (refl, refl)
    | inr b ↦ rw b (refl, refl)
  ]

  nothing_queued :
      (env : Env) (q : List ControlEvent) (m : M) (c : Context) (r : M × Context)
      → q ≡ []
      → feed_control_events port decode fsm_feed env q m c ≡ some r
      → r.1 ≡ c
  unfolding feed_control_events
  nothing_queued env [] m c r n e = ap (λ (t : M × Context). t.1) (sym (some-injective e))
  nothing_queued env (x ∷ q) m c r n e = elim (cons≢nil n) [ ]

  -- A poll of a connected session that ends at or after the point of the sequence timeout, with no
  -- control event queued, has stopped the session, whatever message came with it.
  pub poll-sequence :
      (env : Env) (s s' : Session K M) (p : TimePoint)
      → s.state.connected ≡ true
      → s.control_event_queue ≡ []
      → s.ctx.timeouts.sequence ≡ some p
      → p ≤ env.now
      → poll port decode fsm_feed env s ≡ some s'
      → s'.ctx.session_stopped ≡ true
  unfolding feed_events
  poll-sequence env s s' p on quiet set late h =
      let (t, h1, kept) = poll_lem port decode fsm_feed env s s' on h in
      let s1 = read_new_data port decode fsm_feed s in
      let (same, queue) = read_new_data-ctx s in
      let (fed, h2, h3) =
        bind-some
          (feed_control_events port decode fsm_feed env s1.control_event_queue s1.fsm s1.ctx) _ t
          h1 in
      let here =
        nothing_queued env s1.control_event_queue s1.fsm s1.ctx fed (queue ∙ quiet) h2 ∙ same in
      let ts = reached port decode fsm_feed (check env.now fed.1.timeouts) in
      let (ended, h4, h5) =
        bind-some (feed_timeouts port decode fsm_feed env ts fed.0 fed.1) _ t h3 in
      let due =
        lists-reached (check env.now fed.1.timeouts) TimeoutType.sequence
        ∙ is_due env.now fed.1.timeouts p (ap (λ (c : Context). c.timeouts.sequence) here ∙ set)
            late in
      kept.stopped
      ∙ deliver_stopped env (record s1 { control_event_queue = []; fsm = ended.0; ctx = ended.1 }) t
          (feed_timeouts_stops env ts fed.0 fed.1 ended (inl due) h4) h5
