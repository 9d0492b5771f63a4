-- ===== src/Iso/Settled.antt =====
-- src/iso15118/session/iso.cpp: which state a poll leaves the machine in.
use libiso.Prelude.{
  ◌≡◌, ◌≤◌, ◌<◌, refl, ◌⊎◌, inl, inr, true, false, not, Option, some, has_value, List, [], ◌∷◌,
  arith, ℕ, Option-cases, sym, ap, subst, ◌∙◌, if-true, bind-some, some-injective,
}
use libiso.Packet.{State as PacketState, is_complete}
use libiso.Message.{Message}
use libiso.Config.{ControlEvent}
use libiso.Timeouts.{TimeoutType, check}
use libiso.Context.{Env, Context, Event, StateId}
use libiso.States.Machine.{State, create}
use libiso.States.Machine.Order.{rank, rank-Follows}
use libiso.States.Machine.Transitions.{id_of, feed-Follows}
use libiso.States.Machine.Results.{feed_settled}
use libiso.States.Machine.Runs.{id_of-create, feed-id_of}
use libiso.Iso.Types.{Transport, Session, Handled}
use libiso.Iso.{
  poll, feed_events, feed_message, deliver, read_new_data, feed_control_events, feed_timeouts,
  reached,
}
use libiso.Iso.Progress.{IsMachine, deliver_lem, poll_lem}

module _ {K M : Type 0} (port : Transport K) (decode : ℕ → List ℕ → Message)
    (fsm_feed : Env → Event → M → Context → Option (Handled M)) (current : M → State)
    (machine : IsMachine fsm_feed current) where
  -- How far a session with this machine has come.
  abbrev progress : M → ℕ
  progress m = rank (id_of (current m))

  -- A machine that is fed has stayed in its state, and says that the event was not handled, or it has
  -- entered a later state, newly made.
  fed_moves :
      (env : Env) (ev : Event) (m : M) (c : Context) (r : Handled M)
      → fsm_feed env ev m c ≡ some r
      → ((r.handled ≡ false) × (progress r.fsm ≡ progress m))
        ⊎ ((id : StateId) × (create id r.ctx ≡ current r.fsm) × (progress m < progress r.fsm))
  fed_moves env ev m c r h =
      let (f, fed, ctx, handled, entered, stays) = machine.feed_lem env ev m c r h in
      let unhandled = feed_settled env ev (current m) c fed in
      elim (Option-cases f.result.new_state) [
        | inl none_new ↦
            let idle = unhandled ∙ ap (λ o. not (has_value o)) none_new in
            inl (
              handled ∙ ap not idle,
              ap (λ x. rank (id_of x)) (stays idle)
                  ∙ ap rank (feed-id_of env ev (current m) c f fed),
            )
        | inr (id, moves) ↦
            let busy = unhandled ∙ ap (λ o. not (has_value o)) moves in
            let made = entered id busy moves in
            let where_now : id_of (current r.fsm) ≡ id =
              ap id_of (sym made) ∙ id_of-create id r.ctx in
            inr (
              id,
              made,
              subst (λ i. progress m < rank i) (sym where_now)
                  (rank-Follows (feed-Follows env ev (current m) c fed moves)),
            )
      ]

  fed_on :
      (env : Env) (ev : Event) (m : M) (c : Context) (r : Handled M)
      → fsm_feed env ev m c ≡ some r
      → progress m ≤ progress r.fsm
  fed_on env ev m c r h = elim (fed_moves env ev m c r h) [
    | inl (_, same) ↦ omega (arith, same)
    | inr (_, _, later) ↦ omega (arith, later)
  ]

  control_on :
      (env : Env) (es : List ControlEvent) (m m' : M) (c c' : Context)
      → feed_control_events port decode fsm_feed env es m c ≡ some (m', c')
      → progress m ≤ progress m'
  unfolding feed_control_events
  control_on env [] m m' c c' h =
      omega (arith, ap (λ (x : M × Context). progress x.0) (some-injective h))
  control_on env (e ∷ es) m m' c c' h =
      let (r, h1, h2) = bind-some (fsm_feed env Event.control_message m _) _ (m', c') h in
      omega
        (arith, fed_on env Event.control_message m _ r h1, control_on env es r.fsm m' r.ctx c' h2)

  timeouts_on :
      (env : Env) (ts : List TimeoutType) (m m' : M) (c c' : Context)
      → feed_timeouts port decode fsm_feed env ts m c ≡ some (m', c')
      → progress m ≤ progress m'
  unfolding feed_timeouts
  timeouts_on env [] m m' c c' h =
      omega (arith, ap (λ (x : M × Context). progress x.0) (some-injective h))
  timeouts_on env (TimeoutType.sequence ∷ ts) m m' c c' h =
      omega (arith, ap (λ (x : M × Context). progress x.0) (some-injective h))
  timeouts_on env (t ∷ ts) m m' c c' h =
      let (r, h1, h2) = bind-some (fsm_feed env Event.timeout m _) _ (m', c') h in
      omega (arith, fed_on env Event.timeout m _ r h1, timeouts_on env ts r.fsm m' _ c' h2)

  events_on :
      (env : Env) (s s' : Session K M)
      → feed_events port decode fsm_feed env s ≡ some s'
      → (m : M) × (c : Context) × (progress s.fsm ≤ progress m)
        × (feed_message port decode fsm_feed env
              (record s { control_event_queue = []; fsm = m; ctx = c })
            ≡ some s')
  unfolding feed_events
  events_on env s s' h =
      let ((m, c), h0, h1) =
        bind-some (feed_control_events port decode fsm_feed env s.control_event_queue s.fsm s.ctx) _
          s' h in
      let ts = reached port decode fsm_feed (check env.now c.timeouts) in
      let ((m1, c1), h2, h3) = bind-some (feed_timeouts port decode fsm_feed env ts m c) _ s' h1 in
      (
        m1,
        c1,
        omega (
          arith,
          control_on env s.control_event_queue s.fsm m s.ctx c h0,
          timeouts_on env ts m m1 c c1 h2,
        ),
        h3,
      )

  -- What a session has become since its machine was `m`: it is stopped, or its machine is in a newly
  -- made state that is later in the order of the states.
  abbrev pub IsSettled : M → Session K M → Type 0
  IsSettled m s =
      (s.ctx.session_stopped ≡ true)
      ⊎ ((id : StateId) × (c : Context) × (create id c ≡ current s.fsm)
          × (progress m < progress s.fsm))

  deliver-IsSettled :
      (env : Env) (m : Message) (s s' : Session K M)
      → deliver port decode fsm_feed env m s ≡ some s'
      → IsSettled s.fsm s'
  deliver-IsSettled env m s s' h =
      let (c, r, h1, e) = deliver_lem port decode fsm_feed env m s s' h in
      subst (IsSettled s.fsm) e (elim (fed_moves env Event.v2gtp_message s.fsm c r h1) [
        | inl (idle, _) ↦ inl (rw idle refl)
        | inr (id, made, later) ↦ inr (id, r.ctx, made, later)
      ])

  read_new_data-fsm : (s : Session K M) → (read_new_data port decode fsm_feed s).fsm ≡ s.fsm
  unfolding read_new_data
  read_new_data-fsm s = ground arith

  -- With a machine that runs the states as modelled: a poll that ends and had a complete packet has
  -- either stopped the session, or left the machine in a newly made state that is later in the
  -- order of the states than the one before the poll. So a request after which the session is in
  -- the state that it was in stops the session, also where the code means to stay in that state.
  pub poll_settled :
      (env : Env) (s s' : Session K M)
      → s.state.connected ≡ true
      → (read_new_data port decode fsm_feed s).packet.state ≡ PacketState.complete
      → poll port decode fsm_feed env s ≡ some s'
      → (s'.ctx.session_stopped ≡ true)
        ⊎ ((id : StateId) × (c : Context) × (create id c ≡ current s'.fsm)
            × (rank (id_of (current s.fsm)) < rank (id_of (current s'.fsm))))
  unfolding feed_message read_new_data
  poll_settled env s s' on full h =
      let (t, h1, kept) = poll_lem port decode fsm_feed env s s' on h in
      let s1 = read_new_data port decode fsm_feed s in
      let (m, c, moved, h2) = events_on env s1 t h1 in
      let settled =
        deliver-IsSettled env _ (record s1 { control_event_queue = []; fsm = m; ctx = c }) t
          (sym (if-true (is_complete s1.packet.state) _ _ (ap is_complete full)) ∙ h2) in
      elim settled [
        | inl stopped ↦ inl (kept.stopped ∙ stopped)
        | inr (id, c', made, later) ↦ inr (
          id,
          c',
          made ∙ ap current (sym kept.fsm),
          omega (arith, later, moved, ap progress kept.fsm, ap progress (read_new_data-fsm s)),
        )
      ]
