-- ===== src/Iso/Close.antt =====
-- src/iso15118/session/iso.cpp. The end of a poll: the response that is sent, and the delayed close.
use libiso.Prelude.{
  ℕ, ◌+◌, ◌≤◌, ◌<◌, ◌≡◌, ◌⊎◌, inl, inr, refl, ◌∙◌, ap, true, false, ◌||◌, Option, none, some, List,
  [], ◌∷◌, arith, if◌then◌else◌, leb, Bool-cases,
}
use libiso.Message.{Message}
use libiso.Context.{Env, Context, Event, Feedback, Signal}
use libiso.Iso.Types.{ConnectionEvent, Transport, Session, Handled}
use libiso.Iso.{
  finish, close_at, close_now, close_connection, send_response, handle_connection_event,
  handle_connection_events,
}

module _ {K M : Type 0} (port : Transport K) (decode : ℕ → List ℕ → Message)
    (fsm_feed : Env → Event → M → Context → Option (Handled M)) where
  abbrev IsClosing : Session K M → Session K M → Type 0
  IsClosing s t =
      (t.connection ≡ s.connection)
      × (t.delayed_close_at ≡ s.delayed_close_at)
      × (t.ctx.session_stopped ≡ s.ctx.session_stopped)
      × (t.ctx.session_paused ≡ s.ctx.session_paused)
      × (t.ctx.calls ≡ s.ctx.calls)

  handle_connection_event-IsClosing :
      (e : ConnectionEvent) (s : Session K M)
      → IsClosing s (handle_connection_event port decode fsm_feed e s)
  unfolding handle_connection_event
  handle_connection_event-IsClosing ConnectionEvent.opened s = ground arith
  handle_connection_event-IsClosing e s = ground arith

  handle_connection_events-IsClosing :
      (es : List ConnectionEvent) (s : Session K M)
      → IsClosing s (handle_connection_events port decode fsm_feed es s)
  unfolding handle_connection_events
  handle_connection_events-IsClosing [] s = ground arith
  handle_connection_events-IsClosing (e ∷ es) s =
      let t = handle_connection_event port decode fsm_feed e s in
      let (k, d, x, y, c) = handle_connection_event-IsClosing e s in
      let (k', d', x', y', c') = handle_connection_events-IsClosing es t in
      (k' ∙ k, d' ∙ d, x' ∙ x, y' ∙ y, c' ∙ c)

  -- Closing the connection calls its `close` and signals once that the link pauses or terminates.
  close_now_lem :
      (env : Env) (s : Session K M)
      → let u = close_now port decode fsm_feed env s in
        (u.connection ≡ (port.close s.connection).connection)
        × (u.delayed_close_at ≡ none)
        × (u.ctx.session_stopped ≡ s.ctx.session_stopped)
        × (u.ctx.session_paused ≡ s.ctx.session_paused)
        × (u.ctx.calls
            ≡ Feedback.signal
                (if s.ctx.session_paused then Signal.dlink_pause else Signal.dlink_terminate)
              ∷ s.ctx.calls)
  unfolding close_now close_connection
  close_now_lem env s =
      let r = port.close s.connection in
      let (k, _, x, y, c) =
        handle_connection_events-IsClosing r.events (record s { connection = r.connection }) in
      (k, refl, x, y, rw (y, c) (ground arith))

  finish_waits :
      (env : Env) (s : Session K M)
      → (s.ctx.session_stopped || s.ctx.session_paused) ≡ true
      → s.delayed_close_at ≡ none
      → let u = finish port decode fsm_feed env s in
        (u.connection ≡ s.connection)
        × (u.ctx ≡ s.ctx)
        × (u.delayed_close_at ≡ some (env.now + 5000000000))
  unfolding finish close_at
  finish_waits env s ended waiting = ground arith

  finish_early :
      (env : Env) (at : ℕ) (s : Session K M)
      → (s.ctx.session_stopped || s.ctx.session_paused) ≡ true
      → s.delayed_close_at ≡ some at
      → leb at env.now ≡ false
      → finish port decode fsm_feed env s
        ≡ record s { delayed_close_at = some at; next_session_event = at }
  unfolding finish close_at
  finish_early env at s ended set early = rw (ended, set, early) refl

  finish_due :
      (env : Env) (at : ℕ) (s : Session K M)
      → (s.ctx.session_stopped || s.ctx.session_paused) ≡ true
      → s.delayed_close_at ≡ some at
      → leb at env.now ≡ true
      → finish port decode fsm_feed env s ≡ close_now port decode fsm_feed env s
  unfolding finish close_at
  finish_due env at s ended set due = simp (ended, set, due)

  -- A session that is stopped or paused is not closed at the end of the poll that finds it so, but
  -- its close is set for five seconds later. Whatever happens to the session after that, while it is
  -- stopped or paused and the time is kept: the end of a poll before the time leaves the connection,
  -- the context and the time as they are; one from the time on closes the connection, signals once
  -- that the link pauses or terminates, and takes the time away.
  pub finish-finish :
      (env env' : Env) (s t : Session K M)
      → (s.ctx.session_stopped || s.ctx.session_paused) ≡ true
      → s.delayed_close_at ≡ none
      → (t.ctx.session_stopped || t.ctx.session_paused) ≡ true
      → t.delayed_close_at ≡ (finish port decode fsm_feed env s).delayed_close_at
      → let at = env.now + 5000000000 in
        let u = finish port decode fsm_feed env' t in
        ((finish port decode fsm_feed env s).connection ≡ s.connection)
        × ((finish port decode fsm_feed env s).ctx ≡ s.ctx)
        × ((finish port decode fsm_feed env s).delayed_close_at ≡ some at)
        × (((env'.now < at)
              × (u.connection ≡ t.connection)
              × (u.ctx ≡ t.ctx)
              × (u.delayed_close_at ≡ some at))
            ⊎ ((at ≤ env'.now)
                × (u.connection ≡ (port.close t.connection).connection)
                × (u.delayed_close_at ≡ none)
                × (u.ctx.calls
                    ≡ Feedback.signal (
                        if t.ctx.session_paused then Signal.dlink_pause else Signal.dlink_terminate)
                      ∷ t.ctx.calls)))
  finish-finish env env' s t ended waiting ended' kept =
      let at = env.now + 5000000000 in
      let (connection, ctx, set) = finish_waits env s ended waiting in
      (
        connection,
        ctx,
        set,
        elim (Bool-cases (leb at env'.now)) [
          | inl due ↦
              let e = finish_due env' at t ended' (kept ∙ set) due in
              let (closed, gone, _, _, calls) = close_now_lem env' t in
              inr (
                ground arith,
                ap (λ (u : Session K M). u.connection) e ∙ closed,
                ap (λ (u : Session K M). u.delayed_close_at) e ∙ gone,
                ap (λ (u : Session K M). u.ctx.calls) e ∙ calls,
              )
          | inr early ↦
              let e = finish_early env' at t ended' (kept ∙ set) early in
              inl (
                ground arith,
                ap (λ (u : Session K M). u.connection) e,
                ap (λ (u : Session K M). u.ctx) e,
                ap (λ (u : Session K M). u.delayed_close_at) e,
              )
        ],
      )

  -- A response is sent once: with nothing in between, the second call writes nothing.
  pub send_response-send_response :
      (env env' : Env) (s : Session K M)
      → let t = send_response port decode fsm_feed env s in
        (send_response port decode fsm_feed env' t).connection ≡ t.connection
  unfolding send_response
  send_response-send_response env env' s = ground arith
