-- ===== src/Examples/Polls.antt =====
-- A session over a connection that holds the bytes that have arrived, and over a machine that runs the
-- modelled states.
use libiso.Prelude.{
  if◌then◌else◌, ◌∙◌, ℕ, ◌≤◌, ◌<◌, ◌≡◌, ◌⊎◌, Bool, true, false, List, length, arith, refl, not,
  Option, none, some, [], ◌∷◌, ◌>>=◌, sym, ap, subst, bind-some, some-injective, ◌+◌, take, drop,
  ltb, zero, suc,
}
use libiso.Packet.{new_packet, State as PacketState}
use libiso.Packet.Bounds.{IsValid, new_packet-IsValid, in_progress}
use libiso.Packet.Reading.{ReadResult, read_single_sdp_packet}
use libiso.Packet.Reading.Progress.{IsReader, read_single_sdp_packet-state}
use libiso.Message.{Message, MessageType, PayloadType}
use libiso.Context.{Env, Context, Event, StateId, Fed, Feedback, Signal}
use libiso.States.Machine.{State, feed, create}
use libiso.Iso.Types.{Transport, Session, Handled, ConnectionEvent}
use libiso.Iso.{poll, finish, close_at, read_new_data}
use mathlib.Core.Option.{get_or}
use libiso.States.CableCheck
use libiso.Packet.Reading.Progress.{IsReader, read_single_sdp_packet-state}
use libiso.Iso.Progress.{IsMachine, poll-packet}
use libiso.Iso.Settled.{poll_settled}
use libiso.States.Machine.Order.{rank}
use libiso.States.Machine.Transitions.{id_of}
use libiso.Iso.Deadline.{poll-sequence}
use libiso.Timeouts.{no_timeouts}
use libiso.Iso.Close.{finish-finish}
use libiso.Examples.Data.{here, idle_exchange, own_context, cable_check}

-- A `read` that takes what has arrived.
abbrev read_some : ℕ → List ℕ → ReadResult (List ℕ)
read_some n k = record {
  would_block = ltb (length (take n k)) n;
  bytes = take n k;
  connection = drop n k;
}

length_take : (n : ℕ) (k : List ℕ) → length (take n k) ≤ n
length_take zero k = ground arith
length_take (suc n) [] = ground arith
length_take (suc n) (x ∷ k) = omega (arith, length_take n k)

read_some-IsReader : IsReader read_some
read_some-IsReader = record { at_most = length_take; would_block_lem = λ n k. ground arith }

abbrev wire : Transport (List ℕ)
wire = record {
  read = read_some;
  write = λ header size k. k;
  close = λ k. record { connection = []; events = ConnectionEvent.closed ∷ [] };
  get_vehicle_cert_hash = λ _. none;
}

abbrev decode : ℕ → List ℕ → Message
decode type payload = Message.dc_cable_check cable_check

abbrev next_state : Fed State → Bool → Option StateId → State
unfolding create
next_state f true id = f.self
next_state f false none = f.self
next_state f false (some id) = create id f.ctx

abbrev moved : Fed State → Handled State
unfolding create
moved f = record {
  handled = not f.result.unhandled;
  fsm = next_state f f.result.unhandled f.result.new_state;
  ctx = f.ctx;
}

-- A machine that is its state.
unfoldable run_state : Env → Event → State → Context → Option (Handled State)
unfolding feed create
run_state env ev m c = feed env ev m c >>= λ f. some (moved f)

abbrev itself : State → State
itself m = m

next_state_lem :
    (f : Fed State) (unhandled : Bool) (new_state : Option StateId) (id : StateId)
    → unhandled ≡ false
    → new_state ≡ some id
    → create id f.ctx ≡ next_state f unhandled new_state
unfolding next_state create
next_state_lem f unhandled new_state id h e = rw (h, e) refl

next_state_stays :
    (f : Fed State) (unhandled : Bool) (new_state : Option StateId)
    → unhandled ≡ true
    → next_state f unhandled new_state ≡ f.self
unfolding next_state create
next_state_stays f unhandled new_state h = rw h refl

run_state-IsMachine : IsMachine run_state itself
unfolding run_state
run_state-IsMachine = record {
  feed_lem = λ env ev m c r e.
      let (f, h, k) = bind-some (feed env ev m c) _ r e in
      let q = some-injective k in
      (
        f,
        h,
        sym (ap (λ (t : Handled State). t.ctx) q),
        sym (ap (λ (t : Handled State). t.handled) q),
        λ id u n.
            subst (λ (t : Handled State). create id t.ctx ≡ t.fsm) q
              (next_state_lem f f.result.unhandled f.result.new_state id u n),
        λ u.
            ap (λ (t : Handled State). t.fsm) (sym q)
            ∙ next_state_stays f f.result.unhandled f.result.new_state u,
      );
}

-- The header of a packet with one byte of payload, and that byte.
abbrev arrived : List ℕ
arrived = 1 ∷ 254 ∷ 128 ∷ 4 ∷ 0 ∷ 0 ∷ 0 ∷ 1 ∷ 42 ∷ []

abbrev polling : Session (List ℕ) State
unfolding new_packet
polling = record {
  connection = arrived;
  state = record { connected = true; new_data = true };
  packet = new_packet;
  delayed_close_at = none;
  control_event_queue = [];
  ctx = own_context;
  fsm = State.dc_cable_check (record { cable_check_initiated = false; cable_check_done = true });
  next_session_event = 0;
}

abbrev polled : Session (List ℕ) State
unfolding poll
polled = get_or (poll wire decode run_state here polling) polling

abbrev later : Env
later = record here { now = 6000000000 }

abbrev stopping : Session (List ℕ) State
stopping = record polling { ctx = record own_context { session_stopped = true } }

abbrev answering : Session (List ℕ) State
answering = record polling {
  ctx = record own_context {
    message_exchange = record idle_exchange {
      response_size = 12;
      response_available = true;
      payload_type = some PayloadType.part20_dc;
      response_type = some MessageType.dc_cable_check_res;
    };
  };
}

read_single_sdp_packet-state_example :
    let r = read_single_sdp_packet read_some arrived new_packet in
    (r.would_block ≡ true → in_progress r.packet.state ≡ true)
    × (r.would_block ≡ false → (r.packet.state ≡ PacketState.complete) ⊎ (r.packet ≡ new_packet))
unfolding new_packet
read_single_sdp_packet-state_example =
    read_single_sdp_packet-state read_some read_some-IsReader arrived new_packet new_packet-IsValid
      refl

poll-packet_example : IsValid polled.packet × (in_progress polled.packet.state ≡ true)
unfolding poll new_packet polled run_state CableCheck.feed
poll-packet_example =
    poll-packet wire decode run_state here polling polled read_some-IsReader new_packet-IsValid refl
      refl

poll_settled_example :
    (polled.ctx.session_stopped ≡ true)
    ⊎ ((id : StateId) × (c : Context) × (create id c ≡ itself polled.fsm)
        × (rank (id_of (itself polling.fsm)) < rank (id_of (itself polled.fsm))))
unfolding poll read_new_data new_packet polled run_state CableCheck.feed
poll_settled_example =
    poll_settled wire decode run_state itself run_state-IsMachine here polling polled refl refl refl

abbrev set_to_close : Session (List ℕ) State
set_to_close = record stopping { delayed_close_at = some 5000009000 }

finish-finish_example :
    let at = here.now + 5000000000 in
    let s' = finish wire decode run_state here stopping in
    let u = finish wire decode run_state later set_to_close in
    (s'.connection ≡ stopping.connection)
    × (s'.ctx ≡ stopping.ctx)
    × (s'.delayed_close_at ≡ some at)
    × (((later.now < at)
          × (u.connection ≡ set_to_close.connection)
          × (u.ctx ≡ set_to_close.ctx)
          × (u.delayed_close_at ≡ some at))
        ⊎ ((at ≤ later.now)
            × (u.connection ≡ (wire.close set_to_close.connection).connection)
            × (u.delayed_close_at ≡ none)
            × (u.ctx.calls
                ≡ Feedback.signal (
                    if set_to_close.ctx.session_paused
                    then Signal.dlink_pause
                    else Signal.dlink_terminate)
                  ∷ set_to_close.ctx.calls)))
unfolding polling finish close_at
finish-finish_example =
    finish-finish wire decode run_state here later stopping set_to_close refl refl refl refl

abbrev overdue : Session (List ℕ) State
unfolding polling
overdue = record polling {
  ctx = record own_context { timeouts = record no_timeouts { sequence = some 10 } };
}

abbrev overdue_polled : Session (List ℕ) State
unfolding poll
overdue_polled = get_or (poll wire decode run_state here overdue) overdue

poll-sequence_example : overdue_polled.ctx.session_stopped ≡ true
unfolding poll polling overdue overdue_polled run_state CableCheck.feed
poll-sequence_example =
    poll-sequence wire decode run_state itself run_state-IsMachine here overdue overdue_polled 10
      refl refl refl (omega arith) refl
