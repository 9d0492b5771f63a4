-- ===== src/Lib.antt =====
-- The charger's side of ISO 15118-20 sessions, as src/iso15118 and include/iso15118 implement it.
--
-- A `Session` (session/iso.cpp) owns a connection, a packet that is read piece by piece, a context
-- and a machine of states. Each `poll` reads what has arrived, hands queued control events, reached
-- timeouts and a complete request to the current state, writes the response that the state has left
-- in the message exchange, and closes the connection five seconds after the session was stopped or
-- paused. The states (d20/state) answer requests through the context and name the state that follows.
--
-- The modules, and the files that they are about:
--   Prelude       tests, options and lists that the other modules share
--   Message       include/iso15118/message: the requests and responses as records (Datatypes,
--                 Requests, Responses, and a module for each of the larger messages); a message
--                 that no state reads is its type
--   Floats        the comparisons of floats, which are patterns of bits
--   AcDer         d20/ac_der_control.cpp: validation of configurations, defaults, the snapshots of a
--                 charger, and the providers; laws in Laws
--   Config        include/iso15118/d20: configuration, limits, control events; d20/config.cpp in Setup
--   Session       d20/session.cpp: offered and selected services (Services), laws in Selection
--   Timeouts      d20/timeout.cpp: four slots; the ordered map of `check` in Map, laws in Check
--   Packet        io/sdp_packet.cpp and the framing of session/iso.cpp: the state of a packet, the
--                 buffer's bounds in Bounds, both ends of the header in Header, and
--                 `read_single_sdp_packet` in Reading
--   Exchange      `MessageExchange` of d20/context.cpp
--   Context       `Context` and d20/context_helper.cpp: what a state can reach; the callbacks made
--                 are a list, the latest first
--   States        d20/state: one module for each state, with `handle_request`, the handlers of its
--                 events, and `feed`; laws in the modules below each. DynamicMode and DerControl are
--                 what the schedule, the parameters and the loops share. States.Machine is the
--                 dispatch over all of them; Machine.Order is the order in which they may follow
--                 each other, Machine.Runs the sessions that they make possible
--   Iso           session/iso.cpp: `poll` in the order of the code; what a poll leaves of
--                 the packet and the flags in Progress and of the state in Settled, the delayed close in
--                 Close, the sequence timeout in Deadline
--   Examples      the theorems at concrete inputs
--
-- An exception of the code is `none`. What the code reads from outside is a parameter: the clock,
-- random bytes, the size of an encoded response, SHA-512 and the conversions of floats are fields of
-- `Env`, constant in one call; the connection, the decoder of payloads and the machine that runs the
-- states (a copy of libfsm) are parameters of Iso. What a theorem asks of them is `IsReader`, the
-- promise of a connection's `read`, and `IsMachine`, what libfsm does with the result of a state.
-- Machine integers are natural numbers: narrowings are written out where the code narrows, and
-- floats are their bit patterns. Time points are nanoseconds and do not wrap. Loops run over lists,
-- so no fuel is needed.
--
-- Not modelled are the EXI codecs, which convert field by field to the structs of a generated library,
-- the sockets, TLS, the SDP server, the controller and the logging, which are input and output. The
-- overloads of `handle_request` that only tests call, assertions and the mutex of the control event
-- queue are not modelled either.
pub mod Prelude
pub mod Floats
pub mod Message
pub mod AcDer
pub mod Session
pub mod Timeouts
pub mod Packet
pub mod Config
pub mod Exchange
pub mod Context
pub mod States
pub mod Iso
pub mod Examples
