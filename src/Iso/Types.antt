-- ===== src/Iso/Types.antt =====
-- include/iso15118/session/iso.hpp. The records of the session, and what it asks of the parts from outside.
use libiso.Prelude.{ℕ, Bool, Option, List}
use libiso.Config.{ControlEvent}
use libiso.Timeouts.{TimePoint}
use libiso.Packet.{SdpPacket}
use libiso.Packet.Reading.{ReadResult}
use libiso.Context.{Context}

-- `io::ConnectionEvent`.
pub data ConnectionEvent : Type 0 where
  accepted opened new_data closed : ConnectionEvent

-- The connection after it was closed, and the events that its callback is given meanwhile.
pub record Closed (K : Type 0) : Type 0 where
  pub connection : K
  pub events : List ConnectionEvent

-- `io::IConnection`: `write` is given the header, and the size of the payload that follows it.
pub record Transport (K : Type 0) : Type 0 where
  pub read : ℕ → K → ReadResult K
  pub write : List ℕ → ℕ → K → K
  pub close : K → Closed K
  pub get_vehicle_cert_hash : K → Option (List ℕ)

-- What `fsm.feed` leaves: the truth of its result, the machine, and the context.
pub record Handled (M : Type 0) : Type 0 where
  pub handled : Bool
  pub fsm : M
  pub ctx : Context

-- `fsm_needs_call` is never used.
pub record SessionState : Type 0 where
  pub connected : Bool
  pub new_data : Bool

-- The message exchange and the timeouts are those that the context refers to.
pub record Session (K : Type 0) (M : Type 0) : Type 0 where
  pub connection : K
  pub state : SessionState
  pub packet : SdpPacket
  pub delayed_close_at : Option TimePoint
  pub control_event_queue : List ControlEvent
  pub ctx : Context
  pub fsm : M
  pub next_session_event : TimePoint
