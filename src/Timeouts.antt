-- ===== src/Timeouts.antt =====
-- include/iso15118/d20/timeout.hpp, src/iso15118/d20/timeout.cpp and the `Timeout` of
-- include/iso15118/io/time.hpp. A time point is the steady clock's count of nanoseconds, which
-- does not wrap here; the clock is read by the caller and handed over.
pub mod Map
pub mod Check
use libiso.Prelude.{
  ℕ, ◌+◌, ◌*◌, Bool, true, false, ◌&&◌, Option, none, some, List, [], ◌∷◌, map, ltb, leb, ◌==◌,
  if◌then◌else◌, has_value,
}

abbrev pub TimePoint : Type 0
TimePoint = ℕ

pub data TimeoutType : Type 0 where
  sequence performance ongoing contactor : TimeoutType

-- `to_underlying_value`.
abbrev pub timeout_index : TimeoutType → ℕ
timeout_index TimeoutType.sequence = 0
timeout_index TimeoutType.performance = 1
timeout_index TimeoutType.ongoing = 2
timeout_index TimeoutType.contactor = 3

abbrev pub timeout_ongoing : ℕ
timeout_ongoing = 55000

abbrev pub timeout_sequence : ℕ
timeout_sequence = 60000

abbrev pub timeout_eim_ongoing : ℕ
timeout_eim_ongoing = 180000

-- The array of four slots, each with the point at which its timeout is reached.
pub record Timeouts : Type 0 where
  pub sequence : Option TimePoint
  pub performance : Option TimePoint
  pub ongoing : Option TimePoint
  pub contactor : Option TimePoint

abbrev pub no_timeouts : Timeouts
no_timeouts = record { sequence = none; performance = none; ongoing = none; contactor = none }

-- `timeouts.at(type)`, read and written.
abbrev pub slot : Timeouts → TimeoutType → Option TimePoint
slot t TimeoutType.sequence = t.sequence
slot t TimeoutType.performance = t.performance
slot t TimeoutType.ongoing = t.ongoing
slot t TimeoutType.contactor = t.contactor

abbrev pub set_slot : Timeouts → TimeoutType → Option TimePoint → Timeouts
set_slot t TimeoutType.sequence p = record t { sequence = p }
set_slot t TimeoutType.performance p = record t { performance = p }
set_slot t TimeoutType.ongoing p = record t { ongoing = p }
set_slot t TimeoutType.contactor p = record t { contactor = p }

-- `Timeout(timeout_ms)` at the time `now`, and `is_reached`.
abbrev pub timeout_point : TimePoint → ℕ → TimePoint
timeout_point now ms = now + ms * 1000000

abbrev pub is_reached : TimePoint → Option TimePoint → Bool
is_reached now none = false
is_reached now (some p) = leb p now

-- A timeout that runs already is left alone.
unfoldable pub start_timeout : TimePoint → TimeoutType → ℕ → Timeouts → Timeouts
start_timeout now type ms t =
    if has_value (slot t type) then t else set_slot t type (some (timeout_point now ms))

unfoldable pub stop_timeout : TimeoutType → Timeouts → Timeouts
stop_timeout type t = set_slot t type none

unfoldable pub reset_timeout : TimeoutType → Timeouts → Timeouts
reset_timeout type t = set_slot t type none

-- `std::map<TimePoint, TimeoutType>::insert`: in the order of the keys, and without effect if the
-- key is there.
unfoldable pub insert_point :
    TimePoint → TimeoutType → List (TimePoint × TimeoutType) → List (TimePoint × TimeoutType)
insert_point p type [] = (p, type) ∷ []
insert_point p type ((q, other) ∷ m) =
    if ltb p q
    then (p, type) ∷ (q, other) ∷ m
    else if p == q
    then (q, other) ∷ m
    else (q, other) ∷ insert_point p type m

-- One round of the loop in `check`, over a slot.
unfoldable pub add_slot :
    TimePoint
    → Option TimePoint
    → TimeoutType
    → List (TimePoint × TimeoutType)
    → List (TimePoint × TimeoutType)
add_slot now none type m = m
add_slot now (some p) type m = if leb p now then insert_point p type m else m

unfoldable pub active_timeouts : TimePoint → Timeouts → List (TimePoint × TimeoutType)
active_timeouts now t = add_slot now t.contactor TimeoutType.contactor (
    add_slot now t.ongoing TimeoutType.ongoing (
      add_slot now t.performance TimeoutType.performance
        (add_slot now t.sequence TimeoutType.sequence [])))

unfoldable pub types_of : List (TimePoint × TimeoutType) → List TimeoutType
types_of [] = []
types_of ((_, type) ∷ m) = type ∷ types_of m

-- `reached` is set by the first insertion, so it says whether the map holds anything.
abbrev pub some_if_any : List TimeoutType → Option (List TimeoutType)
some_if_any [] = none
some_if_any (type ∷ types) = some (type ∷ types)

unfoldable pub check : TimePoint → Timeouts → Option (List TimeoutType)
unfolding active_timeouts types_of insert_point add_slot
check now t = some_if_any (types_of (active_timeouts now t))
