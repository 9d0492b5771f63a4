-- ===== src/Session/Modes.antt =====
-- Comparisons of a selection with an enumerator; a selection that was not made equals none.
use libiso.Prelude.{Bool, true, false, Option, none, some, ◌==◌}
use libiso.Message.{ServiceCategory, service_id, ControlMode, MobilityNeedsMode, AcConnector}
use libiso.Session.{Connector}

abbrev pub selects : Option ServiceCategory → ServiceCategory → Bool
selects none t = false
selects (some s) t = service_id s == service_id t

abbrev pub is_scheduled : Option ControlMode → Bool
is_scheduled (some ControlMode.scheduled) = true
is_scheduled _ = false

abbrev pub is_dynamic : Option ControlMode → Bool
is_dynamic (some ControlMode.dynamic) = true
is_dynamic _ = false

abbrev pub is_provided_by_evcc : Option MobilityNeedsMode → Bool
is_provided_by_evcc (some MobilityNeedsMode.provided_by_evcc) = true
is_provided_by_evcc _ = false

abbrev pub is_provided_by_secc : Option MobilityNeedsMode → Bool
is_provided_by_secc (some MobilityNeedsMode.provided_by_secc) = true
is_provided_by_secc _ = false

-- `std::get<dt::AcConnector>`, if the variant holds one.
abbrev pub ac_connector_of : Option Connector → Option AcConnector
ac_connector_of (some (Connector.ac c)) = some c
ac_connector_of _ = none
