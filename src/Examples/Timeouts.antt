-- ===== src/Examples/Timeouts.antt =====
-- Timeouts that are reached one by one and at once.
use libiso.Prelude.{◌≤◌, ◌==◌, ◌≡◌, refl, not, ◌&&◌, some, arith}
use libiso.Timeouts.{TimeoutType, Timeouts, timeout_index, slot, is_reached, check, no_timeouts}
use libiso.Timeouts.Map.{reports}
use libiso.Timeouts.Check.{shadowed, check_exact, check_drops}

abbrev one : Timeouts
one = record no_timeouts { ongoing = some 50; sequence = some 60 }

abbrev two : Timeouts
two = record no_timeouts { ongoing = some 50; sequence = some 50 }

check_exact_example :
    reports (check 100 two) TimeoutType.ongoing
    ≡ (is_reached 100 (slot two TimeoutType.ongoing) && not (shadowed two TimeoutType.ongoing))
check_exact_example = check_exact 100 two TimeoutType.ongoing

check_drops_example :
    (first : TimeoutType) × (slot two first ≡ some 50)
    × ((other : TimeoutType)
        → slot two other ≡ some 50
        → (timeout_index first ≤ timeout_index other)
          × (reports (check 100 two) other ≡ (timeout_index other == timeout_index first)))
check_drops_example = check_drops 100 two 50 TimeoutType.ongoing refl (omega arith)
