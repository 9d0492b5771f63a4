-- ===== src/States/DynamicMode.antt =====
-- The parameters of dynamic control that a charger provides: `set_dynamic_parameters_in_res` of
-- src/iso15118/d20/state/schedule_exchange.cpp, ac_charge_loop.cpp and dc_charge_loop.cpp.
use libiso.Prelude.{ℕ, ◌-◌, ◌%◌, ◌^◌, Option, none, some, ltb, if◌then◌else◌}
use mathlib.Core.Option.{get_or}
use libiso.Message.{DynamicClResControlMode, DynamicSeResControlMode}
use libiso.Config.{UpdateDynamicModeParameters}

abbrev pub no_parameters : UpdateDynamicModeParameters
no_parameters = record { departure_time = none; target_soc = none; min_soc = none }

-- `value_or(UpdateDynamicModeParameters{})`.
abbrev pub cached_parameters : Option UpdateDynamicModeParameters → UpdateDynamicModeParameters
cached_parameters p = get_or p no_parameters

-- A departure that is not after the time of the header leaves the field as it is.
unfoldable pub departure_in : Option ℕ → ℕ → Option ℕ → Option ℕ
departure_in none timestamp old = old
departure_in (some departure_time) timestamp old =
    if ltb timestamp departure_time then some ((departure_time - timestamp) % 2 ^ 32) else old

unfoldable pub set_loop_parameters :
    UpdateDynamicModeParameters → ℕ → DynamicClResControlMode → DynamicClResControlMode
unfolding departure_in
set_loop_parameters p timestamp m = record m {
  departure_time = departure_in p.departure_time timestamp m.departure_time;
  target_soc = p.target_soc;
  minimum_soc = p.min_soc;
  ack_max_delay = some 30;
}

unfoldable pub set_schedule_parameters :
    UpdateDynamicModeParameters → ℕ → DynamicSeResControlMode → DynamicSeResControlMode
unfolding departure_in
set_schedule_parameters p timestamp m = record m {
  departure_time = departure_in p.departure_time timestamp m.departure_time;
  target_soc = p.target_soc;
  minimum_soc = p.min_soc;
}
