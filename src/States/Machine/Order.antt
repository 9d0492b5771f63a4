-- ===== src/States/Machine/Order.antt =====
-- The order of the states of src/iso15118/d20/state: an abstract charging session, which knows the
-- states by their ids only.
use libiso.Prelude.{◌≡◌, ◌≤◌, ◌<◌, ℕ, Bool, true, false, arith}
use libiso.Session.{Session, is_ac_charger, is_dc_charger}
use libiso.Context.{StateId}

-- Which state may follow which. A session that is joined again after a pause skips the services;
-- PowerDelivery enters the AC loop for a contactor that has closed, without another look at the service.
pub data Follows (s : Session) : StateId → StateId → Type 0 where
  negotiated : Follows s StateId.supported_app_protocol StateId.session_setup
  set_up : Follows s StateId.session_setup StateId.authorization_setup
  joined_ac :
      is_ac_charger s ≡ true → Follows s StateId.session_setup StateId.ac_charge_parameter_discovery
  joined_dc :
      is_dc_charger s ≡ true → Follows s StateId.session_setup StateId.dc_charge_parameter_discovery
  offered : Follows s StateId.authorization_setup StateId.authorization
  authorized : Follows s StateId.authorization StateId.service_discovery
  discovered : Follows s StateId.service_discovery StateId.service_detail
  detailed : Follows s StateId.service_detail StateId.service_selection
  selected_ac :
      is_ac_charger s ≡ true
      → Follows s StateId.service_selection StateId.ac_charge_parameter_discovery
  selected_dc :
      is_dc_charger s ≡ true
      → Follows s StateId.service_selection StateId.dc_charge_parameter_discovery
  limited_ac : Follows s StateId.ac_charge_parameter_discovery StateId.schedule_exchange
  limited_dc : Follows s StateId.dc_charge_parameter_discovery StateId.schedule_exchange
  scheduled_ac : is_ac_charger s ≡ true → Follows s StateId.schedule_exchange StateId.power_delivery
  scheduled_dc : is_dc_charger s ≡ true → Follows s StateId.schedule_exchange StateId.dc_cable_check
  checked : Follows s StateId.dc_cable_check StateId.dc_pre_charge
  charged : Follows s StateId.dc_pre_charge StateId.power_delivery
  powered_ac : Follows s StateId.power_delivery StateId.ac_charge_loop
  powered_dc : is_dc_charger s ≡ true → Follows s StateId.power_delivery StateId.dc_charge_loop
  finished_dc : Follows s StateId.dc_charge_loop StateId.dc_welding_detection
  finished_ac : Follows s StateId.ac_charge_loop StateId.session_stop
  welded : Follows s StateId.dc_welding_detection StateId.session_stop

abbrev pub follows : Session → StateId → StateId → Bool
follows s StateId.supported_app_protocol StateId.session_setup = true
follows s StateId.session_setup StateId.authorization_setup = true
follows s StateId.session_setup StateId.ac_charge_parameter_discovery = is_ac_charger s
follows s StateId.session_setup StateId.dc_charge_parameter_discovery = is_dc_charger s
follows s StateId.authorization_setup StateId.authorization = true
follows s StateId.authorization StateId.service_discovery = true
follows s StateId.service_discovery StateId.service_detail = true
follows s StateId.service_detail StateId.service_selection = true
follows s StateId.service_selection StateId.ac_charge_parameter_discovery = is_ac_charger s
follows s StateId.service_selection StateId.dc_charge_parameter_discovery = is_dc_charger s
follows s StateId.ac_charge_parameter_discovery StateId.schedule_exchange = true
follows s StateId.dc_charge_parameter_discovery StateId.schedule_exchange = true
follows s StateId.schedule_exchange StateId.power_delivery = is_ac_charger s
follows s StateId.schedule_exchange StateId.dc_cable_check = is_dc_charger s
follows s StateId.dc_cable_check StateId.dc_pre_charge = true
follows s StateId.dc_pre_charge StateId.power_delivery = true
follows s StateId.power_delivery StateId.ac_charge_loop = true
follows s StateId.power_delivery StateId.dc_charge_loop = is_dc_charger s
follows s StateId.dc_charge_loop StateId.dc_welding_detection = true
follows s StateId.ac_charge_loop StateId.session_stop = true
follows s StateId.dc_welding_detection StateId.session_stop = true
follows s _ _ = false

pub follows-Follows : (s : Session) (a b : StateId) → follows s a b ≡ true → Follows s a b
follows-Follows s StateId.supported_app_protocol StateId.session_setup e = Follows.negotiated
follows-Follows s StateId.session_setup StateId.authorization_setup e = Follows.set_up
follows-Follows s StateId.session_setup StateId.ac_charge_parameter_discovery e =
    Follows.joined_ac e
follows-Follows s StateId.session_setup StateId.dc_charge_parameter_discovery e =
    Follows.joined_dc e
follows-Follows s StateId.authorization_setup StateId.authorization e = Follows.offered
follows-Follows s StateId.authorization StateId.service_discovery e = Follows.authorized
follows-Follows s StateId.service_discovery StateId.service_detail e = Follows.discovered
follows-Follows s StateId.service_detail StateId.service_selection e = Follows.detailed
follows-Follows s StateId.service_selection StateId.ac_charge_parameter_discovery e =
    Follows.selected_ac e
follows-Follows s StateId.service_selection StateId.dc_charge_parameter_discovery e =
    Follows.selected_dc e
follows-Follows s StateId.ac_charge_parameter_discovery StateId.schedule_exchange e =
    Follows.limited_ac
follows-Follows s StateId.dc_charge_parameter_discovery StateId.schedule_exchange e =
    Follows.limited_dc
follows-Follows s StateId.schedule_exchange StateId.power_delivery e = Follows.scheduled_ac e
follows-Follows s StateId.schedule_exchange StateId.dc_cable_check e = Follows.scheduled_dc e
follows-Follows s StateId.dc_cable_check StateId.dc_pre_charge e = Follows.checked
follows-Follows s StateId.dc_pre_charge StateId.power_delivery e = Follows.charged
follows-Follows s StateId.power_delivery StateId.ac_charge_loop e = Follows.powered_ac
follows-Follows s StateId.power_delivery StateId.dc_charge_loop e = Follows.powered_dc e
follows-Follows s StateId.dc_charge_loop StateId.dc_welding_detection e = Follows.finished_dc
follows-Follows s StateId.ac_charge_loop StateId.session_stop e = Follows.finished_ac
follows-Follows s StateId.dc_welding_detection StateId.session_stop e = Follows.welded
follows-Follows s _ _ e = ground arith

-- How far a session has come in a state.
abbrev pub rank : StateId → ℕ
rank StateId.supported_app_protocol = 0
rank StateId.session_setup = 1
rank StateId.authorization_setup = 2
rank StateId.authorization = 3
rank StateId.service_discovery = 4
rank StateId.service_detail = 5
rank StateId.service_selection = 6
rank StateId.dc_charge_parameter_discovery = 7
rank StateId.ac_charge_parameter_discovery = 7
rank StateId.schedule_exchange = 8
rank StateId.dc_cable_check = 9
rank StateId.dc_pre_charge = 10
rank StateId.power_delivery = 11
rank StateId.dc_charge_loop = 12
rank StateId.ac_charge_loop = 12
rank StateId.dc_welding_detection = 13
rank StateId.session_stop = 14

pub rank-Follows : {s : Session} {a b : StateId} → Follows s a b → rank a < rank b
rank-Follows Follows.negotiated = omega arith
rank-Follows Follows.set_up = omega arith
rank-Follows (Follows.joined_ac _) = omega arith
rank-Follows (Follows.joined_dc _) = omega arith
rank-Follows Follows.offered = omega arith
rank-Follows Follows.authorized = omega arith
rank-Follows Follows.discovered = omega arith
rank-Follows Follows.detailed = omega arith
rank-Follows (Follows.selected_ac _) = omega arith
rank-Follows (Follows.selected_dc _) = omega arith
rank-Follows Follows.limited_ac = omega arith
rank-Follows Follows.limited_dc = omega arith
rank-Follows (Follows.scheduled_ac _) = omega arith
rank-Follows (Follows.scheduled_dc _) = omega arith
rank-Follows Follows.checked = omega arith
rank-Follows Follows.charged = omega arith
rank-Follows Follows.powered_ac = omega arith
rank-Follows (Follows.powered_dc _) = omega arith
rank-Follows Follows.finished_dc = omega arith
rank-Follows Follows.finished_ac = omega arith
rank-Follows Follows.welded = omega arith

pub rank_bound : (a : StateId) → rank a ≤ 14
rank_bound a = grind arith
