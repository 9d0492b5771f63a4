-- ===== src/States/Machine/Transitions.antt =====
-- What the states of src/iso15118/d20/state hand over to, in the order of a charging session.
pub mod Allowed
pub mod Preparing
pub mod Charging
use libiso.Prelude.{◌≡◌, true, Option, none, some}
use libiso.Context.{Env, Context, Event, StateId, Fed}
use libiso.States.Machine.{State, feed, into}
use libiso.States.Machine.Order.{Follows, follows-Follows}
use libiso.States.Machine.Transitions.Allowed.{allowed, IsAllowed}
use libiso.States.Machine.Transitions.Preparing.{
  session_setup, authorization_setup, authorization, service_discovery, service_detail,
  service_selection, supported_app_protocol,
}
use libiso.States.Machine.Transitions.Charging.{
  dc_discovery, ac_discovery, schedule_exchange, cable_check, pre_charge, power_delivery,
  dc_charge_loop, ac_charge_loop, welding_detection, session_stop,
}

-- The id of a state object.
abbrev pub id_of : State → StateId
id_of State.supported_app_protocol = StateId.supported_app_protocol
id_of State.session_setup = StateId.session_setup
id_of State.authorization_setup = StateId.authorization_setup
id_of (State.authorization _) = StateId.authorization
id_of State.service_discovery = StateId.service_discovery
id_of State.service_detail = StateId.service_detail
id_of State.service_selection = StateId.service_selection
id_of State.dc_charge_parameter_discovery = StateId.dc_charge_parameter_discovery
id_of (State.ac_charge_parameter_discovery _) = StateId.ac_charge_parameter_discovery
id_of (State.schedule_exchange _) = StateId.schedule_exchange
id_of (State.dc_cable_check _) = StateId.dc_cable_check
id_of (State.dc_pre_charge _) = StateId.dc_pre_charge
id_of (State.power_delivery _) = StateId.power_delivery
id_of (State.dc_charge_loop _) = StateId.dc_charge_loop
id_of (State.ac_charge_loop _) = StateId.ac_charge_loop
id_of (State.dc_welding_detection _) = StateId.dc_welding_detection
id_of State.session_stop = StateId.session_stop

into-IsAllowed :
    {S : Type 0} (a : StateId) (g : S → State) (r : Option (Fed S))
    → IsAllowed a r
    → IsAllowed a (into g r)
into-IsAllowed a g none h = h
into-IsAllowed a g (some r) h = h

feed-IsAllowed :
    (env : Env) (ev : Event) (s : State) (c : Context) → IsAllowed (id_of s) (feed env ev s c)
unfolding feed
feed-IsAllowed env ev State.supported_app_protocol c =
    into-IsAllowed StateId.supported_app_protocol _ _ (supported_app_protocol env ev tt c)
feed-IsAllowed env ev State.session_setup c =
    into-IsAllowed StateId.session_setup _ _ (session_setup env ev tt c)
feed-IsAllowed env ev State.authorization_setup c =
    into-IsAllowed StateId.authorization_setup _ _ (authorization_setup env ev tt c)
feed-IsAllowed env ev (State.authorization s) c =
    into-IsAllowed StateId.authorization _ _ (authorization env ev s c)
feed-IsAllowed env ev State.service_discovery c =
    into-IsAllowed StateId.service_discovery _ _ (service_discovery env ev tt c)
feed-IsAllowed env ev State.service_detail c =
    into-IsAllowed StateId.service_detail _ _ (service_detail env ev tt c)
feed-IsAllowed env ev State.service_selection c =
    into-IsAllowed StateId.service_selection _ _ (service_selection env ev tt c)
feed-IsAllowed env ev State.dc_charge_parameter_discovery c =
    into-IsAllowed StateId.dc_charge_parameter_discovery _ _ (dc_discovery env ev tt c)
feed-IsAllowed env ev (State.ac_charge_parameter_discovery s) c =
    into-IsAllowed StateId.ac_charge_parameter_discovery _ _ (ac_discovery env ev s c)
feed-IsAllowed env ev (State.schedule_exchange s) c =
    into-IsAllowed StateId.schedule_exchange _ _ (schedule_exchange env ev s c)
feed-IsAllowed env ev (State.dc_cable_check s) c =
    into-IsAllowed StateId.dc_cable_check _ _ (cable_check env ev s c)
feed-IsAllowed env ev (State.dc_pre_charge s) c =
    into-IsAllowed StateId.dc_pre_charge _ _ (pre_charge env ev s c)
feed-IsAllowed env ev (State.power_delivery s) c =
    into-IsAllowed StateId.power_delivery _ _ (power_delivery env ev s c)
feed-IsAllowed env ev (State.dc_charge_loop s) c =
    into-IsAllowed StateId.dc_charge_loop _ _ (dc_charge_loop env ev s c)
feed-IsAllowed env ev (State.ac_charge_loop s) c =
    into-IsAllowed StateId.ac_charge_loop _ _ (ac_charge_loop env ev s c)
feed-IsAllowed env ev (State.dc_welding_detection s) c =
    into-IsAllowed StateId.dc_welding_detection _ _ (welding_detection env ev s c)
feed-IsAllowed env ev State.session_stop c =
    into-IsAllowed StateId.session_stop _ _ (session_stop env ev tt c)

-- Every state hands over to a state that may follow it in a charging session. From the services and
-- from a joined session to the charge parameters, from the schedule on, and into the DC loop, the
-- session has selected a service of the kind, AC or DC, that the successor is for.
pub feed-Follows :
    (env : Env) (ev : Event) (s : State) (c : Context) {f : Fed State} {id : StateId}
    → feed env ev s c ≡ some f
    → f.result.new_state ≡ some id
    → Follows f.ctx.session (id_of s) id
feed-Follows env ev s c {f} {id} e n =
    let h : allowed f.ctx.session (id_of s) f.result.new_state ≡ true =
      rw e at (feed-IsAllowed env ev s c) in
    follows-Follows f.ctx.session (id_of s) id (rw n at h)
