-- ===== src/States/Machine/Transitions/Charging.antt =====
-- What the states of src/iso15118/d20/state from the charge parameters on hand over to.
use libiso.Prelude.{◌≡◌, refl, true, arith, inl, inr, Option-cases}
use libiso.Message.{Message, ScheduleExchangeResponse}
use libiso.Exchange.{pull_request}
use libiso.Context.{Env, Context, Event, StateId}
use libiso.States.DcDiscovery
use libiso.States.AcDiscovery
use libiso.States.ScheduleExchange
use libiso.States.CableCheck
use libiso.States.PreCharge
use libiso.States.PowerDelivery
use libiso.States.DcChargeLoop
use libiso.States.AcChargeLoop
use libiso.States.WeldingDetection
use libiso.States.SessionStop
use libiso.States.Machine.Transitions.Allowed.{allowed, IsAllowed}

pub dc_discovery :
    (env : Env) (ev : Event) (s : Unit {0}) (c : Context)
    → IsAllowed StateId.dc_charge_parameter_discovery (DcDiscovery.feed env ev s c)
unfolding DcDiscovery.feed
dc_discovery env Event.reset s c = ground arith
dc_discovery env _ s c = ground arith

pub ac_discovery :
    (env : Env) (ev : Event) (s : AcDiscovery.AcChargeParameterDiscovery) (c : Context)
    → IsAllowed StateId.ac_charge_parameter_discovery (AcDiscovery.feed env ev s c)
unfolding AcDiscovery.feed AcDiscovery.conclude
ac_discovery env Event.reset s c = ground arith
ac_discovery env _ s c = ground arith

schedule_concluded :
    (res : ScheduleExchangeResponse) (s : ScheduleExchange.ScheduleExchange) (c : Context)
    → allowed
        (ScheduleExchange.conclude res s c).ctx.session
        StateId.schedule_exchange
        (ScheduleExchange.conclude res s c).result.new_state
      ≡ true
unfolding ScheduleExchange.conclude
schedule_concluded res s c = ground arith

schedule_message :
    (env : Env) (s : ScheduleExchange.ScheduleExchange) (m : Message) (c : Context)
    → allowed
        (ScheduleExchange.on_message env s m c).ctx.session
        StateId.schedule_exchange
        (ScheduleExchange.on_message env s m c).result.new_state
      ≡ true
unfolding ScheduleExchange.on_message
schedule_message env s (Message.schedule_exchange req) c = schedule_concluded _ _ _
schedule_message env s _ c = ground arith

pub schedule_exchange :
    (env : Env) (ev : Event) (s : ScheduleExchange.ScheduleExchange) (c : Context)
    → IsAllowed StateId.schedule_exchange (ScheduleExchange.feed env ev s c)
unfolding ScheduleExchange.feed
schedule_exchange env Event.v2gtp_message s c = elim (Option-cases c.message_exchange.request) [
  | inl idle ↦ rw (idle, pull_request) tt
  | inr (m, waiting) ↦ rw (waiting, pull_request) (schedule_message env s m _)
]
schedule_exchange env _ s c = refl

pub cable_check :
    (env : Env) (ev : Event) (s : CableCheck.DcCableCheck) (c : Context)
    → IsAllowed StateId.dc_cable_check (CableCheck.feed env ev s c)
unfolding CableCheck.feed
cable_check env Event.reset s c = ground arith
cable_check env _ s c = ground arith

pub pre_charge :
    (env : Env) (ev : Event) (s : PreCharge.DcPreCharge) (c : Context)
    → IsAllowed StateId.dc_pre_charge (PreCharge.feed env ev s c)
unfolding PreCharge.feed
pre_charge env Event.reset s c = ground arith
pre_charge env _ s c = ground arith

pub power_delivery :
    (env : Env) (ev : Event) (s : PowerDelivery.PowerDelivery) (c : Context)
    → IsAllowed StateId.power_delivery (PowerDelivery.feed env ev s c)
unfolding PowerDelivery.feed
power_delivery env Event.reset s c = ground arith
power_delivery env _ s c = ground arith

pub dc_charge_loop :
    (env : Env) (ev : Event) (s : DcChargeLoop.DcChargeLoop) (c : Context)
    → IsAllowed StateId.dc_charge_loop (DcChargeLoop.feed env ev s c)
unfolding DcChargeLoop.feed DcChargeLoop.conclude_power DcChargeLoop.conclude_loop
dc_charge_loop env Event.reset s c = ground arith
dc_charge_loop env _ s c = ground arith

pub ac_charge_loop :
    (env : Env) (ev : Event) (s : AcChargeLoop.AcChargeLoop) (c : Context)
    → IsAllowed StateId.ac_charge_loop (AcChargeLoop.feed env ev s c)
unfolding AcChargeLoop.feed AcChargeLoop.conclude_power AcChargeLoop.conclude_loop
ac_charge_loop env Event.reset s c = ground arith
ac_charge_loop env _ s c = ground arith

pub welding_detection :
    (env : Env) (ev : Event) (s : WeldingDetection.DcWeldingDetection) (c : Context)
    → IsAllowed StateId.dc_welding_detection (WeldingDetection.feed env ev s c)
unfolding WeldingDetection.feed
welding_detection env Event.reset s c = ground arith
welding_detection env _ s c = ground arith

pub session_stop :
    (env : Env) (ev : Event) (s : Unit {0}) (c : Context)
    → IsAllowed StateId.session_stop (SessionStop.feed env ev s c)
unfolding SessionStop.feed
session_stop env Event.reset s c = ground arith
session_stop env _ s c = ground arith
