-- ===== src/States/Machine/Results.antt =====
-- What the results of the states of src/iso15118/d20/state have in common.
use libiso.Prelude.{◌≡◌, refl, not, Option, none, some, has_value, arith, inl, inr, Option-cases}
use libiso.Message.{Message, NegotiationCode}
use libiso.Context.{Env, Context, Event, Result, Fed}
use libiso.States.Machine.{State, feed, into}
use libiso.States.SessionStop
use libiso.States.CableCheck
use libiso.States.PreCharge
use libiso.States.WeldingDetection
use libiso.States.PowerDelivery
use libiso.States.Authorization
use libiso.States.AuthorizationSetup
use libiso.States.ServiceDiscovery
use libiso.States.SessionSetup
use libiso.States.ServiceDetail
use libiso.States.ServiceSelection
use libiso.States.DcDiscovery
use libiso.States.AcDiscovery
use libiso.States.ScheduleExchange
use libiso.States.DcChargeLoop
use libiso.States.AcChargeLoop
use libiso.States.SupportedAppProtocol

-- An event counts as handled exactly if it changes the state.
abbrev pub IsSettled : Result → Type 0
IsSettled r = r.unhandled ≡ not (has_value r.new_state)

abbrev AllSettled : {S : Type 0} → Option (Fed S) → Type 0
AllSettled none = Unit {0}
AllSettled (some f) = IsSettled f.result

cable_check :
    (env : Env) (ev : Event) (s : CableCheck.DcCableCheck) (c : Context)
    → AllSettled (CableCheck.feed env ev s c)
unfolding CableCheck.feed
cable_check env Event.reset s c = ground arith
cable_check env _ s c = ground arith

pre_charge :
    (env : Env) (ev : Event) (s : PreCharge.DcPreCharge) (c : Context)
    → AllSettled (PreCharge.feed env ev s c)
unfolding PreCharge.feed
pre_charge env Event.reset s c = ground arith
pre_charge env _ s c = ground arith

welding_detection :
    (env : Env) (ev : Event) (s : WeldingDetection.DcWeldingDetection) (c : Context)
    → AllSettled (WeldingDetection.feed env ev s c)
unfolding WeldingDetection.feed
welding_detection env Event.reset s c = ground arith
welding_detection env _ s c = ground arith

power_delivery :
    (env : Env) (ev : Event) (s : PowerDelivery.PowerDelivery) (c : Context)
    → AllSettled (PowerDelivery.feed env ev s c)
unfolding PowerDelivery.feed
power_delivery env Event.reset s c = ground arith
power_delivery env _ s c = ground arith

authorization :
    (env : Env) (ev : Event) (s : Authorization.Authorization) (c : Context)
    → AllSettled (Authorization.feed env ev s c)
unfolding Authorization.feed
authorization env Event.reset s c = ground arith
authorization env _ s c = ground arith

authorization_setup :
    (env : Env) (ev : Event) (s : Unit {0}) (c : Context)
    → AllSettled (AuthorizationSetup.feed env ev s c)
unfolding AuthorizationSetup.feed
authorization_setup env Event.reset s c = ground arith
authorization_setup env _ s c = ground arith

service_discovery :
    (env : Env) (ev : Event) (s : Unit {0}) (c : Context)
    → AllSettled (ServiceDiscovery.feed env ev s c)
unfolding ServiceDiscovery.feed
service_discovery env Event.reset s c = ground arith
service_discovery env _ s c = ground arith

session_setup :
    (env : Env) (ev : Event) (s : Unit {0}) (c : Context)
    → AllSettled (SessionSetup.feed env ev s c)
unfolding SessionSetup.feed
session_setup env Event.reset s c = ground arith
session_setup env _ s c = ground arith

session_stop :
    (env : Env) (ev : Event) (s : Unit {0}) (c : Context) → AllSettled (SessionStop.feed env ev s c)
unfolding SessionStop.feed
session_stop env Event.reset s c = ground arith
session_stop env _ s c = ground arith

service_detail :
    (env : Env) (ev : Event) (s : Unit {0}) (c : Context)
    → AllSettled (ServiceDetail.feed env ev s c)
unfolding ServiceDetail.feed
service_detail env Event.reset s c = ground arith
service_detail env _ s c = ground arith

service_selection :
    (env : Env) (ev : Event) (s : Unit {0}) (c : Context)
    → AllSettled (ServiceSelection.feed env ev s c)
unfolding ServiceSelection.feed ServiceSelection.conclude
service_selection env Event.reset s c = ground arith
service_selection env _ s c = ground arith

dc_discovery :
    (env : Env) (ev : Event) (s : Unit {0}) (c : Context) → AllSettled (DcDiscovery.feed env ev s c)
unfolding DcDiscovery.feed
dc_discovery env Event.reset s c = ground arith
dc_discovery env _ s c = ground arith

ac_discovery :
    (env : Env) (ev : Event) (s : AcDiscovery.AcChargeParameterDiscovery) (c : Context)
    → AllSettled (AcDiscovery.feed env ev s c)
unfolding AcDiscovery.feed AcDiscovery.conclude
ac_discovery env Event.reset s c = ground arith
ac_discovery env _ s c = ground arith

schedule_exchange :
    (env : Env) (ev : Event) (s : ScheduleExchange.ScheduleExchange) (c : Context)
    → AllSettled (ScheduleExchange.feed env ev s c)
unfolding ScheduleExchange.feed ScheduleExchange.conclude
schedule_exchange env Event.reset s c = ground arith
schedule_exchange env _ s c = ground arith

dc_charge_loop :
    (env : Env) (ev : Event) (s : DcChargeLoop.DcChargeLoop) (c : Context)
    → AllSettled (DcChargeLoop.feed env ev s c)
unfolding DcChargeLoop.feed DcChargeLoop.conclude_power DcChargeLoop.conclude_loop
dc_charge_loop env Event.reset s c = ground arith
dc_charge_loop env _ s c = ground arith

ac_charge_loop :
    (env : Env) (ev : Event) (s : AcChargeLoop.AcChargeLoop) (c : Context)
    → AllSettled (AcChargeLoop.feed env ev s c)
unfolding AcChargeLoop.feed AcChargeLoop.conclude_power AcChargeLoop.conclude_loop
ac_charge_loop env Event.reset s c = ground arith
ac_charge_loop env _ s c = ground arith

negotiation_finished :
    (code : NegotiationCode) (selected : Option Context) (c : Context)
    → AllSettled (SupportedAppProtocol.finish code selected c)
unfolding SupportedAppProtocol.finish
negotiation_finished NegotiationCode.failed_no_negotiation selected c = refl
negotiation_finished _ none c = tt
negotiation_finished _ (some c') c = refl

negotiation :
    (env : Env) (m : Message) (c : Context) → AllSettled (SupportedAppProtocol.on_message env m c)
unfolding SupportedAppProtocol.on_message
negotiation env (Message.supported_app_protocol req) c = negotiation_finished _ _ _
negotiation env m c = refl

supported_app_protocol :
    (env : Env) (ev : Event) (s : Unit {0}) (c : Context)
    → AllSettled (SupportedAppProtocol.feed env ev s c)
unfolding SupportedAppProtocol.feed
supported_app_protocol env Event.v2gtp_message s c =
    elim (Option-cases c.message_exchange.request) [
      | inl idle ↦ rw idle tt
      | inr (m, waiting) ↦ rw waiting (negotiation env m _)
    ]
supported_app_protocol env _ s c = refl

into-AllSettled :
    {S : Type 0} (f : S → State) (r : Option (Fed S)) → AllSettled r → AllSettled (into f r)
into-AllSettled f none h = h
into-AllSettled f (some r) h = h

feed-AllSettled : (env : Env) (ev : Event) (s : State) (c : Context) → AllSettled (feed env ev s c)
unfolding feed
feed-AllSettled env ev State.supported_app_protocol c =
    into-AllSettled _ _ (supported_app_protocol env ev tt c)
feed-AllSettled env ev State.session_setup c = into-AllSettled _ _ (session_setup env ev tt c)
feed-AllSettled env ev State.authorization_setup c =
    into-AllSettled _ _ (authorization_setup env ev tt c)
feed-AllSettled env ev (State.authorization s) c = into-AllSettled _ _ (authorization env ev s c)
feed-AllSettled env ev State.service_discovery c =
    into-AllSettled _ _ (service_discovery env ev tt c)
feed-AllSettled env ev (State.dc_cable_check s) c = into-AllSettled _ _ (cable_check env ev s c)
feed-AllSettled env ev (State.dc_pre_charge s) c = into-AllSettled _ _ (pre_charge env ev s c)
feed-AllSettled env ev (State.power_delivery s) c = into-AllSettled _ _ (power_delivery env ev s c)
feed-AllSettled env ev (State.dc_welding_detection s) c =
    into-AllSettled _ _ (welding_detection env ev s c)
feed-AllSettled env ev State.service_detail c = into-AllSettled _ _ (service_detail env ev tt c)
feed-AllSettled env ev State.service_selection c =
    into-AllSettled _ _ (service_selection env ev tt c)
feed-AllSettled env ev State.dc_charge_parameter_discovery c =
    into-AllSettled _ _ (dc_discovery env ev tt c)
feed-AllSettled env ev (State.ac_charge_parameter_discovery s) c =
    into-AllSettled _ _ (ac_discovery env ev s c)
feed-AllSettled env ev (State.schedule_exchange s) c =
    into-AllSettled _ _ (schedule_exchange env ev s c)
feed-AllSettled env ev (State.dc_charge_loop s) c = into-AllSettled _ _ (dc_charge_loop env ev s c)
feed-AllSettled env ev (State.ac_charge_loop s) c = into-AllSettled _ _ (ac_charge_loop env ev s c)
feed-AllSettled env ev State.session_stop c = into-AllSettled _ _ (session_stop env ev tt c)

-- Every state reports an event as handled exactly if it hands over to another state: an event that
-- a state has acted on and that keeps the state is reported as unhandled.
pub feed_settled :
    (env : Env) (ev : Event) (s : State) (c : Context) {f : Fed State}
    → feed env ev s c ≡ some f
    → f.result.unhandled ≡ not (has_value f.result.new_state)
feed_settled env ev s c {f} e = rw e at (feed-AllSettled env ev s c)
