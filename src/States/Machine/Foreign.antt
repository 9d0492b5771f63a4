-- ===== src/States/Machine/Foreign.antt =====
-- Requests that name another session than the current one.
use libiso.Prelude.{◌≡◌, Bool, true, false, arith, bytes_eq}
use libiso.Message.{Message}
use libiso.Session.{Session}
use libiso.Context.{Env, Context, no_result}
use libiso.States.Machine.{State}
use libiso.States.CableCheck
use libiso.States.PreCharge
use libiso.States.WeldingDetection
use libiso.States.PowerDelivery
use libiso.States.Authorization
use libiso.States.AuthorizationSetup
use libiso.States.ServiceDiscovery
use libiso.States.DcDiscovery
use libiso.States.AcDiscovery
use libiso.States.ScheduleExchange
use libiso.States.DcChargeLoop
use libiso.States.AcChargeLoop
use libiso.States.SessionStop

-- Whether the header of a request holds the id of the session. A protocol negotiation has no header.
abbrev pub names_session : Session → Message → Bool
names_session s (Message.session_setup r) = bytes_eq s.id r.header.session_id
names_session s (Message.authorization_setup r) = bytes_eq s.id r.header.session_id
names_session s (Message.authorization r) = bytes_eq s.id r.header.session_id
names_session s (Message.service_discovery r) = bytes_eq s.id r.header.session_id
names_session s (Message.dc_cable_check r) = bytes_eq s.id r.header.session_id
names_session s (Message.dc_pre_charge r) = bytes_eq s.id r.header.session_id
names_session s (Message.dc_welding_detection r) = bytes_eq s.id r.header.session_id
names_session s (Message.power_delivery r) = bytes_eq s.id r.header.session_id
names_session s (Message.session_stop r) = bytes_eq s.id r.header.session_id
names_session s (Message.service_detail r) = bytes_eq s.id r.header.session_id
names_session s (Message.service_selection r) = bytes_eq s.id r.header.session_id
names_session s (Message.dc_charge_parameter_discovery r) = bytes_eq s.id r.header.session_id
names_session s (Message.ac_charge_parameter_discovery r) = bytes_eq s.id r.header.session_id
names_session s (Message.schedule_exchange r) = bytes_eq s.id r.header.session_id
names_session s (Message.dc_charge_loop r) = bytes_eq s.id r.header.session_id
names_session s (Message.ac_charge_loop r) = bytes_eq s.id r.header.session_id
names_session s _ = false

-- Whether a state checks the id of a request before anything else. The states before a session exists
-- check none; ServiceDetail and ServiceSelection first take over what the charger says of a value added
-- service, which may throw.
abbrev pub checks_session : State → Bool
checks_session State.supported_app_protocol = false
checks_session State.session_setup = false
checks_session State.service_detail = false
checks_session State.service_selection = false
checks_session _ = true

power_delivery :
    (env : Env) (s : PowerDelivery.PowerDelivery) (m : Message) (c : Context)
    → names_session c.session m ≡ false
    → ((PowerDelivery.on_message env s m c).result ≡ no_result)
      × ((PowerDelivery.on_message env s m c).ctx.session ≡ c.session)
unfolding PowerDelivery.on_message
power_delivery env s (Message.session_stop r) c h = ground arith
power_delivery env s _ c h = ground arith

authorization :
    (env : Env) (s : Authorization.Authorization) (m : Message) (c : Context)
    → names_session c.session m ≡ false
    → ((Authorization.on_message env s m c).result ≡ no_result)
      × ((Authorization.on_message env s m c).ctx.session ≡ c.session)
unfolding Authorization.on_message
authorization env s (Message.session_stop r) c h = ground arith
authorization env s _ c h = ground arith

authorization_setup :
    (env : Env) (s : Unit {0}) (m : Message) (c : Context)
    → names_session c.session m ≡ false
    → ((AuthorizationSetup.on_message env s m c).result ≡ no_result)
      × ((AuthorizationSetup.on_message env s m c).ctx.session ≡ c.session)
unfolding AuthorizationSetup.on_message
authorization_setup env s (Message.session_stop r) c h = ground arith
authorization_setup env s _ c h = ground arith

service_discovery :
    (env : Env) (s : Unit {0}) (m : Message) (c : Context)
    → names_session c.session m ≡ false
    → ((ServiceDiscovery.on_message env s m c).result ≡ no_result)
      × ((ServiceDiscovery.on_message env s m c).ctx.session ≡ c.session)
unfolding ServiceDiscovery.on_message
service_discovery env s (Message.session_stop r) c h = ground arith
service_discovery env s _ c h = ground arith

session_stop :
    (env : Env) (s : Unit {0}) (m : Message) (c : Context)
    → names_session c.session m ≡ false
    → ((SessionStop.on_message env s m c).result ≡ no_result)
      × ((SessionStop.on_message env s m c).ctx.session ≡ c.session)
unfolding SessionStop.on_message
session_stop env s (Message.session_stop r) c h = ground arith
session_stop env s _ c h = ground arith

schedule_exchange :
    (env : Env) (s : ScheduleExchange.ScheduleExchange) (m : Message) (c : Context)
    → names_session c.session m ≡ false
    → ((ScheduleExchange.on_message env s m c).result ≡ no_result)
      × ((ScheduleExchange.on_message env s m c).ctx.session ≡ c.session)
unfolding ScheduleExchange.on_message ScheduleExchange.conclude
schedule_exchange env s (Message.session_stop r) c h = ground arith
schedule_exchange env s _ c h = ground arith

dc_charge_loop :
    (env : Env) (s : DcChargeLoop.DcChargeLoop) (m : Message) (c : Context)
    → names_session c.session m ≡ false
    → ((DcChargeLoop.on_message env s m c).result ≡ no_result)
      × ((DcChargeLoop.on_message env s m c).ctx.session ≡ c.session)
unfolding DcChargeLoop.on_message DcChargeLoop.conclude_power DcChargeLoop.conclude_loop
dc_charge_loop env s (Message.session_stop r) c h = ground arith
dc_charge_loop env s _ c h = ground arith

ac_charge_loop :
    (env : Env) (s : AcChargeLoop.AcChargeLoop) (m : Message) (c : Context)
    → names_session c.session m ≡ false
    → ((AcChargeLoop.on_message env s m c).result ≡ no_result)
      × ((AcChargeLoop.on_message env s m c).ctx.session ≡ c.session)
unfolding AcChargeLoop.on_message AcChargeLoop.conclude_power AcChargeLoop.conclude_loop
ac_charge_loop env s (Message.session_stop r) c h = ground arith
ac_charge_loop env s _ c h = ground arith
