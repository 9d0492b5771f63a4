-- ===== src/States/Machine/Flags.antt =====
-- The flags `session_stopped` and `session_paused` of the context, over the states of
-- src/iso15118/d20/state.
pub mod Basics
pub mod Services
pub mod Charging
use libiso.Prelude.{
  ◌≡◌, true, Option, none, some, List, [], ◌∷◌, ℕ, Bool-cases, ◌==◌, arith, inl, inr, Option-cases,
}
use Prim.Native.String.{String}
use libiso.Message.{Message, NegotiationCode, SupportedAppProtocol as Offered}
use libiso.Context.{Env, Context, Event, Fed}
use libiso.States.Machine.{State, feed, into}
use libiso.States.Machine.Flags.Basics.{
  IsStopping, AllStopping, IsStopping-refl, IsStopping-trans, AllStopping-from,
}
use libiso.States.Machine.Flags.Services.{service_detail, service_selection}
use libiso.States.Machine.Flags.Charging.{
  ac_discovery, schedule_exchange, dc_charge_loop, ac_charge_loop,
}
use libiso.States.SessionStop
use libiso.States.CableCheck
use libiso.States.PreCharge
use libiso.States.WeldingDetection
use libiso.States.PowerDelivery
use libiso.States.Authorization
use libiso.States.AuthorizationSetup
use libiso.States.ServiceDiscovery
use libiso.States.SessionSetup
use libiso.States.ServiceDetail
use libiso.States.ServiceSelection
use libiso.States.DcDiscovery
use libiso.States.AcDiscovery
use libiso.States.ScheduleExchange
use libiso.States.DcChargeLoop
use libiso.States.AcChargeLoop
use libiso.States.SupportedAppProtocol

cable_check :
    (env : Env) (ev : Event) (s : CableCheck.DcCableCheck) (c : Context)
    → AllStopping c (CableCheck.feed env ev s c)
unfolding CableCheck.feed
cable_check env Event.reset s c = ground arith
cable_check env _ s c = ground arith

pre_charge :
    (env : Env) (ev : Event) (s : PreCharge.DcPreCharge) (c : Context)
    → AllStopping c (PreCharge.feed env ev s c)
unfolding PreCharge.feed
pre_charge env Event.reset s c = ground arith
pre_charge env _ s c = ground arith

welding_detection :
    (env : Env) (ev : Event) (s : WeldingDetection.DcWeldingDetection) (c : Context)
    → AllStopping c (WeldingDetection.feed env ev s c)
unfolding WeldingDetection.feed
welding_detection env Event.reset s c = ground arith
welding_detection env _ s c = ground arith

power_delivery :
    (env : Env) (ev : Event) (s : PowerDelivery.PowerDelivery) (c : Context)
    → AllStopping c (PowerDelivery.feed env ev s c)
unfolding PowerDelivery.feed
power_delivery env Event.reset s c = ground arith
power_delivery env _ s c = ground arith

authorization :
    (env : Env) (ev : Event) (s : Authorization.Authorization) (c : Context)
    → AllStopping c (Authorization.feed env ev s c)
unfolding Authorization.feed
authorization env Event.reset s c = ground arith
authorization env _ s c = ground arith

authorization_setup :
    (env : Env) (ev : Event) (s : Unit {0}) (c : Context)
    → AllStopping c (AuthorizationSetup.feed env ev s c)
unfolding AuthorizationSetup.feed
authorization_setup env Event.reset s c = ground arith
authorization_setup env _ s c = ground arith

service_discovery :
    (env : Env) (ev : Event) (s : Unit {0}) (c : Context)
    → AllStopping c (ServiceDiscovery.feed env ev s c)
unfolding ServiceDiscovery.feed
service_discovery env Event.reset s c = ground arith
service_discovery env _ s c = ground arith

session_setup :
    (env : Env) (ev : Event) (s : Unit {0}) (c : Context)
    → AllStopping c (SessionSetup.feed env ev s c)
unfolding SessionSetup.feed
session_setup env Event.reset s c = ground arith
session_setup env _ s c = ground arith

session_stop :
    (env : Env) (ev : Event) (s : Unit {0}) (c : Context)
    → AllStopping c (SessionStop.feed env ev s c)
unfolding SessionStop.feed
session_stop env Event.reset s c = ground arith
session_stop env _ s c = ground arith

dc_discovery :
    (env : Env) (ev : Event) (s : Unit {0}) (c : Context)
    → AllStopping c (DcDiscovery.feed env ev s c)
unfolding DcDiscovery.feed
dc_discovery env Event.reset s c = ground arith
dc_discovery env _ s c = ground arith

abbrev AnyStopping : Context → Option Context → Type 0
AnyStopping c none = Unit {0}
AnyStopping c (some c') = IsStopping c c'

AnyStopping-trans :
    {c d : Context} (o : Option Context) → IsStopping c d → AnyStopping d o → AnyStopping c o
AnyStopping-trans none h k = tt
AnyStopping-trans (some e) h k = IsStopping-trans h k

remembered :
    {d : Context} (p : Offered) (c : Context)
    → IsStopping (SupportedAppProtocol.remember p c) d
    → IsStopping c d
remembered p c h = record { stopped = h.stopped; paused = h.paused }

reported :
    (custom : Option String) (p : Offered) (c : Context)
    → AnyStopping c (SupportedAppProtocol.report_protocol custom p c)
unfolding SupportedAppProtocol.report_protocol
reported custom p c = ground arith

selected :
    (custom : Option String) (id : Option ℕ) (ps : List Offered) (c : Context)
    → AnyStopping c (SupportedAppProtocol.select_protocols custom id ps c)
unfolding SupportedAppProtocol.select_protocols
selected custom none ps c = IsStopping-refl c
selected custom (some id) [] c = IsStopping-refl c
selected custom (some id) (p ∷ ps) c = elim (Bool-cases (p.schema_id == id)) [
  | inl b ↦
      elim (Option-cases
        (SupportedAppProtocol.report_protocol custom p (SupportedAppProtocol.remember p c))) [
          | inl n ↦ rw (b, n) tt
          | inr (c', e) ↦
              rw (b, e)
                (AnyStopping-trans _
                  (remembered p c (rw e at (reported custom p (SupportedAppProtocol.remember p c))))
                  (selected custom (some id) ps c'))
        ]
  | inr b ↦ rw b (selected custom (some id) ps c)
]

negotiation_finished :
    (code : NegotiationCode) (found : Option Context) (c : Context)
    → AnyStopping c found
    → AllStopping c (SupportedAppProtocol.finish code found c)
unfolding SupportedAppProtocol.finish
negotiation_finished NegotiationCode.failed_no_negotiation found c h = IsStopping-refl c
negotiation_finished _ none c h = tt
negotiation_finished _ (some c') c h = h

negotiation :
    (env : Env) (m : Message) (c : Context)
    → AllStopping c (SupportedAppProtocol.on_message env m c)
unfolding SupportedAppProtocol.on_message
negotiation env (Message.supported_app_protocol req) c =
    AllStopping-from _ (record { stopped = λ h. h; paused = λ h. h })
      (negotiation_finished _ _ _ (selected c.session_config.custom_protocol _ req.app_protocol _))
negotiation env m c = ground arith

supported_app_protocol :
    (env : Env) (ev : Event) (s : Unit {0}) (c : Context)
    → AllStopping c (SupportedAppProtocol.feed env ev s c)
unfolding SupportedAppProtocol.feed
supported_app_protocol env Event.v2gtp_message s c =
    elim (Option-cases c.message_exchange.request) [
      | inl idle ↦ rw idle tt
      | inr (m, waiting) ↦
          rw waiting (
            AllStopping-from _ (record { stopped = λ h. h; paused = λ h. h }) (negotiation env m _))
    ]
supported_app_protocol env _ s c = IsStopping-refl c

into-AllStopping :
    {S : Type 0} (c : Context) (f : S → State) (r : Option (Fed S))
    → AllStopping c r
    → AllStopping c (into f r)
into-AllStopping c f none h = tt
into-AllStopping c f (some r) h = h

feed-AllStopping :
    (env : Env) (ev : Event) (s : State) (c : Context) → AllStopping c (feed env ev s c)
unfolding feed
feed-AllStopping env ev State.supported_app_protocol c =
    into-AllStopping c _ _ (supported_app_protocol env ev tt c)
feed-AllStopping env ev State.session_setup c = into-AllStopping c _ _ (session_setup env ev tt c)
feed-AllStopping env ev State.authorization_setup c =
    into-AllStopping c _ _ (authorization_setup env ev tt c)
feed-AllStopping env ev (State.authorization s) c =
    into-AllStopping c _ _ (authorization env ev s c)
feed-AllStopping env ev State.service_discovery c =
    into-AllStopping c _ _ (service_discovery env ev tt c)
feed-AllStopping env ev (State.dc_cable_check s) c = into-AllStopping c _ _ (cable_check env ev s c)
feed-AllStopping env ev (State.dc_pre_charge s) c = into-AllStopping c _ _ (pre_charge env ev s c)
feed-AllStopping env ev (State.power_delivery s) c =
    into-AllStopping c _ _ (power_delivery env ev s c)
feed-AllStopping env ev (State.dc_welding_detection s) c =
    into-AllStopping c _ _ (welding_detection env ev s c)
feed-AllStopping env ev State.service_detail c = into-AllStopping c _ _ (service_detail env ev tt c)
feed-AllStopping env ev State.service_selection c =
    into-AllStopping c _ _ (service_selection env ev tt c)
feed-AllStopping env ev State.dc_charge_parameter_discovery c =
    into-AllStopping c _ _ (dc_discovery env ev tt c)
feed-AllStopping env ev (State.ac_charge_parameter_discovery s) c =
    into-AllStopping c _ _ (ac_discovery env ev s c)
feed-AllStopping env ev (State.schedule_exchange s) c =
    into-AllStopping c _ _ (schedule_exchange env ev s c)
feed-AllStopping env ev (State.dc_charge_loop s) c =
    into-AllStopping c _ _ (dc_charge_loop env ev s c)
feed-AllStopping env ev (State.ac_charge_loop s) c =
    into-AllStopping c _ _ (ac_charge_loop env ev s c)
feed-AllStopping env ev State.session_stop c = into-AllStopping c _ _ (session_stop env ev tt c)

-- No state of the machine, whatever it is fed, takes back that the session is stopped or paused.
pub feed-IsStopping :
    (env : Env) (ev : Event) (s : State) (c : Context) {f : Fed State}
    → feed env ev s c ≡ some f
    → (c.session_stopped ≡ true → f.ctx.session_stopped ≡ true)
      × (c.session_paused ≡ true → f.ctx.session_paused ≡ true)
feed-IsStopping env ev s c {f} e =
    let h : IsStopping c f.ctx = rw e at (feed-AllStopping env ev s c) in (h.stopped, h.paused)
