-- ===== src/States/Machine/Transitions/Preparing.antt =====
-- What the states of src/iso15118/d20/state up to the selection of a service hand over to.
use libiso.Prelude.{refl, Option, none, some, arith, inl, inr, Option-cases}
use libiso.Message.{Message, NegotiationCode}
use libiso.Context.{Env, Context, Event, StateId}
use libiso.States.SupportedAppProtocol
use libiso.States.SessionSetup
use libiso.States.AuthorizationSetup
use libiso.States.Authorization
use libiso.States.ServiceDiscovery
use libiso.States.ServiceDetail
use libiso.States.ServiceSelection
use libiso.States.Machine.Transitions.Allowed.{IsAllowed}

pub session_setup :
    (env : Env) (ev : Event) (s : Unit {0}) (c : Context)
    → IsAllowed StateId.session_setup (SessionSetup.feed env ev s c)
unfolding SessionSetup.feed
session_setup env Event.reset s c = ground arith
session_setup env _ s c = ground arith

pub authorization_setup :
    (env : Env) (ev : Event) (s : Unit {0}) (c : Context)
    → IsAllowed StateId.authorization_setup (AuthorizationSetup.feed env ev s c)
unfolding AuthorizationSetup.feed
authorization_setup env Event.reset s c = ground arith
authorization_setup env _ s c = ground arith

pub authorization :
    (env : Env) (ev : Event) (s : Authorization.Authorization) (c : Context)
    → IsAllowed StateId.authorization (Authorization.feed env ev s c)
unfolding Authorization.feed
authorization env Event.reset s c = ground arith
authorization env _ s c = ground arith

pub service_discovery :
    (env : Env) (ev : Event) (s : Unit {0}) (c : Context)
    → IsAllowed StateId.service_discovery (ServiceDiscovery.feed env ev s c)
unfolding ServiceDiscovery.feed
service_discovery env Event.reset s c = ground arith
service_discovery env _ s c = ground arith

pub service_detail :
    (env : Env) (ev : Event) (s : Unit {0}) (c : Context)
    → IsAllowed StateId.service_detail (ServiceDetail.feed env ev s c)
unfolding ServiceDetail.feed
service_detail env Event.reset s c = ground arith
service_detail env _ s c = ground arith

pub service_selection :
    (env : Env) (ev : Event) (s : Unit {0}) (c : Context)
    → IsAllowed StateId.service_selection (ServiceSelection.feed env ev s c)
unfolding ServiceSelection.feed ServiceSelection.conclude
service_selection env Event.reset s c = ground arith
service_selection env _ s c = ground arith

negotiation_finished :
    (code : NegotiationCode) (selected : Option Context) (c : Context)
    → IsAllowed StateId.supported_app_protocol (SupportedAppProtocol.finish code selected c)
unfolding SupportedAppProtocol.finish
negotiation_finished NegotiationCode.failed_no_negotiation selected c = refl
negotiation_finished _ none c = tt
negotiation_finished _ (some c') c = refl

negotiation :
    (env : Env) (m : Message) (c : Context)
    → IsAllowed StateId.supported_app_protocol (SupportedAppProtocol.on_message env m c)
unfolding SupportedAppProtocol.on_message
negotiation env (Message.supported_app_protocol req) c = negotiation_finished _ _ _
negotiation env m c = refl

pub supported_app_protocol :
    (env : Env) (ev : Event) (s : Unit {0}) (c : Context)
    → IsAllowed StateId.supported_app_protocol (SupportedAppProtocol.feed env ev s c)
unfolding SupportedAppProtocol.feed
supported_app_protocol env Event.v2gtp_message s c =
    elim (Option-cases c.message_exchange.request) [
      | inl idle ↦ rw idle tt
      | inr (m, waiting) ↦ rw waiting (negotiation env m _)
    ]
supported_app_protocol env _ s c = refl
