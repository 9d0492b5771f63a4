-- ===== src/States/Machine/Flags/Charging.antt =====
-- The flags of the context, over the states of src/iso15118/d20/state that exchange charge parameters,
-- schedules and the messages of the charge loops.
use libiso.Prelude.{◌≡◌, refl, arith}
use libiso.Message.{
  Message, MessageType, ResponseCode, ScheduleExchangeResponse, AcReqTransferMode,
  PowerDeliveryResponse, Progress, DcChargeLoopRequest, DcChargeLoopResponse, AcChargeLoopRequest,
}
use libiso.AcDer.{AcDerControlFailureReason}
use libiso.Context.{Env, Context, Event}
use libiso.States.Machine.Flags.Basics.{
  IsStopping, AllStopping, IsStopping-refl, IsStopping-trans, kept, branch_stopped, branch_paused,
  delivered,
}
use libiso.States.AcDiscovery
use libiso.States.ScheduleExchange
use libiso.States.DcChargeLoop
use libiso.States.AcChargeLoop

schedule_concluded :
    (res : ScheduleExchangeResponse) (s : ScheduleExchange.ScheduleExchange) (c : Context)
    → IsStopping c (ScheduleExchange.conclude res s c).ctx
unfolding ScheduleExchange.conclude
schedule_concluded res s c = ground arith

schedule_message :
    (env : Env) (s : ScheduleExchange.ScheduleExchange) (m : Message) (c : Context)
    → IsStopping c (ScheduleExchange.on_message env s m c).ctx
unfolding ScheduleExchange.on_message
schedule_message env s (Message.schedule_exchange req) c =
    IsStopping-trans
      (kept (branch_stopped s.first_req_msg _ _ refl) (branch_paused s.first_req_msg _ _ refl))
      (schedule_concluded _ _ _)
schedule_message env s _ c = ground arith

pub schedule_exchange :
    (env : Env) (ev : Event) (s : ScheduleExchange.ScheduleExchange) (c : Context)
    → AllStopping c (ScheduleExchange.feed env ev s c)
unfolding ScheduleExchange.feed
schedule_exchange env Event.v2gtp_message s c =
    delivered c (ScheduleExchange.on_message env s) (schedule_message env s)
schedule_exchange env _ s c = IsStopping-refl c

failure_reported :
    (type : MessageType) (code : ResponseCode) (reason : AcDerControlFailureReason) (c : Context)
    → (AcDiscovery.report_failure type code reason c).session_paused ≡ c.session_paused
unfolding AcDiscovery.report_failure
failure_reported type code AcDerControlFailureReason.no_failure c = refl
failure_reported type code _ c = refl

discovery_concluded :
    (r : AcDiscovery.AcDiscoveryResult) (mode : AcReqTransferMode)
    (s : AcDiscovery.AcChargeParameterDiscovery) (c : Context)
    → IsStopping c (AcDiscovery.conclude r mode s c).ctx
unfolding AcDiscovery.conclude
discovery_concluded r mode s c = ground arith

discovery_message :
    (env : Env) (s : AcDiscovery.AcChargeParameterDiscovery) (m : Message) (c : Context)
    → IsStopping c (AcDiscovery.on_message env s m c).ctx
unfolding AcDiscovery.on_message
discovery_message env s (Message.ac_charge_parameter_discovery req) c =
    IsStopping-trans (kept refl refl) (discovery_concluded _ _ _ _)
discovery_message env s _ c = ground arith

pub ac_discovery :
    (env : Env) (ev : Event) (s : AcDiscovery.AcChargeParameterDiscovery) (c : Context)
    → AllStopping c (AcDiscovery.feed env ev s c)
unfolding AcDiscovery.feed
ac_discovery env Event.v2gtp_message s c =
    delivered c (AcDiscovery.on_message env s) (discovery_message env s)
ac_discovery env _ s c = IsStopping-refl c

dc_power_concluded :
    (res : PowerDeliveryResponse) (progress : Progress) (s : DcChargeLoop.DcChargeLoop)
    (c : Context)
    → IsStopping c (DcChargeLoop.conclude_power res progress s c).ctx
unfolding DcChargeLoop.conclude_power
dc_power_concluded res progress s c = ground arith

dc_loop_concluded :
    (r : DcChargeLoopResponse) (req : DcChargeLoopRequest) (s : DcChargeLoop.DcChargeLoop)
    (c : Context)
    → IsStopping c (DcChargeLoop.conclude_loop r req s c).ctx
unfolding DcChargeLoop.conclude_loop
dc_loop_concluded r req s c = ground arith

dc_message :
    (env : Env) (s : DcChargeLoop.DcChargeLoop) (m : Message) (c : Context)
    → IsStopping c (DcChargeLoop.on_message env s m c).ctx
unfolding DcChargeLoop.on_message
dc_message env s (Message.power_delivery req) c =
    IsStopping-trans (kept refl refl) (dc_power_concluded _ _ _ _)
dc_message env s (Message.dc_charge_loop req) c =
    IsStopping-trans
      (kept (branch_stopped s.first_entry_in_charge_loop _ _ refl)
        (branch_paused s.first_entry_in_charge_loop _ _ refl))
      (dc_loop_concluded _ _ _ _)
dc_message env s _ c = ground arith

pub dc_charge_loop :
    (env : Env) (ev : Event) (s : DcChargeLoop.DcChargeLoop) (c : Context)
    → AllStopping c (DcChargeLoop.feed env ev s c)
unfolding DcChargeLoop.feed
dc_charge_loop env Event.v2gtp_message s c =
    delivered c (DcChargeLoop.on_message env s) (dc_message env s)
dc_charge_loop env _ s c = IsStopping-refl c

ac_power_concluded :
    (res : PowerDeliveryResponse) (progress : Progress) (s : AcChargeLoop.AcChargeLoop)
    (c : Context)
    → IsStopping c (AcChargeLoop.conclude_power res progress s c).ctx
unfolding AcChargeLoop.conclude_power
ac_power_concluded res progress s c = ground arith

ac_loop_concluded :
    (r : AcChargeLoop.AcChargeLoopResult) (req : AcChargeLoopRequest)
    (s : AcChargeLoop.AcChargeLoop) (c : Context)
    → IsStopping c (AcChargeLoop.conclude_loop r req s c).ctx
unfolding AcChargeLoop.conclude_loop
ac_loop_concluded r req s c = ground arith

ac_message :
    (env : Env) (s : AcChargeLoop.AcChargeLoop) (m : Message) (c : Context)
    → IsStopping c (AcChargeLoop.on_message env s m c).ctx
unfolding AcChargeLoop.on_message
ac_message env s (Message.power_delivery req) c =
    IsStopping-trans (kept refl refl) (ac_power_concluded _ _ _ _)
ac_message env s (Message.ac_charge_loop req) c =
    IsStopping-trans
      (kept (branch_stopped s.first_entry_in_charge_loop _ _ refl)
        (branch_paused s.first_entry_in_charge_loop _ _ refl))
      (ac_loop_concluded _ _ _ _)
ac_message env s _ c = ground arith

pub ac_charge_loop :
    (env : Env) (ev : Event) (s : AcChargeLoop.AcChargeLoop) (c : Context)
    → AllStopping c (AcChargeLoop.feed env ev s c)
unfolding AcChargeLoop.feed
ac_charge_loop env Event.v2gtp_message s c =
    delivered c (AcChargeLoop.on_message env s) (ac_message env s)
ac_charge_loop env _ s c = IsStopping-refl c
