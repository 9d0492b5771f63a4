-- ===== src/States/Machine.antt =====
-- The states of src/iso15118/d20/state as one machine: the state objects by their StateId, and the
-- dispatch of `feed`.
pub mod Order
pub mod Transitions
pub mod Runs
pub mod Results
pub mod Foreign
pub mod Flags
use libiso.Prelude.{Option, none, some}
use libiso.Context.{Env, Context, Event, StateId, Fed, fed}
use libiso.States.SupportedAppProtocol
use libiso.States.SessionSetup
use libiso.States.AuthorizationSetup
use libiso.States.Authorization
use libiso.States.Authorization.{Authorization}
use libiso.States.ServiceDiscovery
use libiso.States.ServiceDetail
use libiso.States.ServiceSelection
use libiso.States.DcDiscovery
use libiso.States.AcDiscovery
use libiso.States.AcDiscovery.{AcChargeParameterDiscovery}
use libiso.States.ScheduleExchange
use libiso.States.ScheduleExchange.{ScheduleExchange}
use libiso.States.CableCheck
use libiso.States.CableCheck.{DcCableCheck}
use libiso.States.PreCharge
use libiso.States.PreCharge.{DcPreCharge}
use libiso.States.PowerDelivery
use libiso.States.PowerDelivery.{PowerDelivery}
use libiso.States.DcChargeLoop
use libiso.States.DcChargeLoop.{DcChargeLoop}
use libiso.States.AcChargeLoop
use libiso.States.AcChargeLoop.{AcChargeLoop}
use libiso.States.WeldingDetection
use libiso.States.WeldingDetection.{DcWeldingDetection}
use libiso.States.SessionStop

pub data State : Type 0 where
  supported_app_protocol : State
  session_setup : State
  authorization_setup : State
  authorization : Authorization → State
  service_discovery : State
  service_detail : State
  service_selection : State
  dc_charge_parameter_discovery : State
  ac_charge_parameter_discovery : AcChargeParameterDiscovery → State
  schedule_exchange : ScheduleExchange → State
  dc_cable_check : DcCableCheck → State
  dc_pre_charge : DcPreCharge → State
  power_delivery : PowerDelivery → State
  dc_charge_loop : DcChargeLoop → State
  ac_charge_loop : AcChargeLoop → State
  dc_welding_detection : DcWeldingDetection → State
  session_stop : State

-- The object that `create_state` makes, after its `enter`, which reads what the context has cached.
unfoldable pub create : StateId → Context → State
unfolding AcDiscovery.enter DcChargeLoop.enter AcChargeLoop.enter
create StateId.supported_app_protocol c = State.supported_app_protocol
create StateId.session_setup c = State.session_setup
create StateId.authorization_setup c = State.authorization_setup
create StateId.authorization c = State.authorization Authorization.initial
create StateId.service_discovery c = State.service_discovery
create StateId.service_detail c = State.service_detail
create StateId.service_selection c = State.service_selection
create StateId.dc_charge_parameter_discovery c = State.dc_charge_parameter_discovery
create StateId.ac_charge_parameter_discovery c =
    State.ac_charge_parameter_discovery (AcDiscovery.enter c)
create StateId.schedule_exchange c = State.schedule_exchange ScheduleExchange.initial
create StateId.dc_cable_check c = State.dc_cable_check CableCheck.initial
create StateId.dc_pre_charge c = State.dc_pre_charge PreCharge.initial
create StateId.power_delivery c = State.power_delivery PowerDelivery.initial
create StateId.dc_charge_loop c = State.dc_charge_loop (DcChargeLoop.enter c)
create StateId.ac_charge_loop c = State.ac_charge_loop (AcChargeLoop.enter c)
create StateId.dc_welding_detection c = State.dc_welding_detection WeldingDetection.initial
create StateId.session_stop c = State.session_stop

abbrev pub into : {S : Type 0} → (S → State) → Option (Fed S) → Option (Fed State)
into f none = none
into f (some r) = some (fed r.result (f r.self) r.ctx)

unfoldable pub feed : Env → Event → State → Context → Option (Fed State)
feed env ev State.supported_app_protocol c =
    into (λ _. State.supported_app_protocol) (SupportedAppProtocol.feed env ev tt c)
feed env ev State.session_setup c = into (λ _. State.session_setup) (SessionSetup.feed env ev tt c)
feed env ev State.authorization_setup c =
    into (λ _. State.authorization_setup) (AuthorizationSetup.feed env ev tt c)
feed env ev (State.authorization s) c = into State.authorization (Authorization.feed env ev s c)
feed env ev State.service_discovery c =
    into (λ _. State.service_discovery) (ServiceDiscovery.feed env ev tt c)
feed env ev State.service_detail c =
    into (λ _. State.service_detail) (ServiceDetail.feed env ev tt c)
feed env ev State.service_selection c =
    into (λ _. State.service_selection) (ServiceSelection.feed env ev tt c)
feed env ev State.dc_charge_parameter_discovery c =
    into (λ _. State.dc_charge_parameter_discovery) (DcDiscovery.feed env ev tt c)
feed env ev (State.ac_charge_parameter_discovery s) c =
    into State.ac_charge_parameter_discovery (AcDiscovery.feed env ev s c)
feed env ev (State.schedule_exchange s) c =
    into State.schedule_exchange (ScheduleExchange.feed env ev s c)
feed env ev (State.dc_cable_check s) c = into State.dc_cable_check (CableCheck.feed env ev s c)
feed env ev (State.dc_pre_charge s) c = into State.dc_pre_charge (PreCharge.feed env ev s c)
feed env ev (State.power_delivery s) c = into State.power_delivery (PowerDelivery.feed env ev s c)
feed env ev (State.dc_charge_loop s) c = into State.dc_charge_loop (DcChargeLoop.feed env ev s c)
feed env ev (State.ac_charge_loop s) c = into State.ac_charge_loop (AcChargeLoop.feed env ev s c)
feed env ev (State.dc_welding_detection s) c =
    into State.dc_welding_detection (WeldingDetection.feed env ev s c)
feed env ev State.session_stop c = into (λ _. State.session_stop) (SessionStop.feed env ev tt c)
