-- ===== src/States.antt =====
-- The states of src/iso15118/d20/state. Each child has the members of a state object as a record,
-- the function that builds its response, and its `feed`; `none` of `feed` is an exception.
pub mod SessionStop
pub mod CableCheck
pub mod PreCharge
pub mod WeldingDetection
pub mod PowerDelivery
pub mod Authorization
pub mod AuthorizationSetup
pub mod ServiceDiscovery
pub mod ServiceDetail
pub mod ServiceSelection
pub mod DynamicMode
pub mod ScheduleExchange
pub mod DcDiscovery
pub mod DerControl
pub mod AcDiscovery
pub mod DcChargeLoop
pub mod AcChargeLoop
pub mod SessionSetup
pub mod SupportedAppProtocol
pub mod Machine
