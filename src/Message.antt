-- ===== src/Message.antt =====
-- The V2G messages of include/iso15118/message: the enumerations and structs that they share, the
-- requests an EV sends and the responses of the charger.
mod Datatypes
mod Services
mod Der
mod AcDiscovery
mod DcDiscovery
mod Prices
mod Schedule
mod Loop
mod DcLoop
mod AcLoop
mod Requests
mod Responses
pub use Datatypes.*
pub use Services.*
pub use Der.*
pub use AcDiscovery.*
pub use DcDiscovery.*
pub use Prices.*
pub use Schedule.*
pub use Loop.*
pub use DcLoop.*
pub use AcLoop.*
pub use Requests.*
pub use Responses.*
