-- ===== src/Context.antt =====
-- `Context` of include/iso15118/d20/context.hpp: what the states of a session share, with what it
-- takes from session/feedback.hpp, ev_information.hpp and states.hpp. Log lines are left out.
mod Types
mod Access
pub mod Header
pub mod Requests
pub mod Recovery
pub use Types.*
unfoldable pub use Access.*
