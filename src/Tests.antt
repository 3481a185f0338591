-- ===== src/Tests.antt =====
-- Runs at concrete inputs: a store that meets the laws of the database, data for all the tests, and
-- for each theorem an input at which its conditions hold.
pub mod Store
pub mod Rules
pub mod Engine
pub mod Services
pub mod Lifecycle
pub mod Mutex
pub mod Http
pub mod Bodies
pub mod Concurrent
pub mod Sent
pub mod Drain
