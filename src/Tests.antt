-- ===== src/Tests.antt =====
-- Concrete inputs: a small database behind the driver's interface, and the theorems at it.
pub mod Database
pub mod Laws
pub mod Table
pub mod Encoding
pub mod Runs
pub mod Checks
pub mod Transport
pub mod Clients
pub mod Wire
pub mod Admin
pub mod Command
pub mod Loops
pub mod Main
pub mod Stack
pub mod Sessions
pub mod Numbers
pub mod System
pub mod Http
pub mod Counters
