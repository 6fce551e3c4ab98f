-- ===== src/Examples.antt =====
-- A device that a client can be run against, and runs of the theorems on it.
pub mod Device
pub mod Auth
pub mod Http
pub mod Commit
pub mod Resources
pub mod Client
pub mod Objects
pub mod Tasks
pub mod Live
pub mod Matrix
pub mod Versions
