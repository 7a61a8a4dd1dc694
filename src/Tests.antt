-- ===== src/Tests.antt =====
-- Runs of the definitions on small inputs, and the theorems at concrete arguments.
pub mod Table
pub mod Text
pub mod Web
pub mod Nodes
pub mod Servers
pub mod Requests
pub mod Locks
pub mod Logs
pub mod Addresses
pub mod Arguments
pub mod Commands
pub mod Config
pub mod Messages
pub mod Store
