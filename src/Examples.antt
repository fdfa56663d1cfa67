-- ===== src/Examples.antt =====
-- Runs of the code on small inputs.
pub mod Rules
pub mod Store
pub mod Accounts
pub mod Signed
pub mod Chat
pub mod Tasks
pub mod Node
pub mod Heads
pub mod Settings
pub mod Web
pub mod Start
pub mod Processes
pub mod Admission
pub mod Schema
pub mod Connections
pub mod Deliveries
pub mod Replays
