-- ===== src/Tests.antt =====
-- Runs of the model in a small environment, and the theorems at concrete inputs.
pub mod Demo
mod Streams
mod Commands
mod Scans
mod Transfers
mod Cycles
mod Directories
mod Ground
mod Sessions
mod Endings
mod Whole
mod Waiting
mod Clients
mod Threading
mod Drone
mod Serving
mod Delivered
