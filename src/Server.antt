-- ===== src/Server.antt =====
-- app/server: what the server does on the drone.
pub mod Logger
pub mod Scan
pub mod Transfer
pub mod Remove
pub mod Handler
pub mod Process
pub mod Frame
pub mod Disk
