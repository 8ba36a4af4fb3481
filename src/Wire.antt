-- ===== src/Wire.antt =====
-- The messages between client and server: what one side writes, the other reads back.
pub mod Messages
pub mod Text
pub mod Fetch
pub mod Removal
pub mod Sending
pub mod Cycle
pub mod Status
pub mod Apart
pub mod Frame
pub mod Said
pub mod Session
pub mod Serve
pub mod Delivery
pub mod Remaining
pub mod Finish
