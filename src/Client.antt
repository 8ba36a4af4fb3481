-- ===== src/Client.antt =====
-- app/client: what the client does on the ground.
pub mod Exchange
pub mod Receive
pub mod Request
pub mod Transmission
pub mod Console
pub mod Main
pub mod Threads
pub mod Log
