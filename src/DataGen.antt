-- ===== src/DataGen.antt =====
-- data_generation: the stand-in for the logger of the drone.
pub mod Copy
pub mod Generate
pub mod Options
