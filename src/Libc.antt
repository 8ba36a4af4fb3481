-- ===== src/Libc.antt =====
-- What the program uses of the C library on strings: printf and scanf conversions, fgets.
pub mod Format
pub mod Scan
pub mod Fgets
pub mod RoundTrip
