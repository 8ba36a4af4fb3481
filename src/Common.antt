-- ===== src/Common.antt =====
-- app/common: the code that the client and the server share.
pub mod Info
pub mod Paths
pub mod TcpBuffer
pub mod Stream
pub mod Compression
