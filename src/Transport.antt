-- ===== src/Transport.antt =====
-- include/sensorforge/transport: frames cut out of the byte stream of a TCP connection.
pub mod Reassembler
pub mod Stream
pub mod Tcp
pub mod IoUring
pub mod Udp
mod Tests
