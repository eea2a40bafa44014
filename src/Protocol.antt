-- ===== src/Protocol.antt =====
-- include/sensorforge/protocol and src/protocol: the checksum, the frame format and its codec.
pub mod Crc
pub mod Frame
pub mod Codec
pub mod Decoder
mod Tests
