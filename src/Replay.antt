-- ===== src/Replay.antt =====
-- include/sensorforge/replay and src/replay: the write-ahead log of recorded frames.
pub mod Segment
pub mod Record
pub mod Index
pub mod Reader
pub mod Writer
mod Tests
