-- ===== src/Core.antt =====
-- include/sensorforge/core: the queue of a stream and what is done when it is full.
pub mod Ring
pub mod Seqlock
pub mod Backpressure
mod Tests
