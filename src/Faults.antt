-- ===== src/Faults.antt =====
-- faults/: faults injected into the frames that a node sends.
pub mod Rule
pub mod Engine
mod Tests
