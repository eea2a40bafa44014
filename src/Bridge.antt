-- ===== src/Bridge.antt =====
-- src/network_bridge.cpp and the subscription managers: topics sent over a link and published again.
pub mod Header
pub mod Subscription
pub mod Transforms
pub mod Compression
pub mod Node
pub mod Parameters
mod Tests
