-- ===== src/Scenario.antt =====
-- src/scenario: scenario files, the metrics of their streams, and the verdict on them.
pub mod Result
pub mod Model
pub mod Parser
pub mod Words
pub mod Verdict
pub mod Runs
pub mod StreamMetrics
pub mod Can
pub mod Runner
pub mod Tests
