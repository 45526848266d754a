-- ===== src/ReleaseGate.antt =====
-- pkg/releasegate/gate.go: the gates that a release candidate must pass.
mod Tests
pub mod Statistics
pub mod Ranks
pub mod Results
pub mod Inputs
pub mod Config
pub mod Overhead
pub mod Variance
pub mod Significance
pub mod Evaluate
