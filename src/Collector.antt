-- ===== src/Collector.antt =====
-- pkg/collector: the probes of the kernel that the agent holds.
pub mod ProbeManager
pub mod RingBuf
pub mod Samples
mod Tests
