-- ===== src/Attribution.antt =====
-- pkg/attribution: fault domains of incidents.
mod Tests
pub mod Mapper
pub mod Bayesian
pub mod Pipeline
