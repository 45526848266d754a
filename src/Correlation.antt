-- ===== src/Correlation.antt =====
-- pkg/correlation: the join of spans and kernel signals, its evaluation, and retry storms.
pub mod Match
pub mod EnrichDns
pub mod RetryStorm
pub mod Evaluator
mod Tests
