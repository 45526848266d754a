-- ===== src/Safety.antt =====
-- pkg/safety: the limiter of events per second and the guard over CPU use.
pub mod RateLimiter
pub mod OverheadGuard
mod Tests
