-- ===== src/Metrics.antt =====
-- internal/metrics: the route matcher and the counters.
pub mod Routes
pub mod Registry
mod Tests
