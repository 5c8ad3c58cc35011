-- ===== src/Monitor.antt =====
-- The service monitor, from monitor/minmonitor.go.
pub mod Service
pub mod Table
mod Tests
