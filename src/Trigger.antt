-- ===== src/Trigger.antt =====
-- The triggers, from trigger/.
pub mod RateLimit
pub mod Handler
pub mod Delay
pub mod Definitions
mod Tests
