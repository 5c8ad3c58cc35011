-- ===== src/Util.antt =====
-- Pages and routes, from util/ and proxy/.
pub mod StandardResponse
pub mod Router
pub mod Passthru
mod Tests
