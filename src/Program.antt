-- ===== src/Program.antt =====
-- The program that a configuration makes.
pub mod Store
pub mod Types
pub mod Placed
pub mod Keepers
pub mod Decoders
pub mod Loading
pub mod Sharing
pub mod Opening
pub mod Serving
pub mod Fencing
pub mod Tests
