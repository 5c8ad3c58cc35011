-- ===== src/Config.antt =====
-- The configuration, from config/.
pub mod Resource
pub mod Loader
pub mod Build
pub mod Validator
