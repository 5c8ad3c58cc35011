-- ===== src/Authentication.antt =====
-- Sessions, logins and passwords, from authentication/.
pub mod Names
pub mod Session
pub mod Definitions
pub mod Password
pub mod Login
pub mod CookieFilter
mod Tests
