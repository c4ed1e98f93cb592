-- ===== src/Api.antt =====
-- visuara-signaling/src/api/: the JSON API.
pub mod Types
pub mod Auth
pub mod Devices
pub mod Admin
pub mod Router
pub mod Keeps
pub mod Steady
pub mod LastAdmin
pub mod Users
pub mod Serve
pub mod Remembered
pub mod Writes
pub mod Access
mod Tests
