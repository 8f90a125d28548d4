-- ===== src/Wheel.antt =====
-- The spin wheel: src/wheel/wheel.service.ts and src/utils/wheel.ts.
pub mod Model
pub mod Dates
pub mod Pool
pub mod Vault
pub mod Awards
pub mod Spin
pub mod Admin
mod Tests
