-- ===== src/Users.antt =====
-- Accounts of users: src/user/user.service.ts, src/utils/user.ts and, of src/auth/, the checks of
-- passwords.
pub mod Model
pub mod Names
pub mod Referrals
pub mod Accounts
pub mod Requests
pub mod Passwords
pub mod Partial
mod Tests
