-- ===== src/Auth.antt =====
-- services/auth: accounts, sessions and the location assignments of the platform's users.
pub mod Locations
pub mod Store
pub mod Users
pub mod Tokens
pub mod Accounts
pub mod Sessions
pub mod Service
pub mod Unique
pub mod Calls
pub mod Invariant
pub mod Revocation
pub mod Login
pub mod Access
pub mod Reset
pub mod Http
pub mod Demo
pub mod Tests
