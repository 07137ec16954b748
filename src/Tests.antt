-- ===== src/Tests.antt =====
-- The theorems at concrete inputs.
pub mod Fixture
pub mod Stores
pub mod Tokens
pub mod Grants
pub mod Revocation
pub mod Requests
pub mod Cookies
pub mod Upstream
pub mod Servers
pub mod Runs
pub mod Histories
pub mod Logins
pub mod SignedIn
