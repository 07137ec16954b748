-- ===== src/Upstream.antt =====
-- src/upstream: the optional gate. `Seal` and `Gate` are gate.rs: sealed cookies, the cookies of a
-- request and the access check.
pub mod Seal
pub mod Gate
pub mod Opening
pub mod Wire
pub mod Jwks
pub mod Client
pub mod IdToken
pub mod Login
pub mod Discovery
pub mod KeySet
pub mod IdTokenChecks
pub mod Admission
pub mod Entry
pub mod Return
pub mod Headers
pub mod Replies
pub mod SignedIn
