-- ===== src/Token.antt =====
-- src/token.rs: signed tokens. `Jws` signs and checks, `Issue` makes the claims of a token, and
-- `Verify` accepts a token of this server.
pub mod Jws
pub mod Issue
pub mod Verify
pub mod Signature
pub mod Claims
pub mod Acceptance
