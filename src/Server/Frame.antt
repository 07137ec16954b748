-- ===== src/Server/Frame.antt =====
-- One rule for every invariant of the running server: what the elementary updates of the store keep
-- is kept by all requests and sweeps.
pub mod Grants
pub mod Logins
pub mod Events
pub mod Rule
