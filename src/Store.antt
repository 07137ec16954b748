-- ===== src/Store.antt =====
-- src/store.rs: the state that the server keeps in memory. `Data` has its types and `Ops` its
-- methods; the other children prove what the methods do.
pub mod Data
pub mod Ops
pub mod Listing
pub mod Grouping
pub mod Sessions
pub mod Expiry
pub mod Refinement
pub mod Invariant
pub mod Revocation
pub mod Revoked
