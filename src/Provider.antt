-- ===== src/Provider.antt =====
-- crates/provider: the Secret Service side, as far as it is modelled.
pub mod Errors
pub mod Paths
pub mod Crypto
pub mod Client
pub mod Bus
pub mod Double
pub mod Process
pub mod Service
pub mod Sessions
