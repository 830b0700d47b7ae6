-- ===== src/Broker.antt =====
-- crates/broker: the credential store, and the operations on the vault that it holds.
pub mod Backend
pub mod Metadata
pub mod View
pub mod Entries
pub mod Collections
pub mod Aliases
pub mod Items
pub mod Recovery
pub mod Memory
pub mod Service
pub mod Windows
pub mod WinCred
pub mod Serve
pub mod ReadOnly
pub mod Samples
