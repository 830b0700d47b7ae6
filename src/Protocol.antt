-- ===== src/Protocol.antt =====
-- crates/protocol: the wire protocol and the vault's model, one child for each source file.
pub mod Errors
pub mod Model
pub mod Target
pub mod Vault
pub mod Message
pub mod Frame
