-- ===== src/Cli.antt =====
-- crates/cli: the planning of the management tool and its commands on the plugin and on distributions.
pub mod Trim
pub mod Releases
pub mod Lifecycle
pub mod Doctor
pub mod Versions
pub mod Machine
pub mod Plugin
pub mod Distributions
pub mod Payload
pub mod Provision
