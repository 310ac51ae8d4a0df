-- ===== src/Configs.antt =====
-- The container's configuration: libcontainer/configs.
pub mod Namespaces
pub mod HostIds
pub mod Validate
mod Scenarios
