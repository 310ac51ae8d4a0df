-- ===== src/Syscont.antt =====
-- System containers: libsysbox/syscont, which turns an OCI spec into that of a system container.
pub mod Spec
pub mod IdMappings
pub mod Namespaces
mod Scenarios
pub mod Seccomp
pub mod Process
pub mod Mounts
