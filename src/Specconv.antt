-- ===== src/Specconv.antt =====
-- libcontainer/specconv/spec_linux.go: the translation of an OCI spec into a configuration.
pub mod MountOptions
pub mod Seccomp
pub mod Nodes
pub mod Spaces
mod Scenarios
