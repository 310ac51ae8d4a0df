-- ===== src/Seccomp.antt =====
-- The patch of the seccomp filter: libcontainer/seccomp/patchbpf/enosys_linux.go.
pub mod Bpf
pub mod Arch
pub mod LastSyscalls
pub mod Stub
pub mod Patch
mod Scenarios
