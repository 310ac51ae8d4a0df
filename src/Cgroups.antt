-- ===== src/Cgroups.antt =====
-- The cgroup managers' pure parts: libcontainer/cgroups/utils.go, libcontainer/cgroups/fscommon and
-- libcontainer/cgroups/fs2.
pub mod Convert
pub mod Params
pub mod Fs2
mod Scenarios
