-- ===== src/Devices.antt =====
-- Device access control: libcontainer/devices, libcontainer/cgroups/devices and the cgroup v1
-- handler that uses them.
pub mod Device
pub mod Emulator
pub mod Transition
pub mod Lines
pub mod Filter
mod Scenarios
