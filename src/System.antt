-- ===== src/System.antt =====
-- libcontainer/system: what the kernel says of a process.
pub mod ProcStat
mod Scenarios
